-- ===== src/Odm/Query/Visible.antt =====
-- odm/soft_delete.go: which documents a query reaches.
use chandlery.Base.{
  ◌≡◌, refl, ◌∙◌, Bool, true, not, ◌&&◌, List, [], ◌∷◌, ◌++◌, arith, if◌then◌else◌, all-append,
  Bool-cases, inl, inr,
}
use chandlery.Odm.Value.{Value, null, single}
use chandlery.Odm.Filter.{build_filter}
use chandlery.Odm.Mongo.{IsMongo}
use chandlery.Odm.Query.{Query, TrashedMode, trashed_excluded, trashed_included, trashed_only}
use chandlery.Odm.Query.Chain.{build_filter-matches}
use chandlery.Odm.Query.Scope.{
  soft_delete_filter, scoped, compile_filter, filter, force_delete_mode,
}

-- Whether a mode lets a document with, or without, a deletion stamp through.
abbrev pub admits : TrashedMode → Bool → Bool
admits trashed_excluded deleted = not deleted
admits trashed_included deleted = true
admits trashed_only deleted = deleted

module _ {Doc : Type 0} (matches : Value → Doc → Bool) (m : IsMongo matches) where
  -- deleted_at is there and not null
  abbrev pub is_deleted : Doc → Bool
  is_deleted d = not (matches (single "deleted_at" null) d)

  abbrev pub scope_admits : TrashedMode → Doc → Bool
  scope_admits mode d = admits mode (is_deleted d)

  scoped-matches :
      (fs : List Value) (mode : TrashedMode) (d : Doc)
      → matches (build_filter (scoped fs (soft_delete_filter mode))) d
        ≡ (matches (build_filter fs) d && scope_admits mode d)
  unfolding soft_delete_filter
  scoped-matches fs trashed_excluded d =
      build_filter-matches matches m d (fs ++ single "deleted_at" null ∷ [])
      ∙ ground (
        arith,
        all-append (λ f. matches f d) fs (single "deleted_at" null ∷ []),
        build_filter-matches matches m d fs,
      )
  scoped-matches fs trashed_included d = ground arith
  scoped-matches fs trashed_only d =
      let scope = single "deleted_at" (single "$ne" null) in
      build_filter-matches matches m d (fs ++ scope ∷ [])
      ∙ ground (
        arith,
        all-append (λ f. matches f d) fs (scope ∷ []),
        build_filter-matches matches m d fs,
        m.not_equal "deleted_at" null d,
      )

  -- ForceDelete hides nothing that it was not asked to hide.
  abbrev pub force_admits : TrashedMode → Doc → Bool
  force_admits trashed_only d = is_deleted d
  force_admits mode d = true

  pub force-admits :
      (mode : TrashedMode) (d : Doc) → scope_admits (force_delete_mode mode) d ≡ force_admits mode d
  unfolding force_delete_mode
  force-admits trashed_excluded d = refl
  force-admits trashed_included d = refl
  force-admits trashed_only d = refl

  pub compile_filter-matches :
      (q : Query) (mode : TrashedMode) (d : Doc)
      → matches (compile_filter q mode) d ≡ (
          if q.meta.soft_deletes
          then matches (build_filter q.filters) d && scope_admits mode d
          else matches (build_filter q.filters) d)
  unfolding compile_filter
  compile_filter-matches q mode d = elim (Bool-cases q.meta.soft_deletes) [
    | inl e ↦ rw e (scoped-matches q.filters mode d)
    | inr e ↦ rw e refl
  ]

  -- On a model that soft-deletes, a query reaches the documents that its conditions select and its
  -- mode admits; on any other model, those that its conditions select.
  pub filter-matches :
      (q : Query) (d : Doc)
      → matches (filter q) d ≡ (
          if q.meta.soft_deletes
          then matches (build_filter q.filters) d && scope_admits q.trashed d
          else matches (build_filter q.filters) d)
  unfolding filter
  filter-matches q d = compile_filter-matches q q.trashed d
