-- ===== src/Odm/Terminal/Reach.antt =====
-- odm/soft_delete.go: what ForceDelete and Restore do to a collection.
use chandlery.Base.{
  ℕ, ◌≡◌, refl, sym, ap, ◌∙◌, Bool, true, false, ◌&&◌, Option, none, some, List, map, not, ◌||◌,
  Bool-cases, inl, inr, filter_congr, map_congr, if◌then◌else◌,
}
use chandlery.Base.{filter as select_list}
use chandlery.Base.Int.{ℤ}
use chandlery.Base.Assoc.{lookup}
use chandlery.Odm.Value.{Value, null, text, single}
use chandlery.Odm.Filter.{build_filter}
use chandlery.Odm.Errors.{Error, ok}
use chandlery.Odm.Mongo.{IsMongo}
use chandlery.Odm.Query.{Query, trashed_only}
use chandlery.Odm.Query.Update.{Update, compile_update, compile_loop, add_op}
use chandlery.Odm.Query.Grouping.{under}
use chandlery.Odm.Query.Scope.{compile_filter, force_delete_mode, require_soft_deletes, restore_ops}
use chandlery.Odm.Query.Visible.{is_deleted, force_admits, force-admits, compile_filter-matches}
use chandlery.Odm.Terminal.{
  Driver, Answer, replied, failed, compiled, UpdateResult, plainly, by_name, restore, force_delete,
}

-- One collection on the server: UpdateMany and DeleteMany, when they answer, have updated, or removed,
-- the documents that the filter matches; and an $unset of deleted_at is seen,
-- in an update that does not $set it as well.
pub record IsStore (c : Driver) (matches : Value → c.Doc → Bool) (apply : Update → c.Doc → c.Doc)
    (documents : c.World → List c.Doc) : Type 0 where
  pub update_many :
      (f : Value) (u : Update) (w : c.World) (r : UpdateResult)
      → (c.update_many f (compiled u) w).1 ≡ replied r
      → documents (c.update_many f (compiled u) w).0
        ≡ map (λ d. if matches f d then apply u d else d) (documents w)
  pub delete_many :
      (f : Value) (w : c.World) (n : ℤ)
      → (c.delete_many f w).1 ≡ replied n
      → documents (c.delete_many f w).0 ≡ select_list (λ d. not (matches f d)) (documents w)
  pub unstamped :
      (u : Update) (v : Value) (d : c.Doc)
      → lookup "deleted_at" (under "$set" u) ≡ none
      → lookup "deleted_at" (under "$unset" u) ≡ some v
      → matches (single "deleted_at" null) (apply u d) ≡ true

restore_ops-unstamps :
    (now : ℕ) (q : Query)
    → (lookup "deleted_at" (under "$set" (compile_update (restore_ops now q))) ≡ none)
      × (lookup "deleted_at" (under "$unset" (compile_update (restore_ops now q))) ≡ some (text ""))
unfolding restore_ops compile_update compile_loop add_op lookup
restore_ops-unstamps now q = elim (Bool-cases (not q.meta.timestamps || q.skip_timestamps)) [
  | inl e ↦ rw e (refl, refl)
  | inr e ↦ rw e (refl, refl)
]

module _ (c : Driver) (matches : Value → c.Doc → Bool) (m : IsMongo matches)
    (apply : Update → c.Doc → c.Doc) (documents : c.World → List c.Doc)
    (l : IsStore c matches apply documents) where
  removed :
      (f : Value) (w : c.World) (n : ℤ) (a : c.World × Answer ℤ)
      → c.delete_many f w ≡ a
      → (plainly c a).1 ≡ ok n
      → documents (plainly c a).0 ≡ select_list (λ d. not (matches f d)) (documents w)
  removed f w n (w', failed e) p h = cc
  removed f w n (w', replied r) p h =
      ap (λ x. documents x.0) (sym p) ∙ l.delete_many f w r (ap (λ x. x.1) p)

  updated :
      (f : Value) (u : Update) (w : c.World) (r : UpdateResult) (a : c.World × Answer UpdateResult)
      → c.update_many f (compiled u) w ≡ a
      → (by_name c a).1 ≡ ok r
      → documents (by_name c a).0 ≡ map (λ d. if matches f d then apply u d else d) (documents w)
  updated f u w r (w', failed e) p h = cc
  updated f u w r (w', replied x) p h =
      ap (λ x. documents x.0) (sym p) ∙ l.update_many f u w x (ap (λ x. x.1) p)

  force_delete-sent :
      (q : Query) (w : c.World) (n : ℤ) (o : Option Error) (b : Bool)
      → q.error ≡ o
      → q.meta.soft_deletes ≡ b
      → (force_delete c q w).1 ≡ ok n
      → (q.meta.soft_deletes ≡ true)
        × (documents (force_delete c q w).0
            ≡ select_list
                (λ d. not (matches (compile_filter q (force_delete_mode q.trashed)) d))
                (documents w))
  unfolding force_delete require_soft_deletes
  force_delete-sent q w n (some e) b p s h = cc
  force_delete-sent q w n none false p s h = cc
  force_delete-sent q w n none true p s h = (
    s,
    simp (p, s)
        (removed (compile_filter q (force_delete_mode q.trashed)) w n
          (c.delete_many (compile_filter q (force_delete_mode q.trashed)) w) refl
          (simp (p, s) at h)),
  )

  restore-sent :
      (now : ℕ) (q : Query) (w : c.World) (r : UpdateResult) (o : Option Error) (b : Bool)
      → q.error ≡ o
      → q.meta.soft_deletes ≡ b
      → (restore c now q w).1 ≡ ok r
      → (q.meta.soft_deletes ≡ true)
        × (documents (restore c now q w).0
            ≡ map
                (λ d.
                  if matches (compile_filter q trashed_only) d
                  then apply (compile_update (restore_ops now q)) d
                  else d)
                (documents w))
  unfolding restore require_soft_deletes
  restore-sent now q w r (some e) b p s h = cc
  restore-sent now q w r none false p s h = cc
  restore-sent now q w r none true p s h = (
    s,
    simp (p, s)
        (updated (compile_filter q trashed_only) (compile_update (restore_ops now q)) w r
          (c.update_many (compile_filter q trashed_only)
            (compiled (compile_update (restore_ops now q))) w)
          refl (simp (p, s) at h)),
  )

  -- When ForceDelete succeeds, the model is one that soft-deletes, and of the documents exactly those
  -- are gone that the conditions select, and of these only the deleted ones where the mode is
  -- OnlyTrashed.
  pub force_delete-removes :
      (q : Query) (w : c.World) (n : ℤ)
      → (force_delete c q w).1 ≡ ok n
      → (q.meta.soft_deletes ≡ true)
        × (documents (force_delete c q w).0
            ≡ select_list
                (λ d.
                  not (matches (build_filter q.filters) d && force_admits matches m q.trashed d))
                (documents w))
  force_delete-removes q w n h =
      let sent = force_delete-sent q w n q.error q.meta.soft_deletes refl refl h in
      (
        sent.0,
        sent.1
            ∙ filter_congr _ _ (documents w) (λ d. ap not (
                compile_filter-matches matches m q (force_delete_mode q.trashed) d
                ∙ rw (sent.0, force-admits matches m q.trashed d) refl)),
      )

  -- When Restore succeeds, the model is one that soft-deletes, and exactly the deleted documents that
  -- the conditions select, whatever the mode, have been updated; a document so updated is not deleted.
  pub restore-restores :
      (now : ℕ) (q : Query) (w : c.World) (r : UpdateResult) (e : c.Doc)
      → (restore c now q w).1 ≡ ok r
      → (q.meta.soft_deletes ≡ true)
        × (documents (restore c now q w).0
            ≡ map
                (λ d.
                  if matches (build_filter q.filters) d && is_deleted matches m d
                  then apply (compile_update (restore_ops now q)) d
                  else d)
                (documents w))
        × (is_deleted matches m (apply (compile_update (restore_ops now q)) e) ≡ false)
  restore-restores now q w r e h =
      let sent = restore-sent now q w r q.error q.meta.soft_deletes refl refl h in
      (
        sent.0,
        sent.1
            ∙ map_congr _ _ (documents w) (λ d.
              ap (λ b. if b then apply (compile_update (restore_ops now q)) d else d)
                (compile_filter-matches matches m q trashed_only d ∙ rw sent.0 refl)),
        ap not (
            l.unstamped (compile_update (restore_ops now q)) (text "") e
              (restore_ops-unstamps now q).0 (restore_ops-unstamps now q).1),
      )
