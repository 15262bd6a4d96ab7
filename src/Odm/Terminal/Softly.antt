-- ===== src/Odm/Terminal/Softly.antt =====
-- odm/execute.go and soft_delete.go: Delete on a model that soft-deletes.
use chandlery.Base.{
  ℕ, ◌≡◌, refl, ◌∙◌, sym, ap, Bool, true, false, not, ◌||◌, Option, none, some, List, [], ◌∷◌, map,
  length, All, if◌then◌else◌, arith, Bool-cases, inl, inr, suc,
}
use chandlery.Base.Int.{ℤ}
use chandlery.Base.Assoc.{lookup}
use chandlery.Odm.Value.{Value, null, time, single}
use chandlery.Odm.Errors.{Error, ok}
use chandlery.Odm.Mongo.{IsMongo}
use chandlery.Odm.Query.{Query, trashed_excluded}
use chandlery.Odm.Query.Update.{Update, compile_update, compile_loop, add_op}
use chandlery.Odm.Query.Grouping.{under}
use chandlery.Odm.Query.Scope.{filter, soft_delete_update}
use chandlery.Odm.Query.Visible.{filter-matches}
use chandlery.Odm.Terminal.{
  Driver, Answer, replied, failed, compiled, UpdateResult, and_then, by_name, delete,
}

-- One collection on the server: UpdateMany, when it answers, has applied the update to the documents
-- that the filter matches, and a $set of a time to deleted_at is seen.
pub record IsCollection (c : Driver) (matches : Value → c.Doc → Bool)
    (apply : Update → c.Doc → c.Doc) (documents : c.World → List c.Doc) : Type 0 where
  pub update_many :
      (f : Value) (u : Update) (w : c.World) (r : UpdateResult)
      → (c.update_many f (compiled u) w).1 ≡ replied r
      → documents (c.update_many f (compiled u) w).0
        ≡ map (λ d. if matches f d then apply u d else d) (documents w)
  pub stamped :
      (u : Update) (now : ℕ) (d : c.Doc)
      → lookup "deleted_at" (under "$set" u) ≡ some (time now)
      → matches (single "deleted_at" null) (apply u d) ≡ false

soft_delete_update-stamps :
    (now : ℕ) (q : Query)
    → lookup "deleted_at" (under "$set" (soft_delete_update now q)) ≡ some (time now)
unfolding soft_delete_update compile_update compile_loop add_op lookup
soft_delete_update-stamps now q = elim (Bool-cases (not q.meta.timestamps || q.skip_timestamps)) [
  | inl e ↦ rw e refl
  | inr e ↦ rw e refl
]

-- The documents once the update has been applied to those that p holds of.
abbrev pub updated_where {ℓ} : {Doc : Type ℓ} → (Doc → Bool) → (Doc → Doc) → List Doc → List Doc
updated_where p u ds = map (λ d. if p d then u d else d) ds

length-updated_where :
    {Doc : Type 0} (p : Doc → Bool) (u : Doc → Doc) (ds : List Doc)
    → length (updated_where p u ds) ≡ length ds
length-updated_where p u [] = refl
length-updated_where p u (d ∷ ds) = ap suc (length-updated_where p u ds)

All-updated_where :
    {Doc : Type 0} (p : Doc → Bool) (u : Doc → Doc)
    → ((d : Doc) → p (u d) ≡ false)
    → (ds : List Doc) → All (λ d. p d ≡ false) (updated_where p u ds)
All-updated_where p u h [] = tt
All-updated_where p u h (d ∷ ds) = elim (Bool-cases (p d)) [
  | inl e ↦ rw (e, All) (h d, All-updated_where p u h ds)
  | inr e ↦ rw (e, All) (e, All-updated_where p u h ds)
]

module _ (c : Driver) (matches : Value → c.Doc → Bool) (m : IsMongo matches)
    (apply : Update → c.Doc → c.Doc) (documents : c.World → List c.Doc)
    (l : IsCollection c matches apply documents) where
  hidden :
      (now : ℕ) (q : Query) (d : c.Doc)
      → q.meta.soft_deletes ≡ true
      → q.trashed ≡ trashed_excluded
      → matches (filter q) (apply (soft_delete_update now q) d) ≡ false
  hidden now q d s t =
      let d' = apply (soft_delete_update now q) d in
      filter-matches matches m q d'
      ∙ rw (s, t)
          (ground
            (arith, l.stamped (soft_delete_update now q) now d (soft_delete_update-stamps now q)))

  answered :
      (now : ℕ) (q : Query) (w : c.World) (n : ℤ)
      → q.meta.soft_deletes ≡ true
      → (a : c.World × Answer UpdateResult)
      → c.update_many (filter q) (compiled (soft_delete_update now q)) w ≡ a
      → (and_then c (by_name c a) (λ r w. (w, ok r.modified_count))).1 ≡ ok n
      → documents (and_then c (by_name c a) (λ r w. (w, ok r.modified_count))).0
        ≡ updated_where (matches (filter q)) (apply (soft_delete_update now q)) (documents w)
  answered now q w n s (w', failed e) p h = cc
  answered now q w n s (w', replied r) p h =
      ap (λ x. documents x.0) (sym p)
      ∙ l.update_many (filter q) (soft_delete_update now q) w r (ap (λ x. x.1) p)

  delete-documents :
      (now : ℕ) (q : Query) (w : c.World) (n : ℤ) (o : Option Error)
      → q.error ≡ o
      → q.meta.soft_deletes ≡ true
      → (delete c now q w).1 ≡ ok n
      → documents (delete c now q w).0
        ≡ updated_where (matches (filter q)) (apply (soft_delete_update now q)) (documents w)
  unfolding delete
  delete-documents now q w n none p s h =
      simp (p, s)
        (answered now q w n s (c.update_many (filter q) (compiled (soft_delete_update now q)) w)
          refl (simp (p, s) at h))
  delete-documents now q w n (some e) p s h = cc

  -- On a model that soft-deletes, when Delete succeeds for a query of the default mode, no document
  -- has been removed, and none of those that are there matches the query any more.
  pub delete-hides :
      (now : ℕ) (q : Query) (w : c.World) (n : ℤ)
      → q.meta.soft_deletes ≡ true
      → q.trashed ≡ trashed_excluded
      → (delete c now q w).1 ≡ ok n
      → (length (documents (delete c now q w).0) ≡ length (documents w))
        × All (λ d. matches (filter q) d ≡ false) (documents (delete c now q w).0)
  delete-hides now q w n s t h = rw (delete-documents now q w n q.error refl s h) (
    length-updated_where (matches (filter q)) (apply (soft_delete_update now q)) (documents w),
    All-updated_where (matches (filter q)) (apply (soft_delete_update now q))
        (λ d. hidden now q d s t) (documents w),
  )
