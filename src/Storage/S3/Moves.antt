-- ===== src/Storage/S3/Moves.antt =====
-- storage/s3/s3.go: Move, which copies and then deletes.
use chandlery.Base.{◌≡◌, refl, ap, ◌∙◌, ◌⊎◌, inl, inr, false, Option, List, [], ◌∷◌, arith}
use chandlery.Base.Text.{Text, eq, eq_refl, eq→≡}
use chandlery.Base.Text.Suffix.{eq-append}
use chandlery.Storage.S3.{
  Disk, Fault, Answer, replied, failed, Client, key, translate_err, on_failure,
}
use chandlery.Storage.S3.Objects.{copy, delete, move, moved, join_errors, remove_loop, collected}
use chandlery.Storage.S3.Objects
use chandlery.Storage.S3.Calls.{IsIsolated}
use chandlery.Storage.S3.Contract.{path}

-- A copy that the server has answered for has been made.
abbrev pub CopiesContent : (c : Client) → (Text → Text → c.World → Option Text) → Type 0
CopiesContent c content =
    (b s k : Text) (w : c.World)
    → (c.copy_object b s k w).1 ≡ replied tt
    → content b k (c.copy_object b s k w).0 ≡ content b s w

module _ (c : Client) (content : Text → Text → c.World → Option Text) (law : IsIsolated c content)
    (copies : CopiesContent c content) (d : Disk) (source target : Text)
    (apart : eq (path source) (path target) ≡ false) where
  eq-target : eq (key d target) (key d source) ≡ false
  unfolding key
  eq-target = ground (
    arith,
    eq-append d.prefix (path target) (path source),
    eq→≡ (path target) (path source),
    eq_refl (path source),
  )

  eq-source : eq (key d source) (key d target) ≡ false
  unfolding key
  eq-source = ground (arith, eq-append d.prefix (path source) (path target))

  join_errors-state : (r : c.World × List (Text × Fault)) → (join_errors c r).0 ≡ r.0
  join_errors-state (w, []) = refl
  join_errors-state (w, e ∷ es) = refl

  kept_by_delete :
      (w : c.World)
      → content d.bucket (key d target) (delete c d (source ∷ []) w).0
        ≡ content d.bucket (key d target) w
  unfolding Objects.delete Objects.remove_loop
  kept_by_delete w =
      ap (content d.bucket (key d target)) (join_errors-state (remove_loop c d (source ∷ []) [] w))
      ∙ law.remove_object _ _ _ _ w (ground (arith, eq_refl d.bucket, eq-target))

  -- Whatever the server answers to the copy and to the removal, after a Move between two paths the
  -- target has the content that the source had, or the source still has it.
  pub move-loses_nothing :
      (w : c.World)
      → (content d.bucket (key d target) (move c d source target w).0
          ≡ content d.bucket (key d source) w)
        ⊎ (content d.bucket (key d source) (move c d source target w).0
            ≡ content d.bucket (key d source) w)
  unfolding Objects.move Objects.copy
  move-loses_nothing w = from asked.1 refl
    where
      asked : c.World × Answer (Unit {0})
      asked = c.copy_object d.bucket (key d source) (key d target) w

      from :
          (a : Answer (Unit {0}))
          → asked.1 ≡ a
          → (content d.bucket
                (key d target)
                (moved c d source (asked.0, on_failure (translate_err source) a)).0
              ≡ content d.bucket (key d source) w)
            ⊎ (content d.bucket
                  (key d source)
                  (moved c d source (asked.0, on_failure (translate_err source) a)).0
                ≡ content d.bucket (key d source) w)
      from (replied u) e = inl (kept_by_delete asked.0 ∙ copies _ _ _ w e)
      from (failed e) h =
          inr (law.copy_object _ _ _ _ _ w (ground (arith, eq_refl d.bucket, eq-source)))
