-- ===== src/Odm/Loading/Matches.antt =====
-- odm/relation.go: matchesFor finds the documents that share a key with a parent.
use chandlery.Base.{
  ℕ, String, ◌≡◌, refl, ◌∙◌, Bool, ◌||◌, List, [], ◌∷◌, ◌++◌, arith, ◌==◌, get_elem?, any,
}
use chandlery.Odm.Loading.{
  KeyId, Groups, group_at, has_key, has_index, sort_insert, sort, unseen, collected, matches_for,
  Reader, group_by_key,
}
use chandlery.Odm.Loading.Groups.{has_index-snoc, keys_at, has_index-group_by_key}

has_index-unseen :
    (j : ℕ) (m is : List ℕ) → has_index j (unseen m is) ≡ (has_index j m || has_index j is)
unfolding unseen has_index
has_index-unseen j m [] = ground arith
has_index-unseen j m (i ∷ is) =
    ground
      (arith, has_index-unseen j m is, has_index-unseen j (m ++ i ∷ []) is, has_index-snoc j m i)

has_index-sort_insert :
    (j i : ℕ) (is : List ℕ) → has_index j (sort_insert i is) ≡ (i == j || has_index j is)
unfolding sort_insert has_index
has_index-sort_insert j i [] = ground arith
has_index-sort_insert j i (x ∷ is) = ground (arith, has_index-sort_insert j i is)

pub has_index-sort : (j : ℕ) (is : List ℕ) → has_index j (sort is) ≡ has_index j is
unfolding sort has_index
has_index-sort j [] = refl
has_index-sort j (i ∷ is) = ground (arith, has_index-sort j is, has_index-sort_insert j i (sort is))

module _ (g : Groups) where
  -- A key under which the index stands.
  abbrev reaches : ℕ → KeyId → Bool
  reaches j k = has_index j (group_at k g)

  has_index-collected :
      (j : ℕ) (m : List ℕ) (ks : List KeyId)
      → has_index j (collected g m ks) ≡ (has_index j m || any (reaches j) ks)
  unfolding collected
  has_index-collected j m [] = ground arith
  has_index-collected j m (k ∷ ks) = ground (
    arith,
    has_index-collected j (unseen m (group_at k g)) ks,
    has_index-unseen j m (group_at k g),
  )

  has_index-matches_for :
      (j : ℕ) (ks : List KeyId) → has_index j (matches_for ks g) ≡ any (reaches j) ks
  unfolding matches_for has_index sort collected
  has_index-matches_for j [] = refl
  has_index-matches_for j (k ∷ []) = ground arith
  has_index-matches_for j (k ∷ l ∷ ks) =
      has_index-sort j (collected g [] (k ∷ l ∷ ks)) ∙ has_index-collected j [] (k ∷ l ∷ ks)

any-ext : {A : Type 0} (p q : A → Bool) → ((a : A) → p a ≡ q a) → (l : List A) → any p l ≡ any q l
any-ext p q h [] = refl
any-ext p q h (a ∷ l) = ground (arith, h a, any-ext p q h l)

-- A related document is among a parent's matches exactly when it is there and one of the parent's keys
-- is one of its own.
pub matches_for-reaches :
    {Doc : Type 0} (r : Reader Doc) (f : String) (ds : List Doc) (ks : List KeyId) (j : ℕ)
    → has_index j (matches_for ks (group_by_key r f ds))
      ≡ any (λ k. has_key k (keys_at r f (get_elem? ds j))) ks
matches_for-reaches r f ds ks j =
    has_index-matches_for (group_by_key r f ds) j ks
    ∙ any-ext _ _ (λ k. has_index-group_by_key r f k j ds) ks
