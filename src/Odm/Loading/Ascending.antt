-- ===== src/Odm/Loading/Ascending.antt =====
-- odm/relation.go: matchesFor gives the matches in the order of the answer and without repeats.
use chandlery.Base.{
  ℕ, ◌<◌, ◌≢◌, ◌≡◌, refl, ◌∙◌, false, List, [], ◌∷◌, ◌++◌, arith, leb, length, Bool-cases, inl, inr,
  All,
}
use chandlery.Odm.Loading.{
  KeyId, Groups, group_at, has_index, sort_insert, sort, unseen, collected, matches_for,
}
use chandlery.Odm.Loading.Groups.{has_index-snoc}
use chandlery.Odm.Loading.Matches.{has_index-sort}

abbrev pub IsAscending : List ℕ → Type 0
IsAscending [] = Unit
IsAscending (i ∷ is) = All (λ j. i < j) is × IsAscending is

abbrev IsDistinct : List ℕ → Type 0
IsDistinct [] = Unit
IsDistinct (i ∷ is) = (has_index i is ≡ false) × IsDistinct is

All-below : (i j : ℕ) (is : List ℕ) → i < j → All (λ k. j < k) is → All (λ k. i < k) is
All-below i j [] l h = tt
All-below i j (k ∷ is) l h = (omega (arith, h.0), All-below i j is l h.1)

All-sort_insert :
    (i j : ℕ) (is : List ℕ) → i < j → All (λ k. i < k) is → All (λ k. i < k) (sort_insert j is)
unfolding sort_insert
All-sort_insert i j [] l h = (l, tt)
All-sort_insert i j (k ∷ is) l h = elim (Bool-cases (leb j k)) [
  | inl e ↦ rw (e, All) (l, h)
  | inr e ↦ rw (e, All) (h.0, All-sort_insert i j is l h.1)
]

sort_insert-IsAscending :
    (i : ℕ) (is : List ℕ) → IsAscending is → has_index i is ≡ false → IsAscending (sort_insert i is)
unfolding sort_insert has_index
sort_insert-IsAscending i [] a h = (tt, tt)
sort_insert-IsAscending i (j ∷ is) a h = elim (Bool-cases (leb i j)) [
  | inl e ↦
      let below : i < j = ground (arith, e, h) in
      rw (e, IsAscending) ((below, All-below i j is below a.0), a)
  | inr e ↦
      rw (e, IsAscending)
        (
          All-sort_insert j i is (ground (arith, e)) a.0,
          sort_insert-IsAscending i is a.1 (ground (arith, h)),
        )
]

sort-IsAscending : (is : List ℕ) → IsDistinct is → IsAscending (sort is)
unfolding sort
sort-IsAscending [] d = tt
sort-IsAscending (i ∷ is) d =
    sort_insert-IsAscending i (sort is) (sort-IsAscending is d.1) (has_index-sort i is ∙ d.0)

snoc-IsDistinct :
    (m : List ℕ) (i : ℕ) → IsDistinct m → has_index i m ≡ false → IsDistinct (m ++ i ∷ [])
unfolding has_index
snoc-IsDistinct [] i d h = (refl, tt)
snoc-IsDistinct (j ∷ m) i d h =
    (ground (arith, d.0, h, has_index-snoc j m i), snoc-IsDistinct m i d.1 (ground (arith, h)))

unseen-IsDistinct : (m is : List ℕ) → IsDistinct m → IsDistinct (unseen m is)
unfolding unseen
unseen-IsDistinct m [] d = d
unseen-IsDistinct m (i ∷ is) d = elim (Bool-cases (has_index i m)) [
  | inl e ↦ rw (e, IsDistinct) (unseen-IsDistinct m is d)
  | inr e ↦ rw (e, IsDistinct) (unseen-IsDistinct (m ++ i ∷ []) is (snoc-IsDistinct m i d e))
]

collected-IsDistinct :
    (g : Groups) (m : List ℕ) (ks : List KeyId) → IsDistinct m → IsDistinct (collected g m ks)
unfolding collected
collected-IsDistinct g m [] d = d
collected-IsDistinct g m (k ∷ ks) d =
    collected-IsDistinct g (unseen m (group_at k g)) ks (unseen-IsDistinct m (group_at k g) d)

-- A parent with any number of keys but one gets its matches in the order of the answer, each once.
pub matches_for-IsAscending :
    (g : Groups) (ks : List KeyId) → length ks ≢ 1 → IsAscending (matches_for ks g)
unfolding matches_for
matches_for-IsAscending g [] h =
    sort-IsAscending (collected g [] []) (collected-IsDistinct g [] [] tt)
matches_for-IsAscending g (k ∷ []) h = absurd (h refl)
matches_for-IsAscending g (k ∷ l ∷ ks) h =
    sort-IsAscending (collected g [] (k ∷ l ∷ ks)) (collected-IsDistinct g [] (k ∷ l ∷ ks) tt)
