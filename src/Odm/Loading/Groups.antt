-- ===== src/Odm/Loading/Groups.antt =====
-- odm/relation.go: groupByKey indexes a document under each of its keys.
use chandlery.Base.{
  ℕ, zero, suc, ◌+◌, ◌<◌, ◌↔◌, String, ◌≡◌, refl, ◌∙◌, Bool, true, false, ◌&&◌, ◌||◌, Option, none,
  some, List, [], ◌∷◌, ◌++◌, arith, ◌==◌, if◌then◌else◌, get_elem?, map,
}
use chandlery.Base.Text.{Text, eq, eq_refl, eq→≡}
use chandlery.Odm.State.{RawValue}
use chandlery.Odm.Loading.{
  KeyId, key_of, Groups, group_at, add_index, has_key, has_index, Reader, field_keys, or_no_keys,
  index_loop, group_loop, group_by_key,
}

eq_iff : (s t : Text) → (eq s t ≡ true) ↔ (s ≡ t)
eq_iff s t = (eq→≡ s t, λ p. rw p (eq_refl t))

pub has_index-snoc :
    (j : ℕ) (is : List ℕ) (i : ℕ) → has_index j (is ++ i ∷ []) ≡ (has_index j is || i == j)
unfolding has_index
has_index-snoc j [] i = ground arith
has_index-snoc j (x ∷ is) i = ground (arith, has_index-snoc j is i)

group_at-add_index :
    (k j : KeyId) (i : ℕ) (g : Groups)
    → group_at k (add_index j i g) ≡ (if eq j k then group_at k g ++ i ∷ [] else group_at k g)
unfolding group_at add_index
group_at-add_index k j i [] = ground arith
group_at-add_index k j i ((l, is) ∷ g) =
    ground (arith, group_at-add_index k j i g, eq_iff l j, eq_iff l k, eq_iff j k)

module _ {Doc : Type 0} (r : Reader Doc) (f : String) where
  -- The keys of a document that may be there.
  abbrev pub keys_at : Option Doc → List KeyId
  keys_at none = []
  keys_at (some d) = map key_of (or_no_keys r f (field_keys r f d))

  has_index-index_loop :
      (k : KeyId) (j i : ℕ) (g : Groups) (es : List RawValue)
      → has_index j (group_at k (index_loop r f i g es))
        ≡ (has_index j (group_at k g) || (i == j && has_key k (map key_of es)))
  unfolding index_loop has_key
  has_index-index_loop k j i g [] = ground arith
  has_index-index_loop k j i g (e ∷ es) = ground (
    arith,
    has_index-index_loop k j i (add_index (key_of e) i g) es,
    group_at-add_index k (key_of e) i g,
    has_index-snoc j (group_at k g) i,
  )

  -- The document at j has the key, the first one standing at i.
  abbrev has_from : KeyId → ℕ → ℕ → List Doc → Bool
  has_from k j i [] = false
  has_from k j i (d ∷ ds) = (i == j && has_key k (keys_at (some d))) || has_from k j (suc i) ds

  has_index-group_loop :
      (k : KeyId) (j i : ℕ) (g : Groups) (ds : List Doc)
      → has_index j (group_at k (group_loop r f i g ds))
        ≡ (has_index j (group_at k g) || has_from k j i ds)
  unfolding group_loop
  has_index-group_loop k j i g [] = ground arith
  has_index-group_loop k j i g (d ∷ ds) =
      let es = or_no_keys r f (field_keys r f d) in
      ground (
        arith,
        has_index-group_loop k j (suc i) (index_loop r f i g es) ds,
        has_index-index_loop k j i g es,
      )

  has_from_before : (k : KeyId) (j i : ℕ) (ds : List Doc) → j < i → has_from k j i ds ≡ false
  has_from_before k j i [] h = refl
  has_from_before k j i (d ∷ ds) h = ground (arith, h, has_from_before k j (suc i) ds)

  has_from-get_elem? :
      (k : KeyId) (n j i : ℕ) (ds : List Doc)
      → j ≡ i + n
      → has_from k j i ds ≡ has_key k (keys_at (get_elem? ds n))
  unfolding has_key
  has_from-get_elem? k n j i [] h = refl
  has_from-get_elem? k zero j i (d ∷ ds) h = ground (arith, h, has_from_before k j (suc i) ds)
  has_from-get_elem? k (suc n) j i (d ∷ ds) h =
      ground (arith, h, has_from-get_elem? k n j (suc i) ds)

  -- A document's index stands under a key exactly when the document has the key.
  pub has_index-group_by_key :
      (k : KeyId) (j : ℕ) (ds : List Doc)
      → has_index j (group_at k (group_by_key r f ds)) ≡ has_key k (keys_at (get_elem? ds j))
  unfolding group_by_key group_at has_index
  has_index-group_by_key k j ds =
      has_index-group_loop k j 0 [] ds ∙ has_from-get_elem? k j j 0 ds (omega arith)
