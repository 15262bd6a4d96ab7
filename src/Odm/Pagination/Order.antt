-- ===== src/Odm/Pagination/Order.antt =====
-- Lists in a strict order, as the answers to a sorted query: what comes later than an element.
use chandlery.Base.{
  ℕ, zero, suc, ◌≤◌, ◌<◌, ◌≡◌, refl, ap, Bool, true, false, ◌&&◌, List, [], ◌∷◌, ◌++◌, arith, All,
  filter, length, take, Bool-cases, inl, inr,
}

module _ {A : Type 0} (after : A → A → Bool) where
  -- `after d e`: e is later than d.
  abbrev pub IsOrdered : List A → Type 0
  IsOrdered [] = Unit
  IsOrdered (d ∷ ds) =
      (after d d ≡ false) × All (λ e. (after d e ≡ true) × (after e d ≡ false)) ds × IsOrdered ds

All-filter :
    {A : Type 0} (P : A → Type 0) (p : A → Bool) (ds : List A) → All P ds → All P (filter p ds)
All-filter P p [] h = tt
All-filter P p (d ∷ ds) h = elim (Bool-cases (p d)) [
  | inl e ↦ rw (e, All) (h.0, All-filter P p ds h.1)
  | inr e ↦ rw (e, All) (All-filter P p ds h.1)
]

module _ {A : Type 0} (after : A → A → Bool) where
  pub filter-IsOrdered :
      (p : A → Bool) (ds : List A) → IsOrdered after ds → IsOrdered after (filter p ds)
  filter-IsOrdered p [] h = tt
  filter-IsOrdered p (d ∷ ds) h = elim (Bool-cases (p d)) [
    | inl e ↦
        rw (e, IsOrdered)
          (
            h.0,
            All-filter (λ e. (after d e ≡ true) × (after e d ≡ false)) p ds h.1,
            filter-IsOrdered p ds h.2,
          )
    | inr e ↦ rw (e, IsOrdered) (filter-IsOrdered p ds h.2)
  ]

  filter-All :
      (d : A) (ds : List A)
      → All (λ e. (after d e ≡ true) × (after e d ≡ false)) ds
      → filter (after d) ds ≡ ds
  filter-All d [] h = refl
  filter-All d (e ∷ ds) h = ground (arith, h.0.0, filter-All d ds h.1)

  -- No element before d is later than it.
  pub filter-after :
      (pre : List A) (d : A) (ds : List A)
      → IsOrdered after (pre ++ d ∷ ds)
      → filter (after d) (pre ++ d ∷ ds) ≡ ds
  filter-after [] d ds h = ground (arith, h.0, filter-All d ds h.1)
  filter-after (x ∷ pre) d ds h = ground (arith, (member pre d ds h.1).1, filter-after pre d ds h.2)
    where
      member :
          (xs : List A) (y : A) (ys : List A) {x : A}
          → All (λ e. (after x e ≡ true) × (after e x ≡ false)) (xs ++ y ∷ ys)
          → (after x y ≡ true) × (after y x ≡ false)
      member [] y ys h = h.0
      member (z ∷ xs) y ys h = member xs y ys h.1

pub filter-filter {ℓ} :
    {A : Type ℓ} (p q : A → Bool) (ds : List A)
    → filter (λ d. p d && q d) ds ≡ filter q (filter p ds)
filter-filter p q [] = refl
filter-filter p q (d ∷ ds) = ground (arith, filter-filter p q ds)

-- A list longer than n > 0, cut behind its n-th element.
pub record Cut (A : Type 0) (n : ℕ) (l : List A) : Type 0 where
  pub front : List A
  pub last : A
  pub next : A
  pub back : List A
  pub shape : l ≡ front ++ last ∷ next ∷ back
  pub count : suc (length front) ≡ n

pub cut : {A : Type 0} (n : ℕ) (l : List A) → 0 < n → n < length l → Cut A n l
cut zero l p h = absurd (omega arith)
cut (suc n) [] p h = absurd (omega arith)
cut (suc zero) (x ∷ []) p h = absurd (omega arith)
cut (suc zero) (x ∷ y ∷ l) p h = record {
  front = [];
  last = x;
  next = y;
  back = l;
  shape = refl;
  count = refl;
}
cut (suc (suc n)) (x ∷ l) p h =
    let c = cut (suc n) l (omega arith) (omega arith) in
    record {
      front = x ∷ c.front;
      last = c.last;
      next = c.next;
      back = c.back;
      shape = ap (◌∷◌ x) c.shape;
      count = ap suc c.count;
    }

pub take_all : {A : Type 0} (n : ℕ) (l : List A) → length l ≤ n → take n l ≡ l
take_all zero [] h = refl
take_all zero (x ∷ l) h = absurd (omega arith)
take_all (suc n) [] h = refl
take_all (suc n) (x ∷ l) h = ap (◌∷◌ x) (take_all n l (omega arith))

pub take-cut :
    {A : Type 0} (xs : List A) (d e : A) (ys : List A)
    → take (suc (suc (length xs))) (xs ++ d ∷ e ∷ ys) ≡ xs ++ d ∷ e ∷ []
take-cut [] d e ys = refl
take-cut (x ∷ xs) d e ys = ap (◌∷◌ x) (take-cut xs d e ys)
