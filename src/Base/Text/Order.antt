-- ===== src/Base/Text/Order.antt =====
-- sort.Strings: the order of Go's strings, and a sort by it.
use chandlery.Base.{
  ◌≡◌, refl, Bool, true, false, not, ◌&&◌, ◌||◌, List, [], ◌∷◌, ltb, ◌==◌, if◌then◌else◌, arith,
}
use chandlery.Base.Text.{Text, eq}
use chandlery.Base.Text.Parts.{member}

-- a < b
unfoldable pub before : Text → Text → Bool
before [] [] = false
before [] (d ∷ t) = true
before (c ∷ s) [] = false
before (c ∷ s) (d ∷ t) = ltb c d || (c == d && before s t)

abbrev insert : Text → List Text → List Text
insert x [] = x ∷ []
insert x (y ∷ ys) = let rest = insert x ys in if before y x then y ∷ rest else x ∷ y ∷ ys

-- sort.Strings(xs)
unfoldable pub sort : List Text → List Text
sort [] = []
sort (x ∷ xs) = insert x (sort xs)

before-or-eq : (s t : Text) → before s t ≡ false → eq t s ≡ false → before t s ≡ true
unfolding before eq
before-or-eq [] [] h k = cc
before-or-eq [] (d ∷ t) h k = cc
before-or-eq (c ∷ s) [] h k = refl
before-or-eq (c ∷ s) (d ∷ t) h k = ground (arith, before-or-eq s t)

member-insert : (x y : Text) (ys : List Text) → member x (insert y ys) ≡ (eq x y || member x ys)
member-insert x y [] = refl
member-insert x y (z ∷ ys) = ground (arith, member-insert x y ys)

-- Sorting neither adds nor loses a text.
pub member-sort : (x : Text) (xs : List Text) → member x (sort xs) ≡ member x xs
unfolding sort
member-sort x [] = refl
member-sort x (y ∷ xs) = ground (arith, member-insert x y (sort xs), member-sort x xs)

-- Each text is before all that follow, so that no text comes twice.
abbrev pub ascending : List Text → Bool
ascending [] = true
ascending (x ∷ []) = true
ascending (x ∷ y ∷ ys) = before x y && ascending (y ∷ ys)

-- No text comes twice.
abbrev pub distinct : List Text → Bool
distinct [] = true
distinct (x ∷ xs) = not (member x xs) && distinct xs

ascending-insert_cons :
    (x y : Text) (ys : List Text)
    → before y x ≡ true
    → ascending (y ∷ ys) ≡ true
    → ascending (insert x ys) ≡ true
    → ascending (y ∷ insert x ys) ≡ true
ascending-insert_cons x y [] h k l = ground arith
ascending-insert_cons x y (z ∷ ys) h k l = ground arith

ascending-insert :
    (x : Text) (ys : List Text)
    → ascending ys ≡ true
    → member x ys ≡ false
    → ascending (insert x ys) ≡ true
ascending-insert x [] h k = refl
ascending-insert x (y ∷ []) h k = ground (arith, before-or-eq y x, before-or-eq x y)
ascending-insert x (y ∷ z ∷ ys) h k = ground (arith, ascending-insert x (z ∷ ys), before-or-eq y x)

pub ascending-sort : (xs : List Text) → distinct xs ≡ true → ascending (sort xs) ≡ true
unfolding sort
ascending-sort [] h = refl
ascending-sort (x ∷ xs) h =
    ground (arith, ascending-sort xs, ascending-insert x (sort xs), member-sort x xs)
