-- ===== src/Base/Text/Parts.antt =====
-- Go's `strings` on a text made of parts: suffixes, Trim, Split and Join with a separator of one
-- character, and the order of sort.Strings.
use chandlery.Base.{
  ℕ, zero, suc, ◌≡◌, refl, sym, ap, ◌∙◌, Bool, true, false, ◌&&◌, List, [], ◌∷◌, ◌++◌, map, any,
  take, length, ◌≤◌, ◌-◌, ◌==◌, if◌then◌else◌, arith,
}
use mathlib.Core.List.{map-map}
use chandlery.Base.Text.{Text, eq, has_prefix}

abbrev pub slash : ℕ
slash = 47

-- strings.HasSuffix(s, string(c))
unfoldable pub has_suffix : Text → ℕ → Bool
has_suffix [] c = false
has_suffix (d ∷ []) c = d == c
has_suffix (d ∷ e ∷ s) c = has_suffix (e ∷ s) c

-- strings.TrimSuffix(s, string(c))
unfoldable pub trim_suffix : Text → ℕ → Text
trim_suffix [] c = []
trim_suffix (d ∷ []) c = if d == c then [] else d ∷ []
trim_suffix (d ∷ e ∷ s) c = d ∷ trim_suffix (e ∷ s) c

-- strings.TrimLeft(s, string(c))
unfoldable pub trim_left : Text → ℕ → Text
trim_left [] c = []
trim_left (d ∷ s) c = let rest = trim_left s c in if d == c then rest else d ∷ s

abbrev kept : ℕ → ℕ → Text → Text
kept d c [] = if d == c then [] else d ∷ []
kept d c (e ∷ s) = d ∷ e ∷ s

-- strings.TrimRight(s, string(c))
unfoldable pub trim_right : Text → ℕ → Text
trim_right [] c = []
trim_right (d ∷ s) c = kept d c (trim_right s c)

-- strings.Trim(s, string(c))
abbrev pub trim : Text → ℕ → Text
trim s c = trim_right (trim_left s c) c

abbrev pub prepend : ℕ → List Text → List Text
prepend c [] = (c ∷ []) ∷ []
prepend c (s ∷ ss) = (c ∷ s) ∷ ss

-- strings.Split(s, string(c))
unfoldable pub split : Text → ℕ → List Text
split [] c = [] ∷ []
split (d ∷ s) c = let rest = split s c in if d == c then [] ∷ rest else prepend d rest

-- strings.Join(ss, string(c))
unfoldable pub join : List Text → ℕ → Text
join [] c = []
join (s ∷ []) c = s
join (s ∷ t ∷ ss) c = s ++ c ∷ join (t ∷ ss) c

-- The text is one of the list.
abbrev pub member : Text → List Text → Bool
member x xs = any (eq x) xs

-- The texts of segments[:i], segments[:i + 1] and so on, n of them, joined.
unfoldable pub joined_from : ℕ → ℕ → List Text → ℕ → List Text
joined_from zero i segments c = []
joined_from (suc n) i segments c = join (take i segments) c ∷ joined_from n (suc i) segments c

abbrev inits : List Text → ℕ → List Text
inits [] c = []
inits (s ∷ []) c = []
inits (s ∷ t ∷ ss) c = s ∷ map (λ u. s ++ c ∷ u) (inits (t ∷ ss) c)

joined_from-cons :
    (n i : ℕ) (s t : Text) (ss : List Text) (c : ℕ)
    → joined_from n (suc (suc i)) (s ∷ t ∷ ss) c
      ≡ map (λ u. s ++ c ∷ u) (joined_from n (suc i) (t ∷ ss) c)
unfolding joined_from join
joined_from-cons zero i s t ss c = refl
joined_from-cons (suc n) i s t ss c =
    ap (◌∷◌ (join (take (suc (suc i)) (s ∷ t ∷ ss)) c)) (joined_from-cons n (suc i) s t ss c)

joined_from-inits :
    (s : Text) (ss : List Text) (c : ℕ) → joined_from (length ss) 1 (s ∷ ss) c ≡ inits (s ∷ ss) c
unfolding joined_from join
joined_from-inits s [] c = refl
joined_from-inits s (t ∷ ss) c =
    ap (◌∷◌ s) (joined_from-cons (length ss) 0 s t ss c ∙ ap (map _) (joined_from-inits t ss c))

-- The texts of segments[:1], segments[:2] and so on, but not the whole, for segments :=
-- strings.Split(s, string(c)).
unfoldable pub proper_parts : Text → ℕ → List Text
unfolding split
proper_parts s c = joined_from (length (split s c) - 1) 1 (split s c) c

length-prepend : (d : ℕ) (ss : List Text) → 1 ≤ length (prepend d ss)
length-prepend d [] = omega arith
length-prepend d (s ∷ ss) = omega arith

length-split : (s : Text) (c : ℕ) → 1 ≤ length (split s c)
unfolding split
length-split [] c = omega arith
length-split (d ∷ s) c = ground (arith, length-prepend d (split s c))

member-map-cons-nil : (d : ℕ) (xs : List Text) → member [] (map (◌∷◌ d) xs) ≡ false
unfolding eq
member-map-cons-nil d [] = refl
member-map-cons-nil d (y ∷ xs) = member-map-cons-nil d xs

member-map-cons :
    (e d : ℕ) (x : Text) (xs : List Text)
    → member (e ∷ x) (map (◌∷◌ d) xs) ≡ (e == d && member x xs)
unfolding eq
member-map-cons e d x [] = ground arith
member-map-cons e d x (y ∷ xs) = ground (arith, member-map-cons e d x xs)

inits-prepend : (d : ℕ) (ss : List Text) (c : ℕ) → inits (prepend d ss) c ≡ map (◌∷◌ d) (inits ss c)
inits-prepend d [] c = refl
inits-prepend d (s ∷ []) c = refl
inits-prepend d (s ∷ t ∷ ss) c =
    ap (◌∷◌ (d ∷ s)) (sym (map-map (◌∷◌ d) (λ u. s ++ c ∷ u) (inits (t ∷ ss) c)))

inits-split :
    (ss : List Text) (c : ℕ) → 1 ≤ length ss → inits ([] ∷ ss) c ≡ [] ∷ map (◌∷◌ c) (inits ss c)
inits-split [] c h = absurd (omega arith)
inits-split (s ∷ ss) c h = refl

inits-step :
    (b : Bool) (d : ℕ) (ss : List Text) (c : ℕ)
    → 1 ≤ length ss
    → inits (if b then [] ∷ ss else prepend d ss) c
      ≡ (if b then [] ∷ map (◌∷◌ c) (inits ss c) else map (◌∷◌ d) (inits ss c))
inits-step true d ss c h = inits-split ss c h
inits-step false d ss c h = inits-prepend d ss c

member-step-nil :
    (b : Bool) (d c : ℕ) (xs : List Text)
    → member [] (if b then [] ∷ map (◌∷◌ c) xs else map (◌∷◌ d) xs) ≡ b
unfolding eq
member-step-nil true d c xs = refl
member-step-nil false d c xs = member-map-cons-nil d xs

member-step-cons :
    (b : Bool) (e d c : ℕ) (x : Text) (xs : List Text)
    → (d == c) ≡ b
    → member (e ∷ x) (if b then [] ∷ map (◌∷◌ c) xs else map (◌∷◌ d) xs) ≡ (d == e && member x xs)
unfolding eq
member-step-cons true e d c x xs h = ground (arith, member-map-cons e c x xs)
member-step-cons false e d c x xs h = ground (arith, member-map-cons e d x xs)

member-inits : (x s : Text) (c : ℕ) → member x (inits (split s c) c) ≡ has_prefix s (x ++ c ∷ [])
unfolding split has_prefix
member-inits [] [] c = refl
member-inits (e ∷ x) [] c = refl
member-inits [] (d ∷ s) c =
    ap (member []) (inits-step (d == c) d (split s c) c (length-split s c))
    ∙ member-step-nil (d == c) d c (inits (split s c) c)
    ∙ ground arith
member-inits (e ∷ x) (d ∷ s) c =
    ap (member (e ∷ x)) (inits-step (d == c) d (split s c) c (length-split s c))
    ∙ member-step-cons (d == c) e d c x (inits (split s c) c) refl
    ∙ ap (λ b. d == e && b) (member-inits x s c)

proper_parts-inits : (s : Text) (c : ℕ) → proper_parts s c ≡ inits (split s c) c
unfolding proper_parts
proper_parts-inits s c = from (split s c) (length-split s c)
  where
    from : (ss : List Text) → 1 ≤ length ss → joined_from (length ss - 1) 1 ss c ≡ inits ss c
    from [] h = absurd (omega arith)
    from (t ∷ ss) h = ap (λ n. joined_from n 1 (t ∷ ss) c) (omega arith) ∙ joined_from-inits t ss c

-- They are the texts that the separator follows in s.
pub member-proper_parts :
    (x s : Text) (c : ℕ) → member x (proper_parts s c) ≡ has_prefix s (x ++ c ∷ [])
member-proper_parts x s c = ap (member x) (proper_parts-inits s c) ∙ member-inits x s c
