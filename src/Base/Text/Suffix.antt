-- ===== src/Base/Text/Suffix.antt =====
-- Lemmas on prefixes and suffixes of texts.
use chandlery.Base.{
  ℕ, ◌≡◌, refl, ap, subst, append_assoc, append-nil, true, false, ◌||◌, List, [], ◌∷◌, ◌++◌, arith,
  any-append,
}
use chandlery.Base.Text.{Text, eq, has_prefix, has_prefix-append}
use chandlery.Base.Text.Parts.{slash, has_suffix, trim_suffix, member}

-- What ends in c is its trimmed text and c.
pub trim_suffix_append : (s : Text) (c : ℕ) → has_suffix s c ≡ true → trim_suffix s c ++ c ∷ [] ≡ s
unfolding has_suffix trim_suffix
trim_suffix_append [] c h = cc
trim_suffix_append (d ∷ []) c h = ground arith
trim_suffix_append (d ∷ e ∷ s) c h = ap (◌∷◌ d) (trim_suffix_append (e ∷ s) c h)

pub trim_suffix_none : (s : Text) (c : ℕ) → has_suffix s c ≡ false → trim_suffix s c ≡ s
unfolding has_suffix trim_suffix
trim_suffix_none [] c h = refl
trim_suffix_none (d ∷ []) c h = ground arith
trim_suffix_none (d ∷ e ∷ s) c h = ap (◌∷◌ d) (trim_suffix_none (e ∷ s) c h)

pub has_prefix-snoc :
    (s x : Text) (c : ℕ)
    → has_prefix (s ++ c ∷ []) (x ++ c ∷ []) ≡ (has_prefix s (x ++ c ∷ []) || eq x s)
unfolding has_prefix eq
has_prefix-snoc [] [] c = ground arith
has_prefix-snoc [] (d ∷ []) c = ground arith
has_prefix-snoc [] (d ∷ e ∷ x) c = ground arith
has_prefix-snoc (d ∷ s) [] c = ground arith
has_prefix-snoc (d ∷ s) (e ∷ x) c = ground (arith, has_prefix-snoc s x c)

pub member-append :
    (x : Text) (xs ys : List Text) → member x (xs ++ ys) ≡ (member x xs || member x ys)
member-append x xs ys = any-append (eq x) xs ys

pub has_suffix-snoc : (s : Text) (c : ℕ) → has_suffix (s ++ c ∷ []) c ≡ true
unfolding has_suffix
has_suffix-snoc [] c = ground arith
has_suffix-snoc (d ∷ []) c = ground arith
has_suffix-snoc (d ∷ e ∷ s) c = has_suffix-snoc (e ∷ s) c

pub trim_suffix-append :
    (s : Text) (y : ℕ) (t : Text) (c : ℕ) → trim_suffix (s ++ y ∷ t) c ≡ s ++ trim_suffix (y ∷ t) c
unfolding trim_suffix
trim_suffix-append [] y t c = refl
trim_suffix-append (d ∷ []) y t c = refl
trim_suffix-append (d ∷ e ∷ s) y t c = ap (◌∷◌ d) (trim_suffix-append (e ∷ s) y t c)

pub slash_after_prefix :
    (s t : Text)
    → has_suffix s slash ≡ true
    → has_prefix (trim_suffix (s ++ t) slash ++ slash ∷ []) s ≡ true
slash_after_prefix s [] h =
    rw (append-nil s, trim_suffix_append s slash h)
      (subst (λ t. has_prefix t s ≡ true) (append-nil s) (has_prefix-append s []))
slash_after_prefix s (y ∷ t) h =
    rw (trim_suffix-append s y t slash, append_assoc s (trim_suffix (y ∷ t) slash) (slash ∷ []))
      (has_prefix-append s (trim_suffix (y ∷ t) slash ++ slash ∷ []))

pub has_prefix_trans :
    (s t u : Text) → has_prefix s t ≡ true → has_prefix t u ≡ true → has_prefix s u ≡ true
unfolding has_prefix
has_prefix_trans s t [] h k = refl
has_prefix_trans s [] (e ∷ u) h k = cc
has_prefix_trans [] (d ∷ t) (e ∷ u) h k = cc
has_prefix_trans (c ∷ s) (d ∷ t) (e ∷ u) h k = ground (arith, has_prefix_trans s t u)

pub eq-append : (s x y : Text) → eq (s ++ x) (s ++ y) ≡ eq x y
unfolding eq
eq-append [] x y = refl
eq-append (c ∷ s) x y = ground (arith, eq-append s x y)
