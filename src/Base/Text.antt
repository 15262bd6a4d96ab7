-- ===== src/Base/Text.antt =====
-- Texts that the programs walk: a list of code points, with the functions of Go's `strings` that
-- they use.
pub mod Parts
pub mod Order
pub mod Space
pub mod Suffix
use Prim.Native.Nat.{ℕ}
use Prim.Native.Char.{code}
use Prim.Native.String.{String}
use mathlib.Core.Path.{◌≡◌, refl}
use mathlib.Core.Bool.{Bool, true, false, ◌&&◌, ◌||◌}
use mathlib.Core.List.{List, [], ◌∷◌, ◌++◌}
use native.Mathlib.Omega.{arith}
use chandlery.Base.Tests.{◌==◌, if◌then◌else◌}

abbrev pub Text : Type 0
Text = List ℕ

-- The code points of a literal.
abbrev pub codes : String → Text
codes String.[] = []
codes (String.◌∷◌ c s) = code c ∷ codes s

-- s == ""
abbrev pub is_empty : Text → Bool
is_empty [] = true
is_empty (c ∷ s) = false

-- a == b
unfoldable pub eq : Text → Text → Bool
eq [] [] = true
eq [] (d ∷ t) = false
eq (c ∷ s) [] = false
eq (c ∷ s) (d ∷ t) = c == d && eq s t

pub eq_refl : (s : Text) → eq s s ≡ true
unfolding eq
eq_refl [] = refl
eq_refl (c ∷ s) = ground (arith, eq_refl s)

pub eq→≡ : (s t : Text) → eq s t ≡ true → s ≡ t
unfolding eq
eq→≡ [] [] h = refl
eq→≡ [] (d ∷ t) h = cc
eq→≡ (c ∷ s) [] h = cc
eq→≡ (c ∷ s) (d ∷ t) h = ground (arith, eq→≡ s t)

-- strings.HasPrefix(s, p)
unfoldable pub has_prefix : Text → Text → Bool
has_prefix s [] = true
has_prefix [] (d ∷ p) = false
has_prefix (c ∷ s) (d ∷ p) = c == d && has_prefix s p

abbrev drop_prefix : Text → Text → Text
drop_prefix s [] = s
drop_prefix [] (d ∷ p) = []
drop_prefix (c ∷ s) (d ∷ p) = drop_prefix s p

-- strings.TrimPrefix(s, p)
unfoldable pub trim_prefix : Text → Text → Text
unfolding has_prefix
trim_prefix s p = if has_prefix s p then drop_prefix s p else s

pub has_prefix-append : (p s : Text) → has_prefix (p ++ s) p ≡ true
unfolding has_prefix
has_prefix-append [] s = refl
has_prefix-append (c ∷ p) s = ground (arith, has_prefix-append p s)

drop_prefix-append : (p s : Text) → drop_prefix (p ++ s) p ≡ s
drop_prefix-append [] s = refl
drop_prefix-append (c ∷ p) s = drop_prefix-append p s

pub trim_prefix-append : (p s : Text) → trim_prefix (p ++ s) p ≡ s
unfolding trim_prefix
trim_prefix-append p s = ground (arith, has_prefix-append p s, drop_prefix-append p s)

-- strings.Contains(s, p)
unfoldable pub contains : Text → Text → Bool
contains [] p = has_prefix [] p
contains (c ∷ s) p = has_prefix (c ∷ s) p || contains s p
