-- ===== src/Base/Assoc.antt =====
-- Go's maps with string keys, as association lists. The programs look keys up, write and delete;
-- what an iteration over a map would show of the order is used nowhere.
use Prim.Native.String.{String}
use mathlib.Core.Path.{◌≡◌, refl}
use mathlib.Core.List.{List, [], ◌∷◌}
use mathlib.Core.Option.{Option, none, some}
use native.Mathlib.Omega.{arith}
use text.Mathlib.Text.{◌==◌ as str_eq}
use text.Mathlib.TextEquality.{eq_iff}
use chandlery.Base.Tests.{if◌then◌else◌}

abbrev pub Assoc {ℓ} : Type ℓ → Type ℓ
Assoc V = List (String × V)

module _ {ℓ} {V : Type ℓ} where
  -- v, ok := m[k]
  unfoldable pub lookup : String → Assoc V → Option V
  lookup k [] = none
  lookup k ((j, v) ∷ m) = let rest = lookup k m in if str_eq j k then some v else rest

  -- delete(m, k)
  unfoldable pub remove : String → Assoc V → Assoc V
  remove k [] = []
  remove k ((j, v) ∷ m) = let rest = remove k m in if str_eq j k then rest else (j, v) ∷ rest

  -- m[k] = v
  unfoldable pub insert : String → V → Assoc V → Assoc V
  insert k v m = (k, v) ∷ remove k m

  pub lookup-remove :
      (k j : String) (m : Assoc V)
      → lookup j (remove k m) ≡ (if str_eq k j then none else lookup j m)
  unfolding lookup remove
  lookup-remove k j [] = ground arith
  lookup-remove k j ((i, v) ∷ m) =
      ground (arith, lookup-remove k j m, eq_iff i k, eq_iff i j, eq_iff k j)

  pub lookup-insert :
      (k j : String) (v : V) (m : Assoc V)
      → lookup j (insert k v m) ≡ (if str_eq k j then some v else lookup j m)
  unfolding lookup insert
  lookup-insert k j v m = ground (arith, lookup-remove k j m)

  pub lookup-empty : (k : String) → lookup k [] ≡ none
  unfolding lookup
  lookup-empty k = refl

pub ruleset assoc_laws = (lookup-remove, lookup-insert, lookup-empty)
