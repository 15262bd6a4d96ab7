-- ===== src/Env.antt =====
-- env/env.go: typed reads of the environment. What os.LookupEnv gives is a parameter, as are the
-- readings of package unicode and strconv that are not written out: ToLower beyond ASCII, and
-- ParseFloat. A text is a list of code points.
pub mod Slices
use chandlery.Base.{
  ℕ, String, Bool, true, false, not, ◌&&◌, ◌||◌, Option, none, some, List, [], ◌∷◌, map, any, ltb,
  leb, ◌+◌, if◌then◌else◌,
}
use chandlery.Base.Int.{ℤ, pos}
use chandlery.Base.Text.{Text, is_empty, codes, eq}
use chandlery.Base.Text.Space.{trim_space, split_text}
use chandlery.Cache.Numbers.{parse_int}

pub record Host : Type 1 where
  pub look_up : String → Option Text
  -- unicode.ToLower of a code point that is not ASCII
  pub lower_rune : ℕ → ℕ
  pub Float : Type 0
  pub zero_float : Float
  -- strconv.ParseFloat(s, 64)
  pub parse_float : Text → Option Float

-- first: the default given, or the zero value.
abbrev pub first {ℓ} : {A : Type ℓ} → A → List A → A
first zero [] = zero
first zero (x ∷ xs) = x

-- strings.Split with "," when no separator is given.
abbrev pub separator : Text → Text
separator [] = codes ","
separator (c ∷ s) = c ∷ s

unfoldable pub trimmed_parts : List Text → List Text
trimmed_parts [] = []
trimmed_parts (p ∷ ps) =
    let rest = trimmed_parts ps in if is_empty (trim_space p) then rest else trim_space p ∷ rest

module _ (h : Host) where
  abbrev pub lower : ℕ → ℕ
  lower c = if leb 65 c && leb c 90 then c + 32 else if ltb c 128 then c else h.lower_rune c

  -- strings.ToLower(s)
  abbrev pub to_lower : Text → Text
  to_lower [] = []
  to_lower (c ∷ s) = lower c ∷ to_lower s

  -- The case of a switch over literals.
  abbrev pub one_of : Text → List String → Bool
  one_of s words = any (λ w. eq s (codes w)) words

  unfoldable pub cast_string : Text → Text
  cast_string value =
      let low = to_lower value in
      if one_of low ("true" ∷ [])
      then codes "true"
      else if one_of low ("false" ∷ [])
      then codes "false"
      else if one_of low ("null" ∷ "empty" ∷ [])
      then []
      else value

  unfoldable pub get : String → List Text → Text
  get key defaults = elim (h.look_up key) [
    | none ↦ first [] defaults
    | some value ↦ cast_string value
  ]

  unfoldable pub has : String → Bool
  has key = elim (h.look_up key) [ none ↦ false | some value ↦ true ]

  -- `none` is the panic.
  unfoldable pub must_get : String → Option Text
  must_get key = elim (h.look_up key) [ none ↦ none | some value ↦ some (cast_string value) ]

  unfoldable pub get_string : String → List Text → Text
  get_string key defaults = get key defaults

  abbrev pub parsed {ℓ} : {A : Type ℓ} → A → List A → (Text → Option A) → Option Text → A
  parsed zero defaults parse none = first zero defaults
  parsed zero defaults parse (some value) = elim (parse (trim_space value)) [
    | none ↦ first zero defaults
    | some x ↦ x
  ]

  unfoldable pub get_int : String → List ℤ → ℤ
  get_int key defaults = parsed (pos 0) defaults parse_int (h.look_up key)

  unfoldable pub get_float : String → List h.Float → h.Float
  get_float key defaults = parsed h.zero_float defaults h.parse_float (h.look_up key)

  -- The switch of GetBool.
  abbrev pub parse_bool : Text → Option Bool
  parse_bool s =
      let low = to_lower s in
      if one_of low ("true" ∷ "1" ∷ "yes" ∷ "on" ∷ [])
      then some true
      else if one_of low ("false" ∷ "0" ∷ "no" ∷ "off" ∷ [])
      then some false
      else none

  unfoldable pub get_bool : String → List Bool → Bool
  get_bool key defaults = parsed false defaults parse_bool (h.look_up key)

  abbrev pub sliced : Text → List (List Text) → Option Text → List Text
  sliced sep defaults none = first [] defaults
  sliced sep defaults (some value) =
      if is_empty (trim_space value)
      then first [] defaults
      else trimmed_parts (split_text value (separator sep))

  unfoldable pub get_slice : String → Text → List (List Text) → List Text
  get_slice key sep defaults = sliced sep defaults (h.look_up key)

  unfoldable pub environment : Text
  environment = get "APP_ENV" (codes "production" ∷ [])

  unfoldable pub is : List Text → Bool
  is names = any (λ name. eq (to_lower name) (to_lower environment)) names

  unfoldable pub is_production : Bool
  is_production = is (codes "production" ∷ [])

  unfoldable pub is_local : Bool
  is_local = is (codes "local" ∷ [])

  unfoldable pub is_testing : Bool
  is_testing = is (codes "testing" ∷ [])
