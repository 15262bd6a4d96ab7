-- ===== src/Base/Text/Space.antt =====
-- strings.TrimSpace, and strings.Split with a separator of any length.
use chandlery.Base.{
  ℕ, zero, suc, ◌≡◌, refl, ap, ◌∙◌, Bool, true, false, not, ◌&&◌, ◌||◌, List, [], ◌∷◌, ◌++◌, ◌-◌,
  length, leb, ◌==◌, if◌then◌else◌, arith, all,
}
use chandlery.Base.Text.{Text, is_empty, has_prefix}
use chandlery.Base.Text.Parts.{prepend, split, join}

-- unicode.IsSpace
abbrev pub is_space : ℕ → Bool
is_space c =
    leb 9 c && leb c 13
    || c == 32
    || c == 133
    || c == 160
    || c == 5760
    || leb 8192 c && leb c 8202
    || c == 8232
    || c == 8233
    || c == 8239
    || c == 8287
    || c == 12288

abbrev trim_space_left : Text → Text
trim_space_left [] = []
trim_space_left (c ∷ s) = let rest = trim_space_left s in if is_space c then rest else c ∷ s

abbrev kept : ℕ → Text → Text
kept c [] = if is_space c then [] else c ∷ []
kept c (d ∷ s) = c ∷ d ∷ s

abbrev trim_space_right : Text → Text
trim_space_right [] = []
trim_space_right (c ∷ s) = kept c (trim_space_right s)

unfoldable pub trim_space : Text → Text
trim_space s = trim_space_right (trim_space_left s)

-- The separator is passed over by its length once it has been seen.
abbrev split_loop : Text → ℕ → Text → List Text
split_loop sep skip [] = [] ∷ []
split_loop sep (suc skip) (c ∷ s) = split_loop sep skip s
split_loop sep zero (c ∷ s) = elim (has_prefix (c ∷ s) sep) [
  | true ↦ [] ∷ split_loop sep (length sep - 1) s
  | false ↦ prepend c (split_loop sep zero s)
]

-- strings.Split(s, sep) for a separator that is not empty
unfoldable pub split_text : Text → Text → List Text
unfolding has_prefix
split_text s sep = split_loop sep 0 s

pub split_text-one : (s : Text) (c : ℕ) → split_text s (c ∷ []) ≡ split s c
unfolding split_text split has_prefix
split_text-one [] c = refl
split_text-one (d ∷ s) c = ground (arith, split_text-one s c)

-- The text has no such character.
abbrev pub lacks : ℕ → Text → Bool
lacks c s = all (λ d. not (d == c)) s

split-append : (s t : Text) (c : ℕ) → lacks c s ≡ true → split (s ++ c ∷ t) c ≡ s ∷ split t c
unfolding split
split-append [] t c h = ground arith
split-append (d ∷ s) t c h = ground (arith, split-append s t c)

split-lacks : (s : Text) (c : ℕ) → lacks c s ≡ true → split s c ≡ s ∷ []
unfolding split
split-lacks [] c h = refl
split-lacks (d ∷ s) c h = ground (arith, split-lacks s c)

-- Splitting what was joined gives the parts back.
pub split-join :
    (s : Text) (ss : List Text) (c : ℕ)
    → all (lacks c) (s ∷ ss) ≡ true
    → split (join (s ∷ ss) c) c ≡ s ∷ ss
unfolding join
split-join s [] c h = split-lacks s c (ground arith)
split-join s (t ∷ ss) c h =
    split-append s (join (t ∷ ss) c) c (ground arith)
    ∙ ap (◌∷◌ s) (split-join t ss c (ground arith))

all-trim_space_left : (s : Text) → all is_space (trim_space_left s) ≡ all is_space s
all-trim_space_left [] = refl
all-trim_space_left (c ∷ s) = ground (arith, all-trim_space_left s)

is_empty-kept : (c : ℕ) (s : Text) → is_empty (kept c s) ≡ (is_space c && is_empty s)
is_empty-kept c [] = ground arith
is_empty-kept c (d ∷ s) = ground arith

is_empty-trim_space_right : (s : Text) → is_empty (trim_space_right s) ≡ all is_space s
is_empty-trim_space_right [] = refl
is_empty-trim_space_right (c ∷ s) =
    is_empty-kept c (trim_space_right s) ∙ ap (λ b. is_space c && b) (is_empty-trim_space_right s)

-- Only spaces are trimmed to nothing.
pub is_empty-trim_space : (s : Text) → is_empty (trim_space s) ≡ all is_space s
unfolding trim_space
is_empty-trim_space s = is_empty-trim_space_right (trim_space_left s) ∙ all-trim_space_left s
