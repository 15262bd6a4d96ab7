-- ===== src/Env/Slices.antt =====
-- env/env.go: GetSlice reads back a list that was joined.
use chandlery.Base.{
  ◌⊎◌, inl, inr, sym, ℕ, ◌≡◌, refl, ap, ◌∙◌, String, Bool, true, false, not, ◌&&◌, some, List, [],
  ◌∷◌, ◌++◌, all, all-append, arith,
}
use chandlery.Base.Text.{Text, is_empty, eq, eq→≡}
use chandlery.Base.Text.Parts.{join}
use chandlery.Base.Text.Space.{
  is_space, is_empty-trim_space, trim_space, split_text, split_text-one, split-join, lacks,
}
use chandlery.Env.{Host, separator, trimmed_parts, sliced, get_slice}

-- A part that GetSlice leaves as it is: not empty, and without space around it.
abbrev pub is_trimmed : Text → Bool
is_trimmed p = not (is_empty p) && eq (trim_space p) p

trimmed_parts-is_trimmed : (ps : List Text) → all is_trimmed ps ≡ true → trimmed_parts ps ≡ ps
unfolding trimmed_parts
trimmed_parts-is_trimmed [] h = refl
trimmed_parts-is_trimmed (p ∷ ps) h =
    ground (arith, eq→≡ (trim_space p) p, trimmed_parts-is_trimmed ps)

is_empty-trim_space-join :
    (p : Text) (ps : List Text) (c : ℕ)
    → is_trimmed p ≡ true
    → is_empty (trim_space (join (p ∷ ps) c)) ≡ false
unfolding join
is_empty-trim_space-join p [] c h = ground (arith, eq→≡ (trim_space p) p)
is_empty-trim_space-join p (q ∷ ps) c h = ground (
  arith,
  eq→≡ (trim_space p) p,
  is_empty-trim_space p,
  is_empty-trim_space (p ++ c ∷ join (q ∷ ps) c),
  all-append is_space p (c ∷ join (q ∷ ps) c),
)

-- The separator asked for is this character, or none is and it is the comma.
abbrev pub Separates : ℕ → Text → Type 0
Separates c sep = (sep ≡ c ∷ []) ⊎ ((sep ≡ []) × (c ≡ b','))

Separates-separator : (c : ℕ) (sep : Text) → Separates c sep → separator sep ≡ c ∷ []
Separates-separator c sep (inl e) = ap separator e
Separates-separator c sep (inr (e, k)) = ap separator e ∙ ap (λ x. x ∷ []) (sym k)

-- GetSlice with a separator of one character, or with none and so a comma, reads back the parts that
-- were joined with it, when no part is empty, has space around it or contains the separator.
pub get_slice-join :
    (h : Host) (key : String) (sep : Text) (c : ℕ) (defaults : List (List Text)) (p : Text)
    (ps : List Text)
    → Separates c sep
    → h.look_up key ≡ some (join (p ∷ ps) c)
    → all is_trimmed (p ∷ ps) ≡ true
    → all (lacks c) (p ∷ ps) ≡ true
    → get_slice h key sep defaults ≡ p ∷ ps
unfolding get_slice
get_slice-join h key sep c defaults p ps one held trimmed apart =
    ap (sliced h sep defaults) held
    ∙ rw (is_empty-trim_space-join p ps c (ground arith)) (
        ap (λ s. trimmed_parts (split_text (join (p ∷ ps) c) s)) (Separates-separator c sep one)
        ∙ ap trimmed_parts (split_text-one (join (p ∷ ps) c) c ∙ split-join p ps c apart)
        ∙ trimmed_parts-is_trimmed (p ∷ ps) trimmed)
