-- ===== src/Odm/Query/Projection/Legal.antt =====
-- odm/query.go: the projection of a query names no field twice, and does not mix inclusions with
-- exclusions, but for an excluded _id.
use chandlery.Base.{
  ℕ, String, ◌≡◌, refl, ◌∙◌, Bool, true, false, ◌&&◌, ◌||◌, Option, none, some, List, [], ◌∷◌, ◌++◌,
  ◌==◌, arith, str_eq, str_eq_iff, all, all-append, Bool-cases, inl, inr,
}
use chandlery.Base.Assoc.{lookup}
use chandlery.Odm.Errors.{Result, ok, err}
use chandlery.Odm.Query.{
  Query, Projection, ProjectionMode, projection_none, projection_include, projection_exclude,
}
use chandlery.Odm.Query.Projection.{
  is_exclude, is_include, add_entry, with_projection, or_else, select_step, select_loop, select,
  exclude_step, exclude_loop, exclude,
}

-- Inclusions are 1 and exclusions 0; they are not mixed, but for an excluded _id.
abbrev pub is_entry : ProjectionMode → String × ℕ → Bool
is_entry projection_include (f, v) = v == 1 || str_eq f "_id" && v == 0
is_entry projection_exclude (f, v) = v == 0
is_entry projection_none (f, v) = str_eq f "_id" && v == 0

-- No field stands in the document twice.
abbrev pub IsKeyed : Projection → Type 0
IsKeyed [] = Unit
IsKeyed ((f, v) ∷ p) = (lookup f p ≡ none) × IsKeyed p

pub record IsLegal (mode : ProjectionMode) (p : Projection) : Type 0 where
  pub keyed : IsKeyed p
  pub entries : all (is_entry mode) p ≡ true

abbrev pub Legal : Query → Type 0
Legal q = IsLegal q.projection_mode q.projection

abbrev LegalResult : Result Query → Type 0
LegalResult (ok q) = Legal q
LegalResult (err e) = Unit

lookup-snoc :
    (f : String) (p : Projection) (g : String) (v : ℕ)
    → lookup f p ≡ none
    → str_eq g f ≡ false
    → lookup f (p ++ (g, v) ∷ []) ≡ none
unfolding lookup
lookup-snoc f [] g v h e = ground (arith, e)
lookup-snoc f ((k, w) ∷ p) g v h e = ground (arith, lookup-snoc f p g v, e)

snoc-IsKeyed :
    (p : Projection) (g : String) (v : ℕ)
    → IsKeyed p
    → lookup g p ≡ none
    → IsKeyed (p ++ (g, v) ∷ [])
unfolding lookup
snoc-IsKeyed [] g v h e = (refl, tt)
snoc-IsKeyed ((k, w) ∷ p) g v h e =
    ground (arith, snoc-IsKeyed p g v h.1, lookup-snoc k p g v h.0, str_eq_iff k g, str_eq_iff g k)

-- The mode goes from none to another, or stays.
abbrev becomes : ProjectionMode → ProjectionMode → Bool
becomes projection_none m = true
becomes projection_include m = is_include m
becomes projection_exclude m = is_exclude m

entries-becomes :
    (m m' : ProjectionMode) (p : Projection)
    → becomes m m' ≡ true
    → all (is_entry m) p ≡ true
    → all (is_entry m') p ≡ true
entries-becomes m m' [] b h = refl
entries-becomes projection_none projection_none (e ∷ p) b h = h
entries-becomes projection_none projection_include (e ∷ p) b h =
    ground (arith, entries-becomes projection_none projection_include p refl)
entries-becomes projection_none projection_exclude (e ∷ p) b h =
    ground (arith, entries-becomes projection_none projection_exclude p refl)
entries-becomes projection_include projection_include (e ∷ p) b h = h
entries-becomes projection_include projection_none (e ∷ p) b h = cc
entries-becomes projection_include projection_exclude (e ∷ p) b h = cc
entries-becomes projection_exclude projection_exclude (e ∷ p) b h = h
entries-becomes projection_exclude projection_include (e ∷ p) b h = cc
entries-becomes projection_exclude projection_none (e ∷ p) b h = cc

add_entry-Legal :
    (q : Query) (f : String) (v : ℕ) (mode : ProjectionMode) (o : Option ℕ)
    → lookup f q.projection ≡ o
    → becomes q.projection_mode mode ≡ true
    → is_entry mode (f, v) ≡ true
    → Legal q
    → LegalResult (add_entry q f v mode o)
add_entry-Legal q f v mode none l b e h = record {
  keyed = snoc-IsKeyed q.projection f v h.keyed l;
  entries =
      all-append (is_entry mode) q.projection ((f, v) ∷ [])
      ∙ ground (arith, entries-becomes q.projection_mode mode q.projection b h.entries, e);
}
add_entry-Legal q f v mode (some w) l b e h = elim (Bool-cases (w == v)) [
  | inl same ↦
      rw (same, LegalResult)
        (record {
          keyed = h.keyed;
          entries = entries-becomes q.projection_mode mode q.projection b h.entries;
        })
  | inr other ↦ rw (other, LegalResult) tt
]

becomes_self : (m : ProjectionMode) → becomes m m ≡ true
becomes_self projection_none = refl
becomes_self projection_include = refl
becomes_self projection_exclude = refl

becomes-include : (m : ProjectionMode) → is_exclude m ≡ false → becomes m projection_include ≡ true
becomes-include projection_none h = refl
becomes-include projection_include h = refl
becomes-include projection_exclude h = cc

becomes-exclude : (m : ProjectionMode) → is_include m ≡ false → becomes m projection_exclude ≡ true
becomes-exclude projection_none h = refl
becomes-exclude projection_include h = cc
becomes-exclude projection_exclude h = refl

excluded_id : (m : ProjectionMode) (f : String) → str_eq f "_id" ≡ true → is_entry m (f, 0) ≡ true
excluded_id projection_none f h = ground (arith, h)
excluded_id projection_include f h = ground (arith, h)
excluded_id projection_exclude f h = ground (arith, h)

select_step-Legal : (q : Query) (f : String) → Legal q → LegalResult (select_step q f)
unfolding select_step with_projection
select_step-Legal q f h = elim (Bool-cases (is_exclude q.projection_mode)) [
  | inl e ↦ rw (e, LegalResult) tt
  | inr e ↦
      rw (e, LegalResult)
        (add_entry-Legal q f 1 projection_include (lookup f q.projection) refl
          (becomes-include q.projection_mode e) refl h)
]

exclude_step-Legal : (q : Query) (f : String) → Legal q → LegalResult (exclude_step q f)
unfolding exclude_step with_projection
exclude_step-Legal q f h = elim (Bool-cases (str_eq f "_id")) [
  | inl e ↦
      rw (e, LegalResult)
        (add_entry-Legal q f 0 q.projection_mode (lookup f q.projection) refl
          (becomes_self q.projection_mode) (excluded_id q.projection_mode f e) h)
  | inr e ↦ elim (Bool-cases (is_include q.projection_mode)) [
    | inl i ↦ rw (e, i, LegalResult) tt
    | inr i ↦
        rw (e, i, LegalResult)
          (add_entry-Legal q f 0 projection_exclude (lookup f q.projection) refl
            (becomes-exclude q.projection_mode i) refl h)
  ]
]

or_else-Legal :
    (q : Query) (r : Result Query) (rest : Query → Query)
    → Legal q
    → LegalResult r
    → ((n : Query) → Legal n → Legal (rest n))
    → Legal (or_else q r rest)
or_else-Legal q (ok n) rest h l k = k n l
or_else-Legal q (err e) rest h l k = h

select_loop-Legal :
    (q next : Query) (fs : List String) → Legal q → Legal next → Legal (select_loop q next fs)
unfolding select_loop
select_loop-Legal q next [] h l = l
select_loop-Legal q next (f ∷ fs) h l =
    or_else-Legal q (select_step next f) (λ n. select_loop q n fs) h (select_step-Legal next f l)
      (λ n k. select_loop-Legal q n fs h k)

exclude_loop-Legal :
    (q next : Query) (fs : List String) → Legal q → Legal next → Legal (exclude_loop q next fs)
unfolding exclude_loop
exclude_loop-Legal q next [] h l = l
exclude_loop-Legal q next (f ∷ fs) h l =
    or_else-Legal q (exclude_step next f) (λ n. exclude_loop q n fs) h (exclude_step-Legal next f l)
      (λ n k. exclude_loop-Legal q n fs h k)

pub select-Legal : (q : Query) (fs : List String) → Legal q → Legal (select q fs)
unfolding select
select-Legal q [] h = h
select-Legal q (f ∷ fs) h = select_loop-Legal q q (f ∷ fs) h h

pub exclude-Legal : (q : Query) (fs : List String) → Legal q → Legal (exclude q fs)
unfolding exclude
exclude-Legal q [] h = h
exclude-Legal q (f ∷ fs) h = exclude_loop-Legal q q (f ∷ fs) h h
