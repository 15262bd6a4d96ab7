-- ===== src/Odm/Query/Projection/Others.antt =====
-- odm/query.go: Select and Exclude change the projection, or record an error, and nothing else.
use chandlery.Base.{
  ℕ, String, Option, none, some, List, [], ◌∷◌, ◌==◌, str_eq, Bool-cases, inl, inr,
}
use chandlery.Base.Assoc.{lookup}
use chandlery.Odm.Errors.{Error, Result, ok, err}
use chandlery.Odm.Query.{
  Query, Projection, ProjectionMode, projection_include, projection_exclude, with_error,
}
use chandlery.Odm.Query.Projection.{
  is_exclude, is_include, add_entry, with_projection, or_else, select_step, select_loop, select,
  exclude_step, exclude_loop, exclude,
}

-- A property that a change of the projection keeps, and so does an error.
module _ (P : Query → Type 0)
    (projected : (q : Query) (p : Projection) (m : ProjectionMode)
      → P q
      → P (record q { projection = p; projection_mode = m }))
    (failed : (q : Query) (e : Error) → P q → P (with_error q e)) where
  abbrev Holds : Result Query → Type 0
  Holds (ok q) = P q
  Holds (err e) = Unit

  add_entry-keeps :
      (q : Query) (f : String) (v : ℕ) (mode : ProjectionMode) (o : Option ℕ)
      → P q
      → Holds (add_entry q f v mode o)
  add_entry-keeps q f v mode none h = projected q _ mode h
  add_entry-keeps q f v mode (some w) h = elim (Bool-cases (w == v)) [
    | inl s ↦ rw (s, Holds) (projected q q.projection mode h)
    | inr s ↦ rw (s, Holds) tt
  ]

  select_step-keeps : (q : Query) (f : String) → P q → Holds (select_step q f)
  unfolding select_step with_projection
  select_step-keeps q f h = elim (Bool-cases (is_exclude q.projection_mode)) [
    | inl e ↦ rw (e, Holds) tt
    | inr e ↦ rw (e, Holds) (add_entry-keeps q f 1 projection_include (lookup f q.projection) h)
  ]

  exclude_step-keeps : (q : Query) (f : String) → P q → Holds (exclude_step q f)
  unfolding exclude_step with_projection
  exclude_step-keeps q f h = elim (Bool-cases (str_eq f "_id")) [
    | inl e ↦ rw (e, Holds) (add_entry-keeps q f 0 q.projection_mode (lookup f q.projection) h)
    | inr e ↦ elim (Bool-cases (is_include q.projection_mode)) [
      | inl i ↦ rw (e, i, Holds) tt
      | inr i ↦
          rw (e, i, Holds) (add_entry-keeps q f 0 projection_exclude (lookup f q.projection) h)
    ]
  ]

  or_else-keeps :
      (q : Query) (r : Result Query) (rest : Query → Query)
      → P q
      → Holds r
      → ((n : Query) → P n → P (rest n))
      → P (or_else q r rest)
  or_else-keeps q (ok n) rest h l k = k n l
  or_else-keeps q (err e) rest h l k = failed q e h

  select_loop-keeps : (q next : Query) (fs : List String) → P q → P next → P (select_loop q next fs)
  unfolding select_loop
  select_loop-keeps q next [] h l = l
  select_loop-keeps q next (f ∷ fs) h l =
      or_else-keeps q (select_step next f) (λ n. select_loop q n fs) h (select_step-keeps next f l)
        (λ n k. select_loop-keeps q n fs h k)

  exclude_loop-keeps :
      (q next : Query) (fs : List String) → P q → P next → P (exclude_loop q next fs)
  unfolding exclude_loop
  exclude_loop-keeps q next [] h l = l
  exclude_loop-keeps q next (f ∷ fs) h l =
      or_else-keeps q (exclude_step next f) (λ n. exclude_loop q n fs) h
        (exclude_step-keeps next f l) (λ n k. exclude_loop-keeps q n fs h k)

  pub select-keeps : (q : Query) (fs : List String) → P q → P (select q fs)
  unfolding select
  select-keeps q [] h = failed q _ h
  select-keeps q (f ∷ fs) h = select_loop-keeps q q (f ∷ fs) h h

  pub exclude-keeps : (q : Query) (fs : List String) → P q → P (exclude q fs)
  unfolding exclude
  exclude-keeps q [] h = failed q _ h
  exclude-keeps q (f ∷ fs) h = exclude_loop-keeps q q (f ∷ fs) h h
