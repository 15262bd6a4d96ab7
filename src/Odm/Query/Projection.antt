-- ===== src/Odm/Query/Projection.antt =====
-- odm/query.go: Select and Exclude.
pub mod Legal
pub mod Others
use chandlery.Base.{
  ℕ, String, Bool, true, false, Option, none, some, List, [], ◌∷◌, ◌++◌, ◌==◌, str_eq,
  if◌then◌else◌,
}
use chandlery.Base.Assoc.{lookup}
use chandlery.Odm.Errors.{
  invalid_query, no_fields, mixed_projection, already_projected, Result, ok, err,
}
use chandlery.Odm.Query.{
  Query, ProjectionMode, projection_none, projection_include, projection_exclude, with_error,
  invalid,
}

abbrev pub is_exclude : ProjectionMode → Bool
is_exclude projection_exclude = true
is_exclude _ = false

abbrev pub is_include : ProjectionMode → Bool
is_include projection_include = true
is_include _ = false

-- The rest of withProjection, given what the field is projected to already.
abbrev pub add_entry : Query → String → ℕ → ProjectionMode → Option ℕ → Result Query
add_entry q f value mode (some v) =
    if v == value
    then ok (record q { projection_mode = mode })
    else err (invalid_query (already_projected f))
add_entry q f value mode none =
    ok (record q { projection_mode = mode; projection = q.projection ++ (f, value) ∷ [] })

-- An exact repeat adds nothing, and a contradiction is an error.
unfoldable pub with_projection : Query → String → ℕ → ProjectionMode → Result Query
with_projection q f value mode = add_entry q f value mode (lookup f q.projection)

-- An error is recorded on the query before the call.
abbrev pub or_else : Query → Result Query → (Query → Query) → Query
or_else q (err e) rest = with_error q e
or_else q (ok next) rest = rest next

unfoldable pub select_step : Query → String → Result Query
select_step next f =
    if is_exclude next.projection_mode
    then err (invalid_query (mixed_projection f))
    else with_projection next f 1 projection_include

unfoldable pub select_loop : Query → Query → List String → Query
select_loop q next [] = next
select_loop q next (f ∷ fs) = or_else q (select_step next f) (λ n. select_loop q n fs)

unfoldable pub select : Query → List String → Query
select q [] = invalid q no_fields
select q (f ∷ fs) = select_loop q q (f ∷ fs)

-- Excluding _id keeps the mode; any other field makes it an exclusion.
unfoldable pub exclude_step : Query → String → Result Query
exclude_step next f =
    if str_eq f "_id"
    then with_projection next f 0 next.projection_mode
    else if is_include next.projection_mode
    then err (invalid_query (mixed_projection f))
    else with_projection next f 0 projection_exclude

unfoldable pub exclude_loop : Query → Query → List String → Query
exclude_loop q next [] = next
exclude_loop q next (f ∷ fs) = or_else q (exclude_step next f) (λ n. exclude_loop q n fs)

unfoldable pub exclude : Query → List String → Query
exclude q [] = invalid q no_fields
exclude q (f ∷ fs) = exclude_loop q q (f ∷ fs)
