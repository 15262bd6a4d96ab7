-- ===== src/Odm/Filter.antt =====
-- odm/filter.go: a Where's arguments compiled into a filter, and fragments joined into one.
use chandlery.Base.{String, ◌||◌, Option, none, some, List, [], ◌∷◌, str_eq, if◌then◌else◌, length}
use chandlery.Odm.Value.{Value, text, operator, array, dict, end, values, single}
use chandlery.Odm.Errors.{
  invalid_query, operator_type, operator_unknown, argument_count, Result, ok, err,
}

-- The operators other than equality, with MongoDB's names.
unfoldable pub comparison_operators : String → Option String
comparison_operators op =
    if str_eq op "!="
    then some "$ne"
    else if str_eq op ">"
    then some "$gt"
    else if str_eq op ">="
    then some "$gte"
    else if str_eq op "<"
    then some "$lt"
    else if str_eq op "<="
    then some "$lte"
    else none

unfoldable pub operator_of : Value → Option String
operator_of (operator s) = some s
operator_of (text s) = some s
operator_of _ = none

unfoldable pub operator_filter : String → String → String → Value → Result Value
operator_filter call f op v =
    if str_eq op "=" || str_eq op "==" then ok (single f v) else elim (comparison_operators op) [
      | some mongo ↦ ok (single f (single mongo v))
      | none ↦ err (invalid_query (operator_unknown call op))
    ]

abbrev pub with_operator : String → String → Value → Option String → Result Value
with_operator call f v none = err (invalid_query (operator_type call))
with_operator call f v (some o) = operator_filter call f o v

unfoldable pub comparison : String → String → List Value → Result Value
comparison call f (v ∷ []) = ok (single f v)
comparison call f (op ∷ v ∷ []) = with_operator call f v (operator_of op)
comparison call f args = err (invalid_query (argument_count call (length args)))

unfoldable pub build_filter : List Value → Value
build_filter [] = dict end
build_filter (f ∷ []) = f
build_filter (f ∷ g ∷ fs) = single "$and" (array (values (f ∷ g ∷ fs)))
