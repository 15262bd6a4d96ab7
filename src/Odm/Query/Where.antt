-- ===== src/Odm/Query/Where.antt =====
-- odm/query.go: the conditions.
use chandlery.Base.{String, Option, none, some, List, [], ◌∷◌, if◌then◌else◌}
use chandlery.Odm.Value.{Value, null, array, dict, field, end, values, single, is_nil, bson_array}
use chandlery.Odm.Errors.{not_a_list, nil_filter, Result, ok, err}
use chandlery.Odm.Filter.{comparison, build_filter}
use chandlery.Odm.Query.{Query, with_filter, with_error, invalid}

abbrev pub add_fragment : Query → Result Value → Query
add_fragment q (err e) = with_error q e
add_fragment q (ok fragment) = with_filter q fragment

unfoldable pub filter_where : Query → String → List Value → Query
filter_where q f args = add_fragment q (comparison "Where" f args)

-- With nothing to join, an OrWhere is a Where; `fs` are the filters of the query.
abbrev pub or_fragment : Query → List Value → Value → Query
or_fragment q [] fragment = with_filter q fragment
or_fragment q (f ∷ fs) fragment = record q {
  filters = single "$or" (array (values (build_filter (f ∷ fs) ∷ fragment ∷ []))) ∷ [];
}

abbrev pub add_alternative : Query → Result Value → Query
add_alternative q (err e) = with_error q e
add_alternative q (ok fragment) = or_fragment q q.filters fragment

unfoldable pub or_where : Query → String → List Value → Query
or_where q f args = add_alternative q (comparison "OrWhere" f args)

abbrev pub add_set : String → String → Query → String → Option (List Value) → Query
add_set call operator q f none = invalid q (not_a_list call)
add_set call operator q f (some items) =
    with_filter q (single f (single operator (array (values items))))

unfoldable pub where_set : String → String → Query → String → Value → Query
where_set call operator q f vs = add_set call operator q f (bson_array vs)

unfoldable pub where_in : Query → String → Value → Query
where_in q f vs = where_set "WhereIn" "$in" q f vs

unfoldable pub where_not_in : Query → String → Value → Query
where_not_in q f vs = where_set "WhereNotIn" "$nin" q f vs

unfoldable pub where_null : Query → String → Query
where_null q f = with_filter q (single f null)

unfoldable pub where_not_null : Query → String → Query
where_not_null q f = with_filter q (single f (single "$ne" null))

unfoldable pub where_between : Query → String → Value → Value → Query
where_between q f from to =
    with_filter q (single f (dict (field "$gte" from (field "$lte" to end))))

unfoldable pub where_not_between : Query → String → Value → Value → Query
where_not_between q f from to =
    with_filter q (
      single "$or"
        (array (values (single f (single "$lt" from) ∷ single f (single "$gt" to) ∷ []))))

unfoldable pub where_raw : Query → Value → Query
where_raw q f = if is_nil f then invalid q nil_filter else with_filter q f
