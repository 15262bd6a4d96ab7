-- ===== src/Odm/Query/Meaning.antt =====
-- odm/query.go and filter.go: which documents a chain of conditions selects.
use chandlery.Base.{
  String, Bool, true, not, ◌&&◌, ◌||◌, Option, none, some, List, [], ◌∷◌, str_eq, if◌then◌else◌,
  all,
}
use chandlery.Odm.Value.{Value, null, array, values, single, is_nil, bson_array}
use chandlery.Odm.Errors.{Result, ok, err}
use chandlery.Odm.Filter.{operator_of}
use chandlery.Odm.Query.{Query}
use chandlery.Odm.Query.Where
use chandlery.Odm.Query.Where.{or_fragment}

-- The calls that add a condition.
pub data Condition : Type 0 where
  filter_where : String → List Value → Condition
  or_where : String → List Value → Condition
  where_in : String → Value → Condition
  where_not_in : String → Value → Condition
  where_null : String → Condition
  where_not_null : String → Condition
  where_between : String → Value → Value → Condition
  where_not_between : String → Value → Value → Condition
  where_raw : Value → Condition

unfoldable pub apply : Query → Condition → Query
apply q (filter_where f args) = Where.filter_where q f args
apply q (or_where f args) = Where.or_where q f args
apply q (where_in f vs) = Where.where_in q f vs
apply q (where_not_in f vs) = Where.where_not_in q f vs
apply q (where_null f) = Where.where_null q f
apply q (where_not_null f) = Where.where_not_null q f
apply q (where_between f from to) = Where.where_between q f from to
apply q (where_not_between f from to) = Where.where_not_between q f from to
apply q (where_raw f) = Where.where_raw q f

unfoldable pub chain : Query → List Condition → Query
chain q [] = q
chain q (c ∷ cs) = chain (apply q c) cs

abbrev pub or_true : Option Bool → Bool
or_true none = true
or_true (some b) = b

abbrev pub conjoined : Option Bool → Option Bool → Option Bool
conjoined so_far none = so_far
conjoined none (some t) = some t
conjoined (some s) (some t) = some (s && t)

abbrev pub disjoined : Option Bool → Option Bool → Option Bool
disjoined so_far none = so_far
disjoined none (some t) = some t
disjoined (some s) (some t) = some (s || t)

module _ {Doc : Type 0} (matches : Value → Doc → Bool) (d : Doc) where
  -- What a Where says of the document, or nothing where its arguments are no condition.
  abbrev pub by_operator : String → String → Value → Option Bool
  by_operator o f v =
      if str_eq o "=" || str_eq o "=="
      then some (matches (single f v) d)
      else if str_eq o "!="
      then some (not (matches (single f v) d))
      else if str_eq o ">"
      then some (matches (single f (single "$gt" v)) d)
      else if str_eq o ">="
      then some (matches (single f (single "$gte" v)) d)
      else if str_eq o "<"
      then some (matches (single f (single "$lt" v)) d)
      else if str_eq o "<="
      then some (matches (single f (single "$lte" v)) d)
      else none

  abbrev pub by_operator? : Option String → String → Value → Option Bool
  by_operator? none f v = none
  by_operator? (some o) f v = by_operator o f v

  unfoldable pub compares : String → List Value → Option Bool
  compares f (v ∷ []) = some (matches (single f v) d)
  compares f (o ∷ v ∷ []) = by_operator? (operator_of o) f v
  compares f args = none

  abbrev pub among : String → String → Option (List Value) → Option Bool
  among operator f none = none
  among operator f (some items) =
      some (matches (single f (single operator (array (values items)))) d)

  -- What a call says of the document, by itself.
  unfoldable pub truth : Condition → Option Bool
  truth (filter_where f args) = compares f args
  truth (or_where f args) = compares f args
  truth (where_in f vs) = among "$in" f (bson_array vs)
  truth (where_not_in f vs) = among "$nin" f (bson_array vs)
  truth (where_null f) = some (matches (single f null) d)
  truth (where_not_null f) = some (not (matches (single f null) d))
  truth (where_between f from to) =
      some (matches (single f (single "$gte" from)) d && matches (single f (single "$lte" to)) d)
  truth (where_not_between f from to) =
      some (matches (single f (single "$lt" from)) d || matches (single f (single "$gt" to)) d)
  truth (where_raw f) = if is_nil f then none else some (matches f d)

  -- What the chain says so far, joined with one more call: strictly left to right.
  unfoldable pub joined : Option Bool → Condition → Option Bool
  joined so_far (or_where f args) = disjoined so_far (truth (or_where f args))
  joined so_far c = conjoined so_far (truth c)

  unfoldable pub joined_all : Option Bool → List Condition → Option Bool
  joined_all so_far [] = so_far
  joined_all so_far (c ∷ cs) = joined_all (joined so_far c) cs

  -- A query with no condition says nothing.
  abbrev pub said : List Value → Option Bool
  said [] = none
  said (f ∷ fs) = some (all (λ g. matches g d) (f ∷ fs))

  abbrev pub told : Result Value → Option Bool
  told (ok f) = some (matches f d)
  told (err e) = none
