-- ===== src/Odm/Query/Chain.antt =====
-- odm/query.go and filter.go: the filter that a chain of conditions compiles to.
use chandlery.Base.{
  String, ◌≡◌, refl, ◌∙◌, ap, Bool, true, false, ◌||◌, Option, none, some, List, [], ◌∷◌, ◌++◌,
  arith, all, all-append, Bool-cases, inl, inr,
}
use chandlery.Odm.Value.{Value, null, is_nil, bson_array}
use chandlery.Odm.Errors.{Result, ok, err}
use chandlery.Odm.Filter.{
  comparison_operators, operator_of, operator_filter, with_operator, comparison, build_filter,
}
use chandlery.Odm.Mongo.{IsMongo}
use chandlery.Odm.Query.{Query}
use chandlery.Odm.Query.Where
use chandlery.Odm.Query.Where.{or_fragment, add_fragment, add_alternative, add_set}
use chandlery.Odm.Query.Meaning.{
  Condition, filter_where, or_where, where_in, where_not_in, where_null, where_not_null,
  where_between, where_not_between, where_raw, apply, chain, compares, by_operator, by_operator?,
  among, truth, conjoined, disjoined, joined, joined_all, said, or_true, told,
}

or_true-said :
    {Doc : Type 0} (matches : Value → Doc → Bool) (d : Doc) (fs : List Value)
    → all (λ f. matches f d) fs ≡ or_true (said matches d fs)
or_true-said matches d [] = refl
or_true-said matches d (f ∷ fs) = refl

or_false : (b : Bool) → (b || false) ≡ b
or_false true = refl
or_false false = refl

module _ {Doc : Type 0} (matches : Value → Doc → Bool) (m : IsMongo matches) (d : Doc) where
  pub build_filter-matches :
      (fs : List Value) → matches (build_filter fs) d ≡ all (λ f. matches f d) fs
  unfolding build_filter
  build_filter-matches [] = m.empty d
  build_filter-matches (f ∷ []) = ground arith
  build_filter-matches (f ∷ g ∷ fs) = m.conjunction (f ∷ g ∷ fs) d

  operator_filter-told :
      (call f o : String) (v : Value)
      → told matches d (operator_filter call f o v) ≡ by_operator matches d o f v
  unfolding operator_filter comparison_operators
  operator_filter-told call f o v = ground (arith, m.not_equal f v d)

  with_operator-told :
      (call f : String) (v : Value) (o : Option String)
      → told matches d (with_operator call f v o) ≡ by_operator? matches d o f v
  with_operator-told call f v none = refl
  with_operator-told call f v (some o) = operator_filter-told call f o v

  comparison-told :
      (call f : String) (args : List Value)
      → told matches d (comparison call f args) ≡ compares matches d f args
  unfolding comparison compares
  comparison-told call f [] = refl
  comparison-told call f (v ∷ []) = refl
  comparison-told call f (o ∷ v ∷ []) = with_operator-told call f v (operator_of o)
  comparison-told call f (o ∷ v ∷ w ∷ args) = refl

  said-snoc :
      (fs : List Value) (g : Value)
      → said matches d (fs ++ g ∷ []) ≡ conjoined (said matches d fs) (some (matches g d))
  said-snoc [] g = ground arith
  said-snoc (f ∷ fs) g = ground (arith, all-append (λ h. matches h d) fs (g ∷ []))

  or_fragment-said :
      (q : Query) (fs : List Value) (g : Value)
      → q.filters ≡ fs
      → said matches d (or_fragment q fs g).filters
        ≡ disjoined (said matches d fs) (some (matches g d))
  or_fragment-said q [] g e = rw e (ground arith)
  or_fragment-said q (f ∷ fs) g e =
      ground
        (arith, m.disjunction (build_filter (f ∷ fs) ∷ g ∷ []) d, build_filter-matches (f ∷ fs))

  add_fragment-said :
      (q : Query) (r : Result Value)
      → said matches d (add_fragment q r).filters
        ≡ conjoined (said matches d q.filters) (told matches d r)
  add_fragment-said q (err e) = ground arith
  add_fragment-said q (ok f) = said-snoc q.filters f

  add_alternative-said :
      (q : Query) (r : Result Value)
      → said matches d (add_alternative q r).filters
        ≡ disjoined (said matches d q.filters) (told matches d r)
  add_alternative-said q (err e) = ground arith
  add_alternative-said q (ok f) = or_fragment-said q q.filters f refl

  add_set-said :
      (call operator : String) (q : Query) (f : String) (o : Option (List Value))
      → said matches d (add_set call operator q f o).filters
        ≡ conjoined (said matches d q.filters) (among matches d operator f o)
  add_set-said call operator q f none = ground arith
  add_set-said call operator q f (some items) = said-snoc q.filters _

  -- One call.
  apply-said :
      (q : Query) (c : Condition)
      → said matches d (apply q c).filters ≡ joined matches d (said matches d q.filters) c
  unfolding apply joined truth Where.filter_where Where.or_where Where.where_in Where.where_not_in
      Where.where_set Where.where_null Where.where_not_null Where.where_between
      Where.where_not_between Where.where_raw
  apply-said q (filter_where f args) =
      add_fragment-said q (comparison "Where" f args) ∙ rw (comparison-told "Where" f args)
  apply-said q (or_where f args) =
      add_alternative-said q (comparison "OrWhere" f args) ∙ rw (comparison-told "OrWhere" f args)
  apply-said q (where_in f vs) = add_set-said "WhereIn" "$in" q f (bson_array vs)
  apply-said q (where_not_in f vs) = add_set-said "WhereNotIn" "$nin" q f (bson_array vs)
  apply-said q (where_null f) = said-snoc q.filters _
  apply-said q (where_not_null f) = said-snoc q.filters _ ∙ rw (m.not_equal f null d)
  apply-said q (where_between f from to) = said-snoc q.filters _ ∙ rw (m.between f from to d)
  apply-said q (where_not_between f from to) = said-snoc q.filters _ ∙ rw (m.disjunction, or_false)
  apply-said q (where_raw f) = elim (Bool-cases (is_nil f)) [
    | inl e ↦ rw e (ground arith)
    | inr e ↦ rw e (said-snoc q.filters f)
  ]

  chain-said :
      (q : Query) (cs : List Condition)
      → said matches d (chain q cs).filters ≡ joined_all matches d (said matches d q.filters) cs
  unfolding chain joined_all
  chain-said q [] = refl
  chain-said q (c ∷ cs) = chain-said (apply q c) cs ∙ rw (apply-said q c)

-- The filter that any chain of conditions compiles to selects a document exactly when the conditions,
-- joined strictly left to right, hold of it: an OrWhere against all that came before it, any other
-- call by "and". A call whose arguments are no condition leaves the filter alone.
pub chain-matches :
    {Doc : Type 0} (matches : Value → Doc → Bool)
    → IsMongo matches
    → (q : Query) (cs : List Condition) (d : Doc)
    → matches (build_filter (chain q cs).filters) d
      ≡ or_true (joined_all matches d (said matches d q.filters) cs)
chain-matches matches m q cs d =
    build_filter-matches matches m d (chain q cs).filters
    ∙ or_true-said matches d (chain q cs).filters
    ∙ ap or_true (chain-said matches m d q cs)
