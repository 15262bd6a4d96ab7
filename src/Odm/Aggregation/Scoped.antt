-- ===== src/Odm/Aggregation/Scoped.antt =====
-- odm/aggregation.go: what the stages of a pipeline see.
use chandlery.Base.{
  ◌≡◌, refl, sym, ap, ◌∙◌, Bool, true, false, not, ◌&&◌, List, [], ◌∷◌, if◌then◌else◌, arith,
}
use chandlery.Base.{filter as select_list}
use chandlery.Base.{filter_congr}
use chandlery.Odm.Value.{
  Value, dict, end, field, null, typed_nil, bool, int, int32, int64, uint8, text, operator, time,
  object_id, opaque, array, document, element,
}
use chandlery.Odm.Filter.{build_filter}
use chandlery.Odm.Mongo.{IsMongo}
use chandlery.Odm.Query.{Query}
use chandlery.Odm.Query.Scope.{filter}
use chandlery.Odm.Query.Visible.{scope_admits, filter-matches}
use chandlery.Odm.Aggregation.{matches_all, match_stage, prepended, scoped_pipeline}

-- The pipeline can stand behind a stage: it does not begin with one, such as $geoNear, that the server
-- takes only as the first.
abbrev pub can_follow : (Value → Bool) → List Value → Bool
can_follow only_first [] = true
can_follow only_first (s ∷ pipeline) = not (only_first s)

-- What the aggregation relies on of the server: a $match stage gives to the pipeline that can follow
-- it, in order, the documents that its filter matches.
abbrev pub MatchesFirst :
    {Doc Row : Type 0}
    → (Value → Doc → Bool)
    → (Value → Bool)
    → (List Value → List Doc → List Row)
    → Type 0
MatchesFirst {Doc} matches only_first run =
    (f : Value) (pipeline : List Value) (ds : List Doc)
    → can_follow only_first pipeline ≡ true
    → run (match_stage f ∷ pipeline) ds ≡ run pipeline (select_list (matches f) ds)

matches_all-dict : (f : Value) → matches_all f ≡ true → f ≡ dict end
matches_all-dict (dict end) h = refl
matches_all-dict (dict (field k v fs)) h = cc
matches_all-dict null h = cc
matches_all-dict (typed_nil k) h = cc
matches_all-dict (bool b) h = cc
matches_all-dict (int n) h = cc
matches_all-dict (int32 n) h = cc
matches_all-dict (int64 n) h = cc
matches_all-dict (uint8 n) h = cc
matches_all-dict (text t) h = cc
matches_all-dict (operator o) h = cc
matches_all-dict (time t) h = cc
matches_all-dict (object_id o) h = cc
matches_all-dict (opaque n) h = cc
matches_all-dict (array vs) h = cc
matches_all-dict (document fs) h = cc
matches_all-dict (element k v) h = cc

module _ {Doc Row : Type 0} (matches : Value → Doc → Bool) (m : IsMongo matches)
    (only_first : Value → Bool) (run : List Value → List Doc → List Row)
    (first : MatchesFirst matches only_first run) where
  filter-all : (p : Doc → Bool) (ds : List Doc) → ((d : Doc) → p d ≡ true) → select_list p ds ≡ ds
  filter-all p [] h = refl
  filter-all p (d ∷ ds) h = ground (arith, h d, filter-all p ds h)

  run-prepended :
      (f : Value) (pipeline : List Value) (ds : List Doc)
      → can_follow only_first pipeline ≡ true
      → run (prepended f pipeline) ds ≡ run pipeline (select_list (matches f) ds)
  run-prepended f pipeline ds c = from (matches_all f) refl
    where
      from :
          (b : Bool)
          → matches_all f ≡ b
          → run (if b then pipeline else match_stage f ∷ pipeline) ds
            ≡ run pipeline (select_list (matches f) ds)
      from false e = first f pipeline ds c
      from true e = ap (run pipeline) (
          sym (
            filter-all (matches f) ds
              (λ d. ap (λ g. matches g d) (matches_all-dict f e) ∙ m.empty d)))

  -- The stages of an aggregation, whose pipeline does not begin with a stage that the server takes only
  -- as the first, see exactly the documents, in their order, that the query's
  -- conditions select and, for a model that soft-deletes, that its mode admits.
  pub scoped_pipeline-sees :
      (q : Query) (pipeline : List Value) (ds : List Doc)
      → can_follow only_first pipeline ≡ true
      → run (scoped_pipeline q pipeline) ds
        ≡ run pipeline (
            select_list
              (λ d.
                let selected = matches (build_filter q.filters) d in
                if q.meta.soft_deletes
                then selected && scope_admits matches m q.trashed d
                else selected)
              ds)
  unfolding scoped_pipeline
  scoped_pipeline-sees q pipeline ds c =
      run-prepended (filter q) pipeline ds c
      ∙ ap (run pipeline) (filter_congr _ _ ds (λ d. filter-matches matches m q d))
