-- ===== src/Odm/Aggregation.antt =====
-- odm/aggregation.go: a pipeline under the scope of a query. The driver and the decoding of the
-- results are parameters.
pub mod Scoped
use chandlery.Base.{String, Bool, true, false, Option, none, some, List, [], ◌∷◌, if◌then◌else◌}
use chandlery.Odm.Value.{Value, dict, document, Fields, end, field}
use chandlery.Odm.Errors.{Error, Result, ok, err}
use chandlery.Odm.Query.{Query, ModelMeta, new_query}
use chandlery.Odm.Query.Scope.{filter}

-- bson.D{{Key: "$match", Value: f}}
abbrev pub match_stage : Value → Value
match_stage f = document (field "$match" f end)

-- A bson.M without entries.
abbrev pub matches_all : Value → Bool
matches_all (dict end) = true
matches_all v = false

-- The filter in front, unless there is nothing to match.
abbrev pub prepended : Value → List Value → List Value
prepended f pipeline = if matches_all f then pipeline else match_stage f ∷ pipeline

unfoldable pub scoped_pipeline : Query → List Value → List Value
scoped_pipeline q pipeline = prepended (filter q) pipeline

-- The cursor of Aggregate, and what All decodes from it.
pub record Driver (Row : Type 0) : Type 1 where
  pub World : Type 0
  pub Cursor : Type 0
  pub run : List Value → World → World × Result Cursor
  pub decode_all : Cursor → World → World × Result (List Row)

module _ {Row : Type 0} (c : Driver Row) where
  abbrev pub decoded : c.World × Result c.Cursor → c.World × Result (List Row)
  decoded (w, err e) = (w, err e)
  decoded (w, ok cursor) = c.decode_all cursor w

  abbrev pub unless_failed : Option Error → List Value → c.World → c.World × Result (List Row)
  unless_failed (some e) pipeline w = (w, err e)
  unless_failed none pipeline w = decoded (c.run pipeline w)

  unfoldable pub aggregate : Query → List Value → c.World → c.World × Result (List Row)
  aggregate q pipeline w = unless_failed q.error (scoped_pipeline q pipeline) w

  unfoldable pub aggregate_collection :
      ModelMeta → List Value → c.World → c.World × Result (List Row)
  aggregate_collection meta pipeline w = aggregate (new_query meta) pipeline w
