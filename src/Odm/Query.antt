-- ===== src/Odm/Query.antt =====
-- odm/query.go: the immutable query. The builder methods, which return a new query, are below.
pub mod Where
pub mod Meaning
pub mod Chain
pub mod Projection
pub mod Sort
pub mod Update
pub mod Grouping
pub mod Eager
pub mod Calls
pub mod Keeps
pub mod Builder
pub mod Staged
pub mod Visible
pub mod Scope
use chandlery.Base.{ℕ, String, Bool, false, Option, none, some, List, [], ◌∷◌, ◌++◌}
use chandlery.Base.Int.{ℤ, pos}
use chandlery.Odm.Value.{Value}
use chandlery.Odm.Errors.{Error, invalid_query, Reason}
use chandlery.Odm.Relation.{Relation}

pub data ProjectionMode : Type 0 where
  projection_none projection_include projection_exclude : ProjectionMode

pub data TrashedMode : Type 0 where
  trashed_excluded trashed_included trashed_only : TrashedMode

-- A staged update: its operator, its field and its value.
pub record UpdateOp : Type 0 where
  pub operator : String
  pub target : String
  pub value : Value

-- What metadata.go resolves of a model type.
pub record ModelMeta : Type 0 where
  pub collection : String
  pub timestamps : Bool
  pub soft_deletes : Bool
  pub trackable : Bool

-- bson.D documents of ints: sorts, and projections of 1 and 0.
abbrev pub Sorts : Type 0
Sorts = List (String × Value)

abbrev pub Projection : Type 0
Projection = List (String × ℕ)

pub record Query : Type 0 where
  pub meta : ModelMeta
  pub filters : List Value
  pub sorts : Sorts
  pub limit : ℤ
  pub has_limit : Bool
  pub skip : ℤ
  pub has_skip : Bool
  pub projection : Projection
  pub projection_mode : ProjectionMode
  pub updates : List UpdateOp
  pub relations : List Relation
  pub trashed : TrashedMode
  pub skip_timestamps : Bool
  pub error : Option Error

-- Collection.Query: a query with no condition.
abbrev pub new_query : ModelMeta → Query
new_query meta = record {
  meta = meta;
  filters = [];
  sorts = [];
  limit = pos 0;
  has_limit = false;
  skip = pos 0;
  has_skip = false;
  projection = [];
  projection_mode = projection_none;
  updates = [];
  relations = [];
  trashed = trashed_excluded;
  skip_timestamps = false;
  error = none;
}

abbrev pub with_filter : Query → Value → Query
with_filter q f = record q { filters = q.filters ++ f ∷ [] }

abbrev first_error : Option Error → Error → Option Error
first_error none e = some e
first_error (some e') e = some e'

-- The earliest error is kept.
abbrev pub with_error : Query → Error → Query
with_error q e = record q { error = first_error q.error e }

abbrev pub invalid : Query → Reason → Query
invalid q r = with_error q (invalid_query r)
