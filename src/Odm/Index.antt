-- ===== src/Odm/Index.antt =====
-- odm/index.go: the indexes that a model declares, compiled for the driver. A duration is a number of
-- nanoseconds; how int32 takes its seconds, a float64, is a parameter.
use chandlery.Base.{
  ℕ, zero, suc, String, Bool, true, false, Option, none, some, List, [], ◌∷◌, str_eq,
}
use chandlery.Base.Int.{ℤ, pos, negsuc}
use chandlery.Odm.Value.{Value, null}

pub record Index : Type 0 where
  pub keys : List (String × Value)
  pub name : String
  pub unique : Bool
  pub sparse : Bool
  pub expire_after : ℤ
  pub partial_filter : Value

-- The driver's IndexModel, with what is set of its options.
pub record IndexModel : Type 0 where
  pub keys : List (String × Value)
  pub name : Option String
  pub unique : Option Bool
  pub sparse : Option Bool
  pub expire_after_seconds : Option ℤ
  pub partial_filter : Option Value

pub data Fault : Type 0 where
  no_keys : Fault
  negative_expiry : ℤ → Fault

pub data Error : Type 0 where
  -- the position of the index
  bad_index : ℕ → Fault → Error
  declares_none : Error
  driver : ℕ → Error

pub data Outcome {ℓ} (E A : Type ℓ) : Type ℓ where
  ok : A → Outcome E A
  err : E → Outcome E A

abbrev pub set_if {ℓ} : {A : Type ℓ} → Bool → A → Option A
set_if true x = some x
set_if false x = none

abbrev pub is_zero : ℤ → Bool
is_zero (pos zero) = true
is_zero (pos (suc n)) = false
is_zero (negsuc n) = false

abbrev pub is_null : Value → Bool
is_null null = true
is_null v = false

abbrev pub negated : Bool → Bool
negated true = false
negated false = true

module _ (seconds_of : ℤ → ℤ) where
  abbrev pub compiled : Index → IndexModel
  compiled i = record {
    keys = i.keys;
    name = set_if (negated (str_eq i.name "")) i.name;
    unique = set_if i.unique true;
    sparse = set_if i.sparse true;
    expire_after_seconds = set_if (negated (is_zero i.expire_after)) (seconds_of i.expire_after);
    partial_filter = set_if (negated (is_null i.partial_filter)) i.partial_filter;
  }

  abbrev pub not_negative : ℤ → Index → Outcome Fault IndexModel
  not_negative (negsuc n) i = err (negative_expiry (negsuc n))
  not_negative (pos n) i = ok (compiled i)

  abbrev pub has_keys : List (String × Value) → Index → Outcome Fault IndexModel
  has_keys [] i = err no_keys
  has_keys (k ∷ ks) i = not_negative i.expire_after i

  unfoldable pub model : Index → Outcome Fault IndexModel
  model i = has_keys i.keys i

  abbrev pub placed :
      ℕ
      → Outcome Fault IndexModel
      → Outcome Error (List IndexModel)
      → Outcome Error (List IndexModel)
  placed at_index (err f) rest = err (bad_index at_index f)
  placed at_index (ok m) (err e) = err e
  placed at_index (ok m) (ok ms) = ok (m ∷ ms)

  -- The loop, from the index at this position on.
  unfoldable pub index_models : ℕ → List Index → Outcome Error (List IndexModel)
  index_models at_index [] = ok []
  index_models at_index (i ∷ is) = placed at_index (model i) (index_models (suc at_index) is)

  -- CreateMany of the driver's index view.
  module _ {World : Type 0} (create_many : List IndexModel → World → World × Option Error) where
    abbrev pub sent : World → Outcome Error (List IndexModel) → World × Option Error
    sent w (err e) = (w, some e)
    sent w (ok ms) = create_many ms w

    -- What the model's Indexes gives, or `none` for a model without it.
    unfoldable pub sync_indexes : Option (List Index) → World → World × Option Error
    sync_indexes none w = (w, some declares_none)
    sync_indexes (some []) w = (w, none)
    sync_indexes (some (i ∷ is)) w = sent w (index_models 0 (i ∷ is))
