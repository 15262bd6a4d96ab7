-- ===== src/Odm/Errors.antt =====
-- odm/errors.go: the package's errors, with the reasons that its functions give.
use chandlery.Base.{ℕ, String}
use chandlery.Base.Int.{ℤ}

-- Why a query is invalid.
pub data Reason : Type 0 where
  operator_type : String → Reason
  operator_unknown : String → String → Reason
  argument_count : String → ℕ → Reason
  not_a_list : String → Reason
  nil_filter : Reason
  no_fields : Reason
  mixed_projection : String → Reason
  already_projected : String → Reason
  bad_direction : String → Reason
  negative : ℤ → Reason
  already_targeted : String → String → Reason
  no_updates : Reason
  nil_update : Reason
  staged_updates : Reason
  nil_relation : ℕ → Reason
  nil_scope : ℕ → Reason
  bad_relation : ℕ → Reason
  no_soft_deletes : String → Reason
  page_size : ℤ → Reason
  missing_sort_field : String → Reason

-- Why a cursor is invalid.
pub data CursorFault : Type 0 where
  not_base64 not_a_document wrong_version key_count sort_count sort_field sort_direction :
      CursorFault

pub data Error : Type 0 where
  invalid_query : Reason → Error
  invalid_cursor : CursorFault → Error
  model_not_found : Error
  nil_model : Error
  duplicate_key : ℕ → Error
  driver : ℕ → Error

pub data Result {ℓ} (A : Type ℓ) : Type ℓ where
  ok : A → Result A
  err : Error → Result A

infixl 5 ◌>>=◌
abbrev pub ◌>>=◌ {ℓ κ} : {A : Type ℓ} {B : Type κ} → Result A → (A → Result B) → Result B
ok a >>= f = f a
err e >>= f = err e
