-- ===== src/Respond.antt =====
-- respond/respond.go: the envelope of a response, and the error that carries a status.
pub mod Adapters
use chandlery.Base.{
  ℕ, String, Bool, true, false, not, ◌&&◌, ◌||◌, Option, none, some, List, [], ◌∷◌, ◌++◌, leb, ltb,
  ◌==◌, str_eq, if◌then◌else◌,
}
use chandlery.Base.Int.{ℤ, pos, negsuc}
use chandlery.Base.Text.{Text, codes}

abbrev pub internal_message : Text
internal_message = codes "Something went wrong on our end. Please try again."

pub data ErrorType : Type 0 where
  untyped : ErrorType
  bad_request : ErrorType
  validation_error : ErrorType
  unauthorized : ErrorType
  forbidden : ErrorType
  not_found : ErrorType
  conflict : ErrorType
  rate_limited : ErrorType
  internal_error : ErrorType

-- What reflection tells isEmpty of a value: nil itself, a slice or a map by its length (nil or not),
-- something with a pointer, or any other value.
pub data Details : Type 0 where
  nil : Details
  nil_collection : Details
  collection : ℕ → Details
  nil_pointer : Details
  pointer : Details
  other : Details

pub record Response : Type 0 where
  pub message : Text
  -- `none` is the zero value, which omitempty leaves out
  pub errors : Option Details
  pub type : ErrorType

unfoldable pub ok : Text → Response
ok message = record { message = message; errors = none; type = untyped }

unfoldable pub fail : ErrorType → Text → Response
fail t message = record { message = message; errors = none; type = t }

unfoldable pub is_empty : Details → Bool
is_empty nil = true
is_empty nil_collection = true
is_empty (collection n) = n == 0
is_empty nil_pointer = true
is_empty pointer = false
is_empty other = false

unfoldable pub fail_with_details : ErrorType → Text → Details → Response
fail_with_details t message errs = record {
  message = message;
  errors = if is_empty errs then none else some errs;
  type = t;
}

unfoldable pub internal : Response
internal = record { message = internal_message; errors = none; type = internal_error }

-- n <= status
abbrev pub at_least : ℕ → ℤ → Bool
at_least n (pos m) = leb n m
at_least n (negsuc m) = false

unfoldable pub type_for_code : ℕ → ErrorType
type_for_code status =
    if status == 400
    then bad_request
    else if status == 401
    then unauthorized
    else if status == 403
    then forbidden
    else if status == 404
    then not_found
    else if status == 409
    then conflict
    else if status == 422
    then validation_error
    else if status == 429
    then rate_limited
    else if leb 500 status
    then internal_error
    else untyped

unfoldable pub type_for_status : ℤ → ErrorType
type_for_status (pos status) = type_for_code status
type_for_status (negsuc n) = untyped

-- The fields of a StatusError but its cause.
pub record StatusInfo : Type 0 where
  pub status : ℤ
  pub type : ErrorType
  pub message : Text

-- The errors that a handler returns: a StatusError without a cause or with one, an error of fiber's
-- own, fmt.Errorf with %w, errors.Join of two, and any error that wraps nothing.
pub data Failure : Type 0 where
  status_error : StatusInfo → Failure
  status_error_of : StatusInfo → Failure → Failure
  fiber_error : ℤ → Text → Failure
  wrapping : Text → Failure → Failure
  joined : Failure → Failure → Failure
  plain : Text → Failure

unfoldable pub status_info : ℤ → Text → StatusInfo
status_info status message = record {
  status = status;
  type = type_for_status status;
  message = message;
}

unfoldable pub new_status_error : ℤ → Text → List Failure → Failure
new_status_error status message [] = status_error (status_info status message)
new_status_error status message (cause ∷ rest) = status_error_of (status_info status message) cause

abbrev pub or_else {ℓ} : {A : Type ℓ} → Option A → Option A → Option A
or_else (some x) y = some x
or_else none y = y

-- errors.AsType[*respond.StatusError](err): the first one, depth first.
unfoldable pub as_status : Failure → Option StatusInfo
as_status (status_error i) = some i
as_status (status_error_of i cause) = some i
as_status (fiber_error code message) = none
as_status (wrapping text e) = as_status e
as_status (joined e f) = or_else (as_status e) (as_status f)
as_status (plain text) = none

-- errors.AsType[*gofiber.Error](err)
unfoldable pub as_fiber : Failure → Option (ℤ × Text)
as_fiber (status_error i) = none
as_fiber (status_error_of i cause) = as_fiber cause
as_fiber (fiber_error code message) = some (code, message)
as_fiber (wrapping text e) = as_fiber e
as_fiber (joined e f) = or_else (as_fiber e) (as_fiber f)
as_fiber (plain text) = none

-- The text of a StatusError: its message, and that of its cause.
unfoldable pub error_text : StatusInfo → Option Text → Text
error_text i none = i.message
error_text i (some cause) = i.message ++ codes ": " ++ cause

unfoldable pub unwrap : Failure → Option Failure
unwrap (status_error_of i cause) = some cause
unwrap (wrapping text e) = some e
unwrap _ = none
