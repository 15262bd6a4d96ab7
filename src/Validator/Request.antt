-- ===== src/Validator/Request.antt =====
-- validator/nethttp/nethttp.go and validator/fiber/fiber.go: the middleware that decodes a body and
-- validates it. The decoding and the schema, which may change what it validates, are parameters.
use chandlery.Base.{ℕ, String, Option, none, some, List, [], ◌∷◌}
use chandlery.Base.Text.{Text, codes}
use chandlery.Respond.{ErrorType, bad_request, validation_error}
use chandlery.Validator.{ValidationError, sanitize_issues}

pub record Schema (Body T : Type 0) : Type 0 where
  pub decode : Body → Option T
  -- what is left of the data, and the issues by their paths and messages
  pub validate : T → T × List (String × String)

-- The next handler is called with the data in the request's context, or there is a response: its
-- status, type, message and details, of which an empty list is left out.
pub data Served (T : Type 0) : Type 0 where
  next : T → Served T
  responded : ℕ → ErrorType → Text → List ValidationError → Served T

abbrev pub malformed : {T : Type 0} → Served T
malformed = responded 400 bad_request (codes "Malformed request body") []

abbrev pub validated : {T : Type 0} → T × List (String × String) → Served T
validated (data_left, []) = next data_left
validated (data_left, i ∷ issues) =
    responded 422 validation_error (codes "Validation failed") (sanitize_issues (i ∷ issues))

abbrev pub decoded : {Body T : Type 0} → Schema Body T → Option T → Served T
decoded s none = malformed
decoded s (some x) = validated (s.validate x)

-- nethttp
unfoldable pub validate_request : {Body T : Type 0} → Schema Body T → Body → Served T
validate_request s body = decoded s (s.decode body)

-- fiber, whose Bind is the decoding
unfoldable pub validate_bound : {Body T : Type 0} → Schema Body T → Body → Served T
validate_bound s body = decoded s (s.decode body)

-- Body: what the request's context holds under the type's key; `none` is the panic.
unfoldable pub body_of : {T : Type 0} → Option T → Option T
body_of none = none
body_of (some x) = some x
