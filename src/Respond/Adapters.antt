-- ===== src/Respond/Adapters.antt =====
-- respond/nethttp/nethttp.go and respond/fiber/fiber.go: the error that a handler returns becomes a
-- response. The outcome is the response with its status, and whether the error is logged.
pub mod NetHttp
pub mod Fiber
pub mod Hidden
use chandlery.Base.{ℕ, Bool, false, leb}
use chandlery.Base.Int.{ℤ, pos, negsuc}
use chandlery.Base.Text.{Text}
use chandlery.Respond.{ErrorType, Response}

pub record Outcome : Type 0 where
  pub status : ℤ
  pub response : Response
  pub logged : Bool

-- The variables status, message and errType of both functions.
pub record Rendered : Type 0 where
  pub status : ℤ
  pub message : Text
  pub type : ErrorType

-- status <= n
abbrev pub at_most : ℕ → ℤ → Bool
at_most n (pos m) = leb m n
at_most n (negsuc m) = Bool.true
