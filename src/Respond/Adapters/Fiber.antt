-- ===== src/Respond/Adapters/Fiber.antt =====
-- respond/fiber/fiber.go: the adapter of fiber.
use chandlery.Base.{Bool, true, false, ◌&&◌, Option, none, some, if◌then◌else◌}
use chandlery.Base.Int.{ℤ, pos}
use chandlery.Base.Text.{Text}
use chandlery.Respond.{
  internal_message, ErrorType, internal_error, Details, fail, ok, fail_with_details, internal,
  at_least, type_for_status, StatusInfo, Failure, as_status, as_fiber,
}
use chandlery.Respond.Adapters.{Outcome, Rendered, at_most}

unfoldable pub valid_status : ℤ → Bool
valid_status status = at_least 100 status && at_most 599 status

-- A server error does not show its message.
abbrev pub shown : ℤ → Text → Text
shown status message = if at_least 500 status then internal_message else message

-- The second test, for an error of fiber's own.
abbrev pub of_fiber : Option (ℤ × Text) → Rendered
of_fiber none = record { status = pos 500; message = internal_message; type = internal_error }
of_fiber (some (code, message)) = record {
  status = code;
  message = shown code message;
  type = type_for_status code;
}

abbrev pub of_either : Option StatusInfo → Option (ℤ × Text) → Rendered
of_either none f = of_fiber f
of_either (some i) f =
    if valid_status i.status
    then record { status = i.status; message = shown i.status i.message; type = i.type }
    else of_fiber f

abbrev pub answered : Rendered → Outcome
answered r = record {
  status = r.status;
  response = fail r.type r.message;
  logged = at_least 500 r.status;
}

unfoldable pub error_handler : Failure → Outcome
error_handler e = answered (of_either (as_status e) (as_fiber e))

-- The responses that handlers write themselves.
unfoldable pub write_ok : Text → Outcome
write_ok message = record { status = pos 200; response = ok message; logged = false }

unfoldable pub write_fail : ℤ → ErrorType → Text → Outcome
write_fail status t message = record { status = status; response = fail t message; logged = false }

unfoldable pub write_fail_with_details : ℤ → ErrorType → Text → Details → Outcome
write_fail_with_details status t message errs = record {
  status = status;
  response = fail_with_details t message errs;
  logged = false;
}

unfoldable pub write_internal : Outcome
write_internal = record { status = pos 500; response = internal; logged = true }
