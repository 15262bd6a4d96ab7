-- ===== src/Respond/Adapters/NetHttp.antt =====
-- respond/nethttp/nethttp.go: the adapter of net/http.
use chandlery.Base.{Bool, true, false, ◌&&◌, Option, none, some, if◌then◌else◌}
use chandlery.Base.Int.{ℤ, pos}
use chandlery.Base.Text.{Text}
use chandlery.Respond.{
  internal_message, ErrorType, internal_error, Details, fail, ok, fail_with_details, internal,
  at_least, StatusInfo, Failure, as_status,
}
use chandlery.Respond.Adapters.{Outcome, Rendered, at_most}

unfoldable pub valid_status : ℤ → Bool
valid_status status = at_least 100 status && at_most 599 status

abbrev pub unclassified : Rendered
unclassified = record { status = pos 500; message = internal_message; type = internal_error }

abbrev pub of_status : StatusInfo → Rendered
of_status i = record {
  status = i.status;
  message = if at_least 500 i.status then internal_message else i.message;
  type = i.type;
}

abbrev pub classified : Option StatusInfo → Rendered
classified none = unclassified
classified (some i) = if valid_status i.status then of_status i else unclassified

abbrev pub rendered : Rendered → Outcome
rendered r = record {
  status = r.status;
  response = fail r.type r.message;
  logged = at_least 500 r.status;
}

unfoldable pub handle_error : Failure → Outcome
handle_error e = rendered (classified (as_status e))

unfoldable pub wrap : Option Failure → Option Outcome
wrap none = none
wrap (some e) = some (handle_error e)

-- The responses that handlers write themselves.
unfoldable pub write_ok : Text → Outcome
write_ok message = record { status = pos 200; response = ok message; logged = false }

unfoldable pub write_fail : ℤ → ErrorType → Text → Outcome
write_fail status t message = record { status = status; response = fail t message; logged = false }

unfoldable pub write_fail_with_details : ℤ → ErrorType → Text → Details → Outcome
write_fail_with_details status t message errs = record {
  status = status;
  response = fail_with_details t message errs;
  logged = false;
}

unfoldable pub write_internal : Outcome
write_internal = record { status = pos 500; response = internal; logged = true }
