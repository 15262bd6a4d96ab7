-- ===== src/Respond/Adapters/Hidden.antt =====
-- respond/nethttp/nethttp.go and respond/fiber/fiber.go: what a client gets to see of an error.
use chandlery.Base.{
  ◌≡◌, refl, sym, ap, ◌∙◌, Bool, true, false, ◌&&◌, Option, none, some, leb, if◌then◌else◌,
}
use chandlery.Base.Int.{ℤ, pos, negsuc}
use chandlery.Base.Text.{Text}
use chandlery.Respond.{
  internal_message, ErrorType, Response, StatusInfo, Failure, as_status, as_fiber,
}
use chandlery.Respond.Adapters.{Outcome}
use chandlery.Respond.Adapters.NetHttp
use chandlery.Respond.Adapters.NetHttp.{handle_error}
use chandlery.Respond.Adapters.Fiber
use chandlery.Respond.Adapters.Fiber.{error_handler}

-- 500 or more
abbrev pub is_failure : ℤ → Bool
is_failure (pos n) = leb 500 n
is_failure (negsuc n) = false

-- 100 to 599
abbrev pub is_http : ℤ → Bool
is_http (pos n) = leb 100 n && leb n 599
is_http (negsuc n) = false

-- The internal message and the type, with nothing else.
abbrev pub bare : ErrorType → Response
bare t = record { message = internal_message; errors = none; type = t }

-- A status of 500 or more shows the internal message, and beside it only the type; and the error is
-- logged exactly under such a status.
abbrev pub IsSafe : Outcome → Type 0
IsSafe o =
    ((if is_failure o.status then o.response else bare o.response.type) ≡ bare o.response.type)
    × (o.logged ≡ is_failure o.status)

valid_statuses-agree : (s : ℤ) → NetHttp.valid_status s ≡ Fiber.valid_status s
unfolding NetHttp.valid_status Fiber.valid_status
valid_statuses-agree s = refl

-- For an error that has no error of fiber's own in it, the two adapters give the same outcome.
pub adapters-agree : (e : Failure) → as_fiber e ≡ none → handle_error e ≡ error_handler e
unfolding handle_error error_handler
adapters-agree e h =
    from (as_status e) ∙ ap (λ f. Fiber.answered (Fiber.of_either (as_status e) f)) (sym h)
  where
    from :
        (s : Option StatusInfo)
        → NetHttp.rendered (NetHttp.classified s) ≡ Fiber.answered (Fiber.of_either s none)
    from none = refl
    from (some i) = rw (valid_statuses-agree i.status) (split (Fiber.valid_status i.status))
      where
        split :
            (b : Bool)
            → NetHttp.rendered (if b then NetHttp.of_status i else NetHttp.unclassified)
              ≡ Fiber.answered (
                  if b
                  then record {
                    status = i.status;
                    message = Fiber.shown i.status i.message;
                    type = i.type;
                  }
                  else Fiber.of_fiber none)
        split true = refl
        split false = refl
