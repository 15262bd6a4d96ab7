-- ===== src/Tests/Services.antt =====
-- The theorems on env and respond at concrete inputs.
use chandlery.Base.{ℕ, ◌≡◌, refl, inr, true, none, some, [], ◌∷◌, str_eq, if◌then◌else◌, all}
use chandlery.Base.Int.{pos}
use chandlery.Base.Text.{codes, eq}
use chandlery.Base.Text.Parts.{join}
use chandlery.Base.Text.Space.{trim_space}
use chandlery.Env.{Host, get_slice}
use chandlery.Env.Slices.{is_trimmed, get_slice-join}
use chandlery.Respond.{Failure, joined, plain, new_status_error, as_fiber}
use chandlery.Respond.Adapters.NetHttp.{handle_error}
use chandlery.Respond.Adapters.Fiber.{error_handler}
use chandlery.Respond.Adapters.Hidden.{adapters-agree}

abbrev host : Host
host = record {
  look_up = λ k. if str_eq k "HOSTS" then some (codes "a.example,b c") else none;
  lower_rune = λ c. c;
  Float = ℕ;
  zero_float = 0;
  parse_float = λ s. none;
}

slices_trimmed : all is_trimmed (codes "a.example" ∷ codes "b c" ∷ []) ≡ true
unfolding trim_space eq
slices_trimmed = refl

slices_held : host.look_up "HOSTS" ≡ some (join (codes "a.example" ∷ codes "b c" ∷ []) 44)
unfolding join
slices_held = refl

get_slice-join_example : get_slice host "HOSTS" [] [] ≡ codes "a.example" ∷ codes "b c" ∷ []
get_slice-join_example =
    get_slice-join host "HOSTS" [] 44 [] (codes "a.example") (codes "b c" ∷ []) (inr (refl, refl))
      slices_held slices_trimmed refl

abbrev conflict_error : Failure
conflict_error = joined (plain (codes "x")) (new_status_error (pos 409) (codes "taken") [])

no_fiber_error : as_fiber conflict_error ≡ none
unfolding as_fiber new_status_error
no_fiber_error = refl

adapters-agree_example : handle_error conflict_error ≡ error_handler conflict_error
adapters-agree_example = adapters-agree conflict_error no_fiber_error
