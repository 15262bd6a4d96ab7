-- ===== src/Validator.antt =====
-- validator/validator.go: the issues of a validation, grouped by field. An issue is the path and the
-- message that zog gives it.
pub mod Grouped
pub mod Request
use chandlery.Base.{ℕ, zero, suc, String, Option, none, some, List, [], ◌∷◌, ◌++◌, length}
use chandlery.Base.Assoc.{Assoc, lookup, insert}

pub record ValidationError : Type 0 where
  pub on : String
  pub reasons : List String

-- result[i].Reasons = append(result[i].Reasons, message)
unfoldable pub add_reason : ℕ → String → List ValidationError → List ValidationError
add_reason i message [] = []
add_reason zero message (e ∷ es) = record e { reasons = e.reasons ++ message ∷ [] } ∷ es
add_reason (suc i) message (e ∷ es) = e ∷ add_reason i message es

-- What the loop keeps: the result, and the index of each field in it.
abbrev pub Progress : Type 0
Progress = List ValidationError × Assoc ℕ

abbrev pub grouped_at : Progress → String → String → Option ℕ → Progress
grouped_at (result, by_field) f message (some i) = (add_reason i message result, by_field)
grouped_at (result, by_field) f message none =
    (result ++ record { on = f; reasons = message ∷ [] } ∷ [], insert f (length result) by_field)

unfoldable pub sanitize_loop : Progress → List (String × String) → Progress
sanitize_loop p [] = p
sanitize_loop p ((f, message) ∷ issues) =
    sanitize_loop (grouped_at p f message (lookup f p.1)) issues

unfoldable pub sanitize_issues : List (String × String) → List ValidationError
sanitize_issues issues = (sanitize_loop ([], []) issues).0
