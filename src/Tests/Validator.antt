-- ===== src/Tests/Validator.antt =====
-- The theorem on the validator's issues at a concrete input.
use chandlery.Base.{String, ◌≡◌, List, [], ◌∷◌}
use chandlery.Validator.{sanitize_issues}
use chandlery.Validator.Grouped.{reasons_of, messages_of, IsDistinct, sanitize_issues-groups}

abbrev issues : List (String × String)
issues = ("name", "is required") ∷ ("age", "is too small") ∷ ("name", "is too short") ∷ []

sanitize_issues-groups_example :
    (reasons_of "name" (sanitize_issues issues) ≡ messages_of "name" issues)
    × IsDistinct (sanitize_issues issues)
sanitize_issues-groups_example = sanitize_issues-groups issues "name"
