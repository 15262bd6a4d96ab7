-- ===== src/Odm/Query/Eager.antt =====
-- odm/relation.go: With.
use chandlery.Base.{ℕ, suc, Option, none, some, List, [], ◌∷◌, ◌++◌, if◌then◌else◌}
use chandlery.Odm.Errors.{nil_relation, bad_relation, Reason}
use chandlery.Odm.Relation.{Relation, Fault, is_absent, validate}
use chandlery.Odm.Query.{Query, invalid}

abbrev pub or_next : ℕ → Option Fault → Option Reason → Option Reason
or_next i none later = later
or_next i (some f) later = some (bad_relation i)

-- The loop of With: the first relation that is nil or invalid.
unfoldable pub bad_at : ℕ → List Relation → Option Reason
bad_at i [] = none
bad_at i (r ∷ rs) =
    let later = bad_at (suc i) rs in
    if is_absent r then some (nil_relation i) else or_next i (validate r) later

abbrev pub added : Query → List Relation → Option Reason → Query
added q rs none = record q { relations = q.relations ++ rs }
added q rs (some r) = invalid q r

unfoldable pub with_relations : Query → List Relation → Query
with_relations q rs = added q rs (bad_at 0 rs)
