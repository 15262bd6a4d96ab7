-- ===== src/Odm/Relation.antt =====
-- odm/relation.go, has_many.go, has_one.go, belongs_to.go, belongs_to_many.go: the declarations and
-- what they must have before any I/O. Of Attach only its presence is looked at here.
use chandlery.Base.{ℕ, suc, String, Bool, true, false, Option, none, some, str_eq, if◌then◌else◌}

-- `absent` is a nil Relation. The keys come in the order ForeignKey, LocalKey or OwnerKey; for
-- BelongsToMany LocalKey, OwnerKey.
mutual
  pub data Relation : Type 0 where
    absent : Relation
    has_many : String → String → Bool → Relations → Relation
    has_one : String → String → Bool → Relations → Relation
    belongs_to : String → String → Bool → Relations → Relation
    belongs_to_many : String → String → Bool → Relations → Relation

  pub data Relations : Type 0 where
    done : Relations
    also : Relation → Relations → Relations

pub data Fault : Type 0 where
  empty_key : Fault
  no_attach : Fault
  nested_nil : ℕ → Fault
  nested : ℕ → Fault

-- validateRelation, and the two checks of BelongsToMany; `attached` is Attach != nil.
abbrev checked : String → Bool → Option Fault → Option Fault
checked key attached rest =
    if str_eq key "" then some empty_key else if attached then rest else some no_attach

abbrev pub is_absent : Relation → Bool
is_absent absent = true
is_absent _ = false

abbrev at_index : ℕ → Option Fault → Option Fault → Option Fault
at_index i none rest = rest
at_index i (some f) rest = some (nested i)

unfoldable mutual
  -- A nil relation has no method to call: its holder reports it first.
  pub validate : Relation → Option Fault
  validate absent = none
  validate (has_many foreign local attached ns) = checked foreign attached (validate_nested 0 ns)
  validate (has_one foreign local attached ns) = checked foreign attached (validate_nested 0 ns)
  validate (belongs_to foreign owner attached ns) = checked foreign attached (validate_nested 0 ns)
  validate (belongs_to_many local owner attached ns) = checked local attached (validate_nested 0 ns)

  pub validate_nested : ℕ → Relations → Option Fault
  validate_nested i done = none
  validate_nested i (also r rs) =
      let later = validate_nested (suc i) rs in
      let own = validate r in if is_absent r then some (nested_nil i) else at_index i own later
