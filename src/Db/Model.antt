-- ===== src/Db/Model.antt =====
-- db/model.go, and ConditionalUpdate of db/repository.go. The identifiers of ulid, the clock's
-- readings and what bun answers are arguments.
use chandlery.Base.{ℕ, Bool, false, not, Option, none, some, ◌==◌, if◌then◌else◌}
use chandlery.Base.Int.{ℤ, is_nonpos}
use chandlery.Base.Text.{Text, is_empty}

-- The type of the query that bun is about to write.
pub data Kind : Type 0 where
  insert_query update_query other_query : Kind

pub record IdentityModel : Type 0 where
  pub id : Text

-- An instant of 0 is the zero time.
pub record Model : Type 0 where
  pub identity : IdentityModel
  pub created_at : ℕ
  pub updated_at : ℕ

-- The first argument is ulid.Make().String().
unfoldable pub before_append_identity : Text → Kind → IdentityModel → IdentityModel
before_append_identity fresh insert_query m = if is_empty m.id then record { id = fresh } else m
before_append_identity fresh update_query m = m
before_append_identity fresh other_query m = m

-- The second is time.Now().
unfoldable pub before_append_model : Text → ℕ → Kind → Model → Model
before_append_model fresh now insert_query m = record {
  identity = before_append_identity fresh insert_query m.identity;
  created_at = if m.created_at == 0 then now else m.created_at;
  updated_at = now;
}
before_append_model fresh now update_query m = record m {
  identity = before_append_identity fresh update_query m.identity;
  updated_at = now;
}
before_append_model fresh now other_query m = record m {
  identity = before_append_identity fresh other_query m.identity;
}

pub data Error : Type 0 where
  pointer_model : Error
  not_a_struct : Error
  bun_error : ℕ → Error

-- The two values that ConditionalUpdate returns.
abbrev pub Answer : Type 0
Answer = Bool × Option Error

-- Exec's error, or what RowsAffected gives.
abbrev pub affected : Option ℕ → Option ℕ × ℤ → Answer
affected (some e) rows = (false, some (bun_error e))
affected none (some e, rows) = (false, some (bun_error e))
affected none (none, rows) = (not (is_nonpos rows), none)

-- Whether M is a pointer type; and the update, with what it leaves of the world.
unfoldable pub conditional_update :
    {World : Type 0} → Bool → (World → World × Option ℕ × (Option ℕ × ℤ)) → World → World × Answer
conditional_update is_pointer exec w =
    if is_pointer
    then (w, (false, some pointer_model))
    else (let done = exec w in (done.0, affected done.1 done.2))
