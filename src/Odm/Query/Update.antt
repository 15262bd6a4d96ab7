-- ===== src/Odm/Query/Update.antt =====
-- odm/update.go and the staging half of odm/execute.go: update operators.
use chandlery.Base.{
  ℕ, String, true, not, ◌||◌, Option, none, some, List, [], ◌∷◌, ◌++◌, str_eq, if◌then◌else◌,
}
use chandlery.Base.Int.{ℤ, pos, ◌-ℤ◌, wrap}
use chandlery.Odm.Value.{Value, text, int64, time}
use chandlery.Odm.Errors.{Error, invalid_query, already_targeted, no_updates, Result, ok, err}
use chandlery.Odm.Query.{Query, UpdateOp, invalid}

-- The first staged operation on the field.
unfoldable pub staged_on : String → List UpdateOp → Option UpdateOp
staged_on f [] = none
staged_on f (op ∷ ops) = let rest = staged_on f ops in if str_eq op.target f then some op else rest

abbrev pub stage : String → String → Query → String → Value → Option UpdateOp → Query
stage call operator q f v (some existing) = invalid q (already_targeted call f)
stage call operator q f v none = record q {
  updates = q.updates ++ record { operator = operator; target = f; value = v } ∷ [];
}

unfoldable pub with_update : String → String → Query → String → Value → Query
with_update call operator q f v = stage call operator q f v (staged_on f q.updates)

unfoldable pub set : Query → String → Value → Query
set q f v = with_update "Set" "$set" q f v

unfoldable pub unset : Query → String → Query
unset q f = with_update "Unset" "$unset" q f (text "")

unfoldable pub inc : Query → String → Value → Query
inc q f v = with_update "Inc" "$inc" q f v

unfoldable pub increment : Query → String → ℤ → Query
increment q f by = inc q f (int64 by)

-- -by, on int64.
unfoldable pub decrement : Query → String → ℤ → Query
decrement q f by = inc q f (int64 (wrap (pos 0 -ℤ by)))

unfoldable pub push : Query → String → Value → Query
push q f v = with_update "Push" "$push" q f v

unfoldable pub pull : Query → String → Value → Query
pull q f v = with_update "Pull" "$pull" q f v

unfoldable pub add_to_set : Query → String → Value → Query
add_to_set q f v = with_update "AddToSet" "$addToSet" q f v

-- An update document: a bson.D of operators, each with a bson.D of fields.
abbrev pub Update : Type 0
Update = List (String × List (String × Value))

-- Appends to the operator's entry, or a new entry at the end.
unfoldable pub add_op : Update → UpdateOp → Update
add_op [] op = (op.operator, (op.target, op.value) ∷ []) ∷ []
add_op ((o, es) ∷ update) op =
    let rest = add_op update op in
    if str_eq o op.operator then (o, es ++ (op.target, op.value) ∷ []) ∷ update else (o, es) ∷ rest

unfoldable pub compile_loop : Update → List UpdateOp → Update
compile_loop update [] = update
compile_loop update (op ∷ ops) = compile_loop (add_op update op) ops

unfoldable pub compile_update : List UpdateOp → Update
compile_update ops = compile_loop [] ops

unfoldable pub without_timestamps : Query → Query
without_timestamps q = record q { skip_timestamps = true }

abbrev pub updated_at : ℕ → UpdateOp
updated_at now = record { operator = "$set"; target = "updated_at"; value = time now }

abbrev pub touch : ℕ → List UpdateOp → Option UpdateOp → List UpdateOp
touch now ops (some op) = ops
touch now ops none = ops ++ updated_at now ∷ []

-- updated_at is set too, unless the caller opted out or staged it.
unfoldable pub timestamped_ops : ℕ → Query → List UpdateOp → List UpdateOp
timestamped_ops now q ops =
    if not q.meta.timestamps || q.skip_timestamps
    then ops
    else touch now ops (staged_on "updated_at" ops)

abbrev pub compiled : ℕ → Query → List UpdateOp → Result Update
compiled now q [] = err (invalid_query no_updates)
compiled now q (op ∷ ops) = ok (compile_update (timestamped_ops now q (op ∷ ops)))

abbrev pub unless_error {ℓ} : {A : Type ℓ} → Option Error → Result A → Result A
unless_error none r = r
unless_error (some e) r = err e

unfoldable pub staged_update : ℕ → Query → Result Update
staged_update now q = unless_error q.error (compiled now q q.updates)
