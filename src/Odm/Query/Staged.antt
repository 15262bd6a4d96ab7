-- ===== src/Odm/Query/Staged.antt =====
-- odm/execute.go and update.go: the update document that Update and UpdateOne send.
use chandlery.Base.{
  ℕ, String, ◌≡◌, refl, ◌∙◌, ap, not, ◌&&◌, ◌||◌, Option, none, some, List, [], ◌∷◌, ◌++◌, map,
  arith, str_eq, str_eq_iff, if◌then◌else◌, filter, Bool-cases, inl, inr,
}
use chandlery.Base.Assoc.{lookup}
use chandlery.Odm.Value.{Value, time}
use chandlery.Odm.Errors.{Error, Result, ok}
use chandlery.Odm.Query.{Query, UpdateOp}
use chandlery.Odm.Query.Update.{
  Update, staged_on, compile_update, updated_at, touch, timestamped_ops, compiled, unless_error,
  staged_update,
}
use chandlery.Odm.Query.Grouping.{under, entry_of, uses, compile_update-groups}
use chandlery.Odm.Query.Keeps.{IsDistinct}
use chandlery.Odm.Query.Builder.{snoc-IsDistinct}

-- The value that an operation stages with the operator.
abbrev pub value_with : String → Option UpdateOp → Option Value
value_with o none = none
value_with o (some op) = if uses o op then some op.value else none

unstaged :
    (o f : String) (ops : List UpdateOp)
    → staged_on f ops ≡ none
    → lookup f (map entry_of (filter (uses o) ops)) ≡ none
unfolding staged_on lookup
unstaged o f [] h = refl
unstaged o f (op ∷ ops) h = ground (arith, unstaged o f ops)

staged :
    (o f : String) (ops : List UpdateOp)
    → IsDistinct ops
    → lookup f (map entry_of (filter (uses o) ops)) ≡ value_with o (staged_on f ops)
unfolding staged_on lookup
staged o f [] h = refl
staged o f (op ∷ ops) h =
    ground (arith, staged o f ops h.1, unstaged o f ops, str_eq_iff op.target f, h.0)

staged_on-snoc :
    (f : String) (ops : List UpdateOp) (op : UpdateOp)
    → staged_on f (ops ++ op ∷ []) ≡ elim (staged_on f ops) [
      | some x ↦ some x
      | none ↦ if str_eq op.target f then some op else none
    ]
unfolding staged_on
staged_on-snoc f [] op = refl
staged_on-snoc f (o ∷ ops) op = ground (arith, staged_on-snoc f ops op)

-- What is staged on a field once updated_at is added: the caller's operation, or the stamp where the
-- model has timestamps and the caller did not opt out.
abbrev pub effective : ℕ → Query → String → Option UpdateOp
effective now q f = elim (staged_on f q.updates) [
  | some op ↦ some op
  | none ↦
      if (q.meta.timestamps && not q.skip_timestamps) && str_eq "updated_at" f
      then some (record { operator = "$set"; target = "updated_at"; value = time now })
      else none
]

touch-IsDistinct :
    (now : ℕ) (ops : List UpdateOp) (o : Option UpdateOp)
    → staged_on "updated_at" ops ≡ o
    → IsDistinct ops
    → IsDistinct (touch now ops o)
touch-IsDistinct now ops none e h = snoc-IsDistinct ops (updated_at now) h e
touch-IsDistinct now ops (some x) e h = h

timestamped_ops-IsDistinct :
    (now : ℕ) (q : Query) → IsDistinct q.updates → IsDistinct (timestamped_ops now q q.updates)
unfolding timestamped_ops
timestamped_ops-IsDistinct now q h =
    elim (Bool-cases (not q.meta.timestamps || q.skip_timestamps)) [
      | inl e ↦ rw e h
      | inr e ↦ rw e (touch-IsDistinct now q.updates _ refl h)
    ]

staged_on-touch :
    (now : ℕ) (f : String) (ops : List UpdateOp) (o : Option UpdateOp)
    → staged_on "updated_at" ops ≡ o
    → staged_on f (touch now ops o) ≡ elim (staged_on f ops) [
      | some op ↦ some op
      | none ↦ if str_eq "updated_at" f then some (updated_at now) else none
    ]
staged_on-touch now f ops none e = staged_on-snoc f ops (updated_at now)
staged_on-touch now f ops (some x) e = ground (arith, e, str_eq_iff "updated_at" f)

staged_on-timestamped_ops :
    (now : ℕ) (q : Query) (f : String)
    → staged_on f (timestamped_ops now q q.updates) ≡ effective now q f
unfolding timestamped_ops
staged_on-timestamped_ops now q f =
    ground (arith, staged_on-touch now f q.updates (staged_on "updated_at" q.updates) refl)

unless_error-ok :
    {A : Type 0} (o : Option Error) (r : Result A) {a : A} → unless_error o r ≡ ok a → r ≡ ok a
unless_error-ok none r h = h
unless_error-ok (some e) r h = cc

compiled-eq :
    (now : ℕ) (q : Query) (ops : List UpdateOp) {u : Update}
    → q.updates ≡ ops
    → compiled now q ops ≡ ok u
    → compile_update (timestamped_ops now q q.updates) ≡ u
compiled-eq now q [] e h = cc
compiled-eq now q (op ∷ ops) e h = rw e (ground (arith, h))

-- When a query with no field staged twice compiles to an update, each field stands in it under
-- exactly the operator and with the value that was staged, and the time under $set on updated_at
-- besides, for a timestamped model whose caller did not opt out or stage it.
pub staged_update-fields :
    (now : ℕ) (q : Query) (u : Update)
    → IsDistinct q.updates
    → staged_update now q ≡ ok u
    → (o f : String) → lookup f (under o u) ≡ value_with o (effective now q f)
unfolding staged_update
staged_update-fields now q u d h o f =
    let compiles = compiled-eq now q q.updates refl (unless_error-ok q.error _ h) in
    rw (← compiles) (
      ap (lookup f) (compile_update-groups (timestamped_ops now q q.updates) o).0
      ∙ staged o f (timestamped_ops now q q.updates) (timestamped_ops-IsDistinct now q d)
      ∙ ap (value_with o) (staged_on-timestamped_ops now q f))
