-- ===== src/Odm/Query/Builder.antt =====
-- The builder methods keep a query well formed, and keep its first error.
use chandlery.Base.{
  String, ◌≡◌, refl, ◌∙◌, true, false, Option, none, some, List, [], ◌∷◌, ◌++◌, arith, str_eq,
  str_eq_iff, all, all-append, Bool-cases, inl, inr,
}
use chandlery.Base.Int.{ℤ, is_neg}
use chandlery.Odm.Value.{Value, int}
use chandlery.Odm.Errors.{Error, Reason}
use chandlery.Odm.Relation.{Relation}
use chandlery.Odm.Query.{Query, UpdateOp, Sorts, TrashedMode}
use chandlery.Odm.Query.Sort
use chandlery.Odm.Query.Sort.{is_direction, order_by, order_by_loop, order_by_each}
use chandlery.Odm.Query.Update
use chandlery.Odm.Query.Update.{staged_on, stage, with_update}
use chandlery.Odm.Query.Scope
use chandlery.Odm.Query.Scope.{in_mode, with_trashed_mode, require_soft_deletes}
use chandlery.Odm.Query.Eager
use chandlery.Odm.Query.Eager.{added}
use chandlery.Odm.Query.Calls.{
  Call, condition, select, exclude, latest, oldest, limit, skip, set, unset, inc, increment,
  decrement, push, pull, add_to_set, without_timestamps, with_trashed, only_trashed, with_relations,
  build, build_all,
}
use chandlery.Odm.Query.Keeps.{
  IsDistinct, is_sort, Keeps, Keeps-with_error, Keeps-apply, Keeps-trans, Keeps-select,
  Keeps-exclude,
}

-- Sorts, limits and skips.
snoc-directions :
    (sorts : Sorts) (f : String) (d : ℤ)
    → all is_sort sorts ≡ true
    → is_direction d ≡ true
    → all is_sort (sorts ++ (f, int d) ∷ []) ≡ true
snoc-directions sorts f d h e = all-append is_sort sorts ((f, int d) ∷ []) ∙ rw (h, e)

Keeps-order_by : (q : Query) (f : String) (d : ℤ) → Keeps q (order_by q f d)
unfolding order_by
Keeps-order_by q f d = elim (Bool-cases (is_direction d)) [
  | inl e ↦ rw e (record {
    formed = λ h. record {
      targets = h.targets;
      legal = h.legal;
      directions = snoc-directions q.sorts f d h.directions e;
      limit_nonneg = h.limit_nonneg;
      skip_nonneg = h.skip_nonneg;
    };
    error = λ x h. h;
  })
  | inr e ↦ rw e (Keeps-with_error q _)
]

Keeps-order_by_loop : (d : ℤ) (q : Query) (fs : List String) → Keeps q (order_by_loop d q fs)
unfolding order_by_loop
Keeps-order_by_loop d q [] = record { formed = λ h. h; error = λ e h. h }
Keeps-order_by_loop d q (f ∷ fs) =
    Keeps-trans (Keeps-order_by q f d) (Keeps-order_by_loop d (order_by q f d) fs)

Keeps-order_by_each : (d : ℤ) (q : Query) (fs : List String) → Keeps q (order_by_each d q fs)
unfolding order_by_each
Keeps-order_by_each d q [] = Keeps-order_by q "created_at" d
Keeps-order_by_each d q (f ∷ fs) = Keeps-order_by_loop d q (f ∷ fs)

Keeps-limit : (q : Query) (n : ℤ) → Keeps q (Sort.limit q n)
unfolding Sort.limit
Keeps-limit q n = elim (Bool-cases (is_neg n)) [
  | inl e ↦ rw e (Keeps-with_error q _)
  | inr e ↦ rw e (record { formed = λ h. ground (arith, e); error = λ x h. h })
]

Keeps-skip : (q : Query) (n : ℤ) → Keeps q (Sort.skip q n)
unfolding Sort.skip
Keeps-skip q n = elim (Bool-cases (is_neg n)) [
  | inl e ↦ rw e (Keeps-with_error q _)
  | inr e ↦ rw e (record { formed = λ h. ground (arith, e); error = λ x h. h })
]

-- Staged operations.
staged_on-snoc :
    (f : String) (ops : List UpdateOp) (op : UpdateOp)
    → staged_on f ops ≡ none
    → str_eq op.target f ≡ false
    → staged_on f (ops ++ op ∷ []) ≡ none
unfolding staged_on
staged_on-snoc f [] op h e = ground (arith, e)
staged_on-snoc f (o ∷ ops) op h e = ground (arith, staged_on-snoc f ops op, e)

pub snoc-IsDistinct :
    (ops : List UpdateOp) (op : UpdateOp)
    → IsDistinct ops
    → staged_on op.target ops ≡ none
    → IsDistinct (ops ++ op ∷ [])
unfolding staged_on
snoc-IsDistinct [] op h e = (refl, tt)
snoc-IsDistinct (o ∷ ops) op h e = ground (
  arith,
  snoc-IsDistinct ops op h.1,
  staged_on-snoc o.target ops op h.0,
  str_eq_iff o.target op.target,
  str_eq_iff op.target o.target,
)

Keeps-stage :
    (call operator : String) (q : Query) (f : String) (v : Value) (o : Option UpdateOp)
    → staged_on f q.updates ≡ o
    → Keeps q (stage call operator q f v o)
Keeps-stage call operator q f v (some x) s = Keeps-with_error q _
Keeps-stage call operator q f v none s = record {
  formed = λ h. record {
    targets = snoc-IsDistinct q.updates _ h.targets s;
    legal = h.legal;
    directions = h.directions;
    limit_nonneg = h.limit_nonneg;
    skip_nonneg = h.skip_nonneg;
  };
  error = λ x h. h;
}

Keeps-with_update :
    (call operator : String) (q : Query) (f : String) (v : Value)
    → Keeps q (with_update call operator q f v)
unfolding with_update
Keeps-with_update call operator q f v = Keeps-stage call operator q f v _ refl

Keeps-in_mode : (mode : TrashedMode) (q : Query) (o : Option Error) → Keeps q (in_mode mode q o)
Keeps-in_mode mode q none = record { formed = λ h. h; error = λ e h. h }
Keeps-in_mode mode q (some e) = Keeps-with_error q e

Keeps-added : (q : Query) (rs : List Relation) (o : Option Reason) → Keeps q (added q rs o)
Keeps-added q rs none = record { formed = λ h. h; error = λ e h. h }
Keeps-added q rs (some r) = Keeps-with_error q _

Keeps-build : (q : Query) (c : Call) → Keeps q (build q c)
unfolding build Sort.latest Sort.oldest Update.set Update.unset Update.inc Update.increment
    Update.decrement Update.push Update.pull Update.add_to_set Update.without_timestamps
    Scope.with_trashed Scope.only_trashed with_trashed_mode Eager.with_relations
Keeps-build q (condition c) = Keeps-apply q c
Keeps-build q (select fs) = Keeps-select q fs
Keeps-build q (exclude fs) = Keeps-exclude q fs
Keeps-build q (Call.order_by f d) = Keeps-order_by q f d
Keeps-build q (latest fs) = Keeps-order_by_each Sort.desc q fs
Keeps-build q (oldest fs) = Keeps-order_by_each Sort.asc q fs
Keeps-build q (limit n) = Keeps-limit q n
Keeps-build q (skip n) = Keeps-skip q n
Keeps-build q (set f v) = Keeps-with_update "Set" "$set" q f v
Keeps-build q (unset f) = Keeps-with_update "Unset" "$unset" q f _
Keeps-build q (inc f v) = Keeps-with_update "Inc" "$inc" q f v
Keeps-build q (increment f by) = Keeps-with_update "Inc" "$inc" q f _
Keeps-build q (decrement f by) = Keeps-with_update "Inc" "$inc" q f _
Keeps-build q (push f v) = Keeps-with_update "Push" "$push" q f v
Keeps-build q (pull f v) = Keeps-with_update "Pull" "$pull" q f v
Keeps-build q (add_to_set f v) = Keeps-with_update "AddToSet" "$addToSet" q f v
Keeps-build q without_timestamps = record { formed = λ h. h; error = λ e h. h }
Keeps-build q with_trashed = Keeps-in_mode _ q (require_soft_deletes "WithTrashed" q)
Keeps-build q only_trashed = Keeps-in_mode _ q (require_soft_deletes "OnlyTrashed" q)
Keeps-build q (with_relations rs) = Keeps-added q rs _

Keeps-build_all : (q : Query) (cs : List Call) → Keeps q (build_all q cs)
unfolding build_all
Keeps-build_all q [] = record { formed = λ h. h; error = λ e h. h }
Keeps-build_all q (c ∷ cs) = Keeps-trans (Keeps-build q c) (Keeps-build_all (build q c) cs)

-- The first error of a chain is the one that stays, whatever is called after it.
build_all-error :
    (q : Query) (cs : List Call) (e : Error) → q.error ≡ some e → (build_all q cs).error ≡ some e
build_all-error q cs e h = (Keeps-build_all q cs).error e h
