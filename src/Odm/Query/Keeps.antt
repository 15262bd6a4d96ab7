-- ===== src/Odm/Query/Keeps.antt =====
-- What is kept by the builder methods of odm/query.go: well-formedness, and the first error; the
-- conditions and the projections.
use chandlery.Base.{
  String, ◌≡◌, Bool, true, false, Option, none, some, List, [], ◌∷◌, if◌then◌else◌, all,
}
use chandlery.Base.Int.{ℤ, is_neg}
use chandlery.Odm.Value.{Value, int, bson_array, is_nil}
use chandlery.Odm.Errors.{Error, Result, ok, err}
use chandlery.Odm.Filter.{comparison}
use chandlery.Odm.Query.{Query, UpdateOp, Sorts, Projection, ProjectionMode, with_error}
use chandlery.Odm.Query.Meaning.{
  Condition, filter_where, or_where, where_in, where_not_in, where_raw, apply,
}
use chandlery.Odm.Query.Where
use chandlery.Odm.Query.Where.{add_fragment, add_alternative, or_fragment, add_set}
use chandlery.Odm.Query.Projection
use chandlery.Odm.Query.Projection.Others.{select-keeps, exclude-keeps}
use chandlery.Odm.Query.Projection.Legal.{IsLegal, Legal, select-Legal, exclude-Legal}
use chandlery.Odm.Query.Sort.{is_direction}
use chandlery.Odm.Query.Update.{staged_on}

-- No field is targeted by two staged operations.
abbrev pub IsDistinct : List UpdateOp → Type 0
IsDistinct [] = Unit
IsDistinct (op ∷ ops) = (staged_on op.target ops ≡ none) × IsDistinct ops

-- A sort's value is 1 or -1.
abbrev pub is_sort : String × Value → Bool
is_sort (f, int d) = is_direction d
is_sort (f, _) = false

pub record IsBuilt (updates : List UpdateOp) (mode : ProjectionMode) (projection : Projection)
    (sorts : Sorts) (limit skip : ℤ) : Type 0 where
  pub targets : IsDistinct updates
  pub legal : IsLegal mode projection
  pub directions : all is_sort sorts ≡ true
  pub limit_nonneg : is_neg limit ≡ false
  pub skip_nonneg : is_neg skip ≡ false

abbrev pub IsWellFormed : Query → Type 0
IsWellFormed q = IsBuilt q.updates q.projection_mode q.projection q.sorts q.limit q.skip

-- What holds of all but the projection.
abbrev pub Rest : Query → Type 0
Rest q =
    IsDistinct q.updates
    × (all is_sort q.sorts ≡ true)
    × (is_neg q.limit ≡ false)
    × (is_neg q.skip ≡ false)

pub record Keeps (q q' : Query) : Type 0 where
  pub formed : IsWellFormed q → IsWellFormed q'
  pub error : (e : Error) → q.error ≡ some e → q'.error ≡ some e

pub Keeps-with_error : (q : Query) (e : Error) → Keeps q (with_error q e)
Keeps-with_error q e = record { formed = λ h. h; error = λ e' h. rw h }

pub Keeps-add_fragment : (q : Query) (r : Result Value) → Keeps q (add_fragment q r)
Keeps-add_fragment q (ok f) = record { formed = λ h. h; error = λ e h. h }
Keeps-add_fragment q (err e) = Keeps-with_error q e

pub Keeps-or_fragment : (q : Query) (fs : List Value) (f : Value) → Keeps q (or_fragment q fs f)
Keeps-or_fragment q [] f = record { formed = λ h. h; error = λ e h. h }
Keeps-or_fragment q (g ∷ fs) f = record { formed = λ h. h; error = λ e h. h }

pub Keeps-add_alternative : (q : Query) (r : Result Value) → Keeps q (add_alternative q r)
Keeps-add_alternative q (ok f) = Keeps-or_fragment q q.filters f
Keeps-add_alternative q (err e) = Keeps-with_error q e

pub Keeps-add_set :
    (call operator : String) (q : Query) (f : String) (o : Option (List Value))
    → Keeps q (add_set call operator q f o)
Keeps-add_set call operator q f none = Keeps-with_error q _
Keeps-add_set call operator q f (some vs) = record { formed = λ h. h; error = λ e h. h }

pub Keeps-if : (b : Bool) {q x y : Query} → Keeps q x → Keeps q y → Keeps q (if b then x else y)
Keeps-if true kx ky = kx
Keeps-if false kx ky = ky

pub Keeps-apply : (q : Query) (c : Condition) → Keeps q (apply q c)
unfolding apply Where.filter_where Where.or_where Where.where_in Where.where_not_in Where.where_set
    Where.where_null Where.where_not_null Where.where_between Where.where_not_between
    Where.where_raw
Keeps-apply q (filter_where f args) = Keeps-add_fragment q (comparison "Where" f args)
Keeps-apply q (or_where f args) = Keeps-add_alternative q (comparison "OrWhere" f args)
Keeps-apply q (where_in f vs) = Keeps-add_set "WhereIn" "$in" q f (bson_array vs)
Keeps-apply q (where_not_in f vs) = Keeps-add_set "WhereNotIn" "$nin" q f (bson_array vs)
Keeps-apply q (where_raw f) =
    Keeps-if (is_nil f) (Keeps-with_error q _) (record { formed = λ h. h; error = λ e h. h })
Keeps-apply q _ = record { formed = λ h. h; error = λ e h. h }

pub Keeps-trans : {p q r : Query} → Keeps p q → Keeps q r → Keeps p r
Keeps-trans k l = record {
  formed = λ h. l.formed (k.formed h);
  error = λ e h. l.error e (k.error e h);
}

pub projection-Keeps :
    (q q' : Query)
    → (Rest q → Rest q')
    → (Legal q → Legal q')
    → ((e : Error) → q.error ≡ some e → q'.error ≡ some e)
    → Keeps q q'
projection-Keeps q q' rest legal error = record {
  formed = λ h.
      let r = rest (h.targets, h.directions, h.limit_nonneg, h.skip_nonneg) in
      record {
        targets = r.0;
        legal = legal h.legal;
        directions = r.1;
        limit_nonneg = r.2;
        skip_nonneg = r.3;
      };
  error = error;
}

pub Keeps-select : (q : Query) (fs : List String) → Keeps q (Projection.select q fs)
Keeps-select q fs =
    projection-Keeps q (Projection.select q fs) (select-keeps Rest (λ n p m h. h) (λ n e h. h) q fs)
      (select-Legal q fs)
      (λ e. select-keeps (λ n. n.error ≡ some e) (λ n p m h. h) (λ n e' h. rw h) q fs)

pub Keeps-exclude : (q : Query) (fs : List String) → Keeps q (Projection.exclude q fs)
Keeps-exclude q fs =
    projection-Keeps q (Projection.exclude q fs)
      (exclude-keeps Rest (λ n p m h. h) (λ n e h. h) q fs) (exclude-Legal q fs)
      (λ e. exclude-keeps (λ n. n.error ≡ some e) (λ n p m h. h) (λ n e' h. rw h) q fs)
