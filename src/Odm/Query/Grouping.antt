-- ===== src/Odm/Query/Grouping.antt =====
-- odm/update.go: compileUpdate groups the staged operations by operator.
use chandlery.Base.{
  String, ◌≡◌, refl, ◌∙◌, Bool, true, false, Option, none, some, List, [], ◌∷◌, ◌++◌, map, arith,
  str_eq, str_eq_iff, if◌then◌else◌, append_assoc, append-nil, filter,
}
use chandlery.Base.Assoc.{lookup}
use chandlery.Odm.Value.{Value}
use chandlery.Odm.Query.{UpdateOp}
use chandlery.Odm.Query.Update.{Update, add_op, compile_loop, compile_update}

-- The fields under an operator.
abbrev list_or : Option (List (String × Value)) → List (String × Value)
list_or none = []
list_or (some es) = es

abbrev pub under : String → Update → List (String × Value)
under o u = list_or (lookup o u)

abbrev pub entry_of : UpdateOp → String × Value
entry_of op = (op.target, op.value)

abbrev pub uses : String → UpdateOp → Bool
uses o op = str_eq op.operator o

-- No operator twice.
abbrev pub IsKeyed : Update → Type 0
IsKeyed [] = Unit
IsKeyed ((o, es) ∷ u) = (lookup o u ≡ none) × IsKeyed u

under-add_op :
    (o : String) (u : Update) (op : UpdateOp)
    → under o (add_op u op) ≡ (if uses o op then under o u ++ entry_of op ∷ [] else under o u)
unfolding add_op lookup
under-add_op o [] op = ground arith
under-add_op o ((k, es) ∷ u) op =
    ground (
      arith,
      under-add_op o u op,
      str_eq_iff k op.operator,
      str_eq_iff k o,
      str_eq_iff op.operator o,
    )

lookup-add_op :
    (o : String) (u : Update) (op : UpdateOp)
    → lookup o u ≡ none
    → str_eq op.operator o ≡ false
    → lookup o (add_op u op) ≡ none
unfolding add_op lookup
lookup-add_op o [] op h e = ground (arith, e)
lookup-add_op o ((k, es) ∷ u) op h e = ground (
  arith,
  lookup-add_op o u op,
  str_eq_iff k op.operator,
  str_eq_iff k o,
  str_eq_iff op.operator o,
)

add_op-IsKeyed : (u : Update) (op : UpdateOp) → IsKeyed u → IsKeyed (add_op u op)
unfolding add_op lookup
add_op-IsKeyed [] op h = (refl, tt)
add_op-IsKeyed ((k, es) ∷ u) op h = ground (
  arith,
  lookup-add_op k u op,
  add_op-IsKeyed u op h.1,
  str_eq_iff k op.operator,
  str_eq_iff op.operator k,
)

under-compile_loop :
    (o : String) (u : Update) (ops : List UpdateOp)
    → under o (compile_loop u ops) ≡ under o u ++ map entry_of (filter (uses o) ops)
unfolding compile_loop
under-compile_loop o u [] = rw append-nil
under-compile_loop o u (op ∷ ops) =
    under-compile_loop o (add_op u op) ops ∙ rw under-add_op (regroup (uses o op))
  where
    regroup :
        (b : Bool)
        → (if b then under o u ++ entry_of op ∷ [] else under o u)
            ++ map entry_of (filter (uses o) ops)
          ≡ under o u ++ map entry_of (if b then op ∷ filter (uses o) ops else filter (uses o) ops)
    regroup true = rw append_assoc
    regroup false = refl

compile_loop-IsKeyed : (u : Update) (ops : List UpdateOp) → IsKeyed u → IsKeyed (compile_loop u ops)
unfolding compile_loop
compile_loop-IsKeyed u [] h = h
compile_loop-IsKeyed u (op ∷ ops) h = compile_loop-IsKeyed (add_op u op) ops (add_op-IsKeyed u op h)

-- Under each operator the compiled document has exactly the operations staged with it, in the order
-- they were staged, and no operator stands in it twice.
pub compile_update-groups :
    (ops : List UpdateOp) (o : String)
    → (under o (compile_update ops) ≡ map entry_of (filter (uses o) ops))
      × IsKeyed (compile_update ops)
unfolding compile_update lookup
compile_update-groups ops o = (under-compile_loop o [] ops, compile_loop-IsKeyed [] ops tt)
