-- ===== src/Expression/Eval/Keeps/Steps.antt =====
-- The steps of `execute` of src/expression_engine/expressions.rs on values and cells, and the variables and cells
-- behind them.
use ru_fsm.Common.{
  Result, success, failure, ℕ, ◌≤◌, ◌≡◌, refl, arith, Bool, true, false, not, ◌&&◌, Option, none,
  some, List, [], ◌∷◌, ◌++◌, length, length-append, ◌==◌, nat_eq, Run, ok, stuck, panic,
}
use ru_fsm.Common.After.{After, After-bind, if-After}
use ru_fsm.Common.Float.{Float}
use ru_fsm.Common.Str.{Str}
use ru_fsm.Datamodel.Cells.{
  Heap, Fields, create_data_arc, find, insert, read, set_undefined, set_undefined_arc,
  set_undefined_entry,
}
use ru_fsm.Datamodel.Value.{DataArc, Value, string, boolean, array, map, error, source}
use ru_fsm.Expression.Eval.{Context}
use ru_fsm.Expression.Eval.Access.{
  member_at, keyed, indexed, item_at, item_of, variable_at, with_field, plain, execute_variable,
  member_of, index_of, put, assign_to, overwrite, operate, operation, negate,
}
use ru_fsm.Expression.Token.{Operator}
use ru_fsm.Datamodel.Operations.{joined, pushed, is_numeric, operation_plus, with_heap}
use ru_fsm.Common.Int.{ℤ}
use ru_fsm.Expression.Eval.Keeps.{
  Keeps, Keeps-refl, Keeps-trans, Kept, grown-Keeps, fresh-Keeps, written-Keeps, kept-Grows,
  undefined-Keeps, length-write_at,
}

module _ (F : Float) where
  member_at-Keeps :
      (o : Option DataArc) (key why : Str) (allow : Bool) (a : DataArc) (m : Fields) (g : Context)
      → Keeps g (member_at o key why allow a m g).1
  unfolding member_at create_data_arc
  member_at-Keeps (some b) key why allow a m g = Keeps-refl g
  member_at-Keeps none key why false a m g = Keeps-refl g
  member_at-Keeps none key why true a m g = grown-Keeps g _ (
      omega (
        arith,
        length-write_at (g.heap ++ Value.none ∷ []) a.arc
            (map (insert key (record { arc = length g.heap; readonly = false }) m)),
        length-append g.heap (Value.none ∷ []),
      ))

  pub member_of-Keeps :
      (name : Str) (allow : Bool) (a : DataArc) (g : Context) (v : Value)
      → Keeps g (member_of F name allow a g v).1
  unfolding member_of
  member_of-Keeps name allow a g (map m) = member_at-Keeps (find name m) name _ allow a m g
  member_of-Keeps name allow a g (error err) = Keeps-refl g
  member_of-Keeps name allow a g _ = Keeps-refl g

  keyed-Keeps :
      (key : Result Str) (allow : Bool) (a : DataArc) (m : Fields) (g : Context)
      → Keeps g (keyed key allow a m g).1
  unfolding keyed
  keyed-Keeps (failure err) allow a m g = Keeps-refl g
  keyed-Keeps (success key) allow a m g = member_at-Keeps (find key m) key _ allow a m g

  indexed-Keeps :
      (o : Option ℤ) (items : List DataArc) (g : Context) → Keeps g (indexed o items g).1
  unfolding indexed item_at
  indexed-Keeps none items g = Keeps-refl g
  indexed-Keeps (some i) items g =
      let go : (b : Option DataArc) → Keeps g (item_at b i (length items) g).1 = elim [
        | none ↦ Keeps-refl g
        | some b ↦ Keeps-refl g
      ] in
      go (item_of i items)

  pub index_of-Kept :
      (allow : Bool) (a i : DataArc) (g : Context) (v : Value)
      → After (Kept g) (index_of F allow a i g v)
  unfolding index_of
  index_of-Kept allow a i g (map m) = keyed-Keeps _ allow a m g
  index_of-Kept allow a i g (array items) =
      if-After (Kept g) (a.arc == i.arc) stuck _ tt (indexed-Keeps _ items g)
  index_of-Kept allow a i g (error err) = Keeps-refl g
  index_of-Kept allow a i g _ = Keeps-refl g

  pub assign_to-Kept :
      (a b : DataArc) (g : Context) (v : Value) → After (Kept g) (assign_to F a b g v)
  unfolding assign_to put
  assign_to-Kept a b g (error err) = Keeps-refl g
  assign_to-Kept a b g Value.none = Keeps-refl g
  assign_to-Kept a b g v =
      if-After (Kept g) a.readonly _ _ (Keeps-refl g)
        (if-After (Kept g) (a.arc == b.arc) stuck _ tt (written-Keeps g a.arc v))

  pub overwrite-Kept : (a b : DataArc) (g : Context) → After (Kept g) (overwrite a b g)
  unfolding overwrite
  overwrite-Kept a b g =
      if-After (Kept g) (a.arc == b.arc) stuck _ tt (written-Keeps g a.arc (read g.heap b))

  variable_at-Keeps :
      (o : Option DataArc) (name : Str) (allow : Bool) (g : Context)
      → find name g.data_ ≡ o
      → Keeps g (variable_at o name allow g).1
  unfolding variable_at with_field set_undefined set_undefined_arc set_undefined_entry
      create_data_arc
  variable_at-Keeps (some a) name allow g e = Keeps-refl g
  variable_at-Keeps none name false g e = Keeps-refl g
  variable_at-Keeps none name true g e = rw e (
      undefined-Keeps name g (record { arc = length g.heap; readonly = false })
        (g.heap ++ Value.none ∷ []) e (omega (arith, length-append g.heap (Value.none ∷ []))))

  pub execute_variable-Keeps :
      (name : Str) (allow : Bool) (g : Context) → Keeps g (execute_variable name allow g).1
  unfolding execute_variable
  execute_variable-Keeps name allow g = variable_at-Keeps (find name g.data_) name allow g refl

  joined-Grows :
      (h : Heap) (locked : List ℕ) (l r : Value) → length h ≤ length (joined F h locked l r).1
  unfolding joined pushed create_data_arc
  joined-Grows h locked l (error err) = omega arith
  joined-Grows h locked (error err) r = omega arith
  joined-Grows h locked (string s) r = omega arith
  joined-Grows h locked (source s id) r = omega arith
  joined-Grows h locked (array a) (array b) = omega arith
  joined-Grows h locked (array a) r = omega (arith, length-append h (r ∷ []))
  joined-Grows h locked l (string s) = omega arith
  joined-Grows h locked l (source s id) = omega arith
  joined-Grows h locked (map m) (map n) = omega arith
  joined-Grows h locked (boolean a) (boolean b) = omega arith
  joined-Grows h locked _ _ = omega arith

  with_heap-Grows :
      (h : Heap) (m : Run Value)
      → After (λ (x : Value × Heap). length h ≤ length x.1) (with_heap h m)
  unfolding with_heap
  with_heap-Grows h stuck = tt
  with_heap-Grows h panic = tt
  with_heap-Grows h (ok v) = omega arith

  operation-Grows :
      (h : Heap) (locked : List ℕ) (l : Value) (op : Operator) (r : Value)
      → After (λ (x : Value × Heap). length h ≤ length x.1) (operation F h locked l op r)
  unfolding operation operation_plus plain with_heap
  operation-Grows h locked l Operator.plus r =
      if-After _ (is_numeric l && is_numeric r) _ _ (with_heap-Grows h _)
        (joined-Grows h locked l r)
  operation-Grows h locked l Operator.multiply r = kept-Grows h _
  operation-Grows h locked l Operator.minus r = kept-Grows h _
  operation-Grows h locked l Operator.equal r = kept-Grows h _
  operation-Grows h locked l Operator.not_equal r = kept-Grows h _
  operation-Grows h locked l Operator.modulus r = kept-Grows h _
  operation-Grows h locked l _ r = omega arith

  pub operate-Kept :
      (op : Operator) (a b : DataArc) (g : Context) → After (Kept g) (operate F op a b g)
  unfolding operate
  operate-Kept op a b g =
      After-bind (λ (x : Value × Heap). length g.heap ≤ length x.1) (Kept g) _ _
        (operation-Grows g.heap _ (read g.heap a) op (read g.heap b))
        (λ x le. Keeps-trans (grown-Keeps g x.1 le) (fresh-Keeps (record g { heap = x.1 }) x.0))

  pub negate-Keeps : (g : Context) (v : Value) → Keeps g (negate g v).1
  unfolding negate
  negate-Keeps g (boolean b) = fresh-Keeps g (boolean (not b))
  negate-Keeps g _ = Keeps-refl g
