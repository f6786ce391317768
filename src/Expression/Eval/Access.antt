-- ===== src/Expression/Eval/Access.antt =====
-- The steps of `execute` of src/expression_engine/expressions.rs that work on values and cells.
use ru_fsm.Common.{
  Result, success, failure, ℕ, suc, Bool, true, false, not, Option, none, some, List, [], ◌∷◌, ◌++◌,
  get_elem?, length, if◌then◌else◌, ◌==◌, nat_eq, Run, ok, stuck, ◌>>=◌,
}
use ru_fsm.Common.Decimal.{show_int, show_nat}
use ru_fsm.Common.Float.{Float}
use ru_fsm.Common.Int.{ℤ, pos, negsuc}
use ru_fsm.Common.Str.{Str, codes}
use ru_fsm.Datamodel.Cells.{Heap, Fields, create_data_arc, read, write, find, insert, set_undefined}
use ru_fsm.Datamodel.Equality.{operation_equal, operation_not_equal}
use ru_fsm.Datamodel.Operations.{
  numeric_to_integer, operation_plus, operation_and, operation_or, operation_minus,
  operation_multiply, operation_divide, operation_modulus, operation_less, operation_less_equal,
  operation_greater, operation_greater_equal,
}
use ru_fsm.Datamodel.Text.{show_arc, to_string, data_arc_to_string}
use ru_fsm.Datamodel.Value.{DataArc, Value, boolean, array, map, error}
use ru_fsm.Expression.Eval.{Context}
use ru_fsm.Expression.Token.{
  Operator, multiply, divide, plus, minus, less, less_equal, greater, greater_equal, assign,
  assign_undefined, equal, not_equal, and, or, modulus,
}

-- What `execute` returns, with the context behind it.
abbrev pub Outcome : Type 0
Outcome = Result DataArc × Context

abbrev pub fail : Context → Str → Outcome
fail g why = (failure why, g)

-- `Ok(create_data_arc(v))`
unfoldable pub fresh : Context → Value → Outcome
fresh g v = let (a, h) = create_data_arc v g.heap in (success a, record g { heap = h })

unfoldable pub with_field : DataArc → Fields × Heap → Outcome
with_field a (m, h) = (success a, record { data_ = m; heap = h })

unfoldable pub variable_at : Option DataArc → Str → Bool → Context → Outcome
unfolding with_field
variable_at (some a) name allow g = (success a, g)
variable_at none name true g =
    with_field (create_data_arc Value.none g.heap).0 (set_undefined name Value.none g.data_ g.heap)
variable_at none name false g = fail g (codes "Variable '" ++ name ++ codes "' not found")

-- `ExpressionVariable::execute`
unfoldable pub execute_variable : Str → Bool → Context → Outcome
unfolding variable_at
execute_variable name allow g = variable_at (find name g.data_) name allow g

-- the member `key` of the map `m` in the cell `a`; a missing one is made, if that is allowed
unfoldable pub member_at : Option DataArc → Str → Str → Bool → DataArc → Fields → Context → Outcome
member_at (some b) key why allow a m g = (success b, g)
member_at none key why true a m g =
    let (b, h) = create_data_arc Value.none g.heap in
    (success b, record g { heap = write h a (map (insert key b m)) })
member_at none key why false a m g = fail g why

no_members : Str → Str
no_members v = codes "Value '" ++ v ++ codes "' has no members"

-- `ExpressionMemberAccess::execute` on the value of the left side, in the cell `a`
unfoldable pub member_of : Float → Str → Bool → DataArc → Context → Value → Outcome
unfolding member_at no_members
member_of F name allow a g (map m) =
    member_at (find name m) name (codes "Member " ++ name ++ codes " not found") allow a m g
member_of F name allow a g (error err) = fail g err
member_of F name allow a g v = fail g (no_members (to_string F g.heap (a.arc ∷ []) v))

unfoldable pub keyed : Result Str → Bool → DataArc → Fields → Context → Outcome
unfolding member_at
keyed (failure err) allow a m g = fail g err
keyed (success key) allow a m g =
    member_at (find key m) key (codes "Index '" ++ key ++ codes "' not found") allow a m g

unfoldable pub item_at : Option DataArc → ℤ → ℕ → Context → Outcome
item_at (some b) i n g = (success b, g)
item_at none i n g =
    fail g (codes "Index not found: " ++ show_int i ++ codes " (len=" ++ show_nat n ++ codes ")")

-- `index as usize` of a number below 0 is beyond every array
unfoldable pub item_of : ℤ → List DataArc → Option DataArc
item_of (pos n) items = get_elem? items n
item_of (negsuc n) items = none

unfoldable pub indexed : Option ℤ → List DataArc → Context → Outcome
unfolding item_at item_of
indexed (some i) items g = item_at (item_of i items) i (length items) g
indexed none items g = fail g (codes "Illegal index type '<locked arc>'")

-- `ExpressionIndex::execute` on the value in the cell `a`, which is locked, and on the index in the cell `i`
unfoldable pub index_of : Float → Bool → DataArc → DataArc → Context → Value → Run Outcome
unfolding keyed indexed
index_of F allow a i g (map m) =
    ok (keyed (data_arc_to_string (suc (length g.heap)) F g.heap (a.arc ∷ []) i) allow a m g)
index_of F allow a i g (array items) =
    if a.arc == i.arc then stuck else ok (indexed (numeric_to_integer F (read g.heap i)) items g)
index_of F allow a i g (error err) = ok (fail g err)
index_of F allow a i g v =
    ok (fail g (codes "Can't apply index on '" ++ to_string F g.heap (a.arc ∷ []) v ++ codes "'"))

-- the assignment of data, unless the reference is read-only; the error names the value, which is locked if it is the
-- right side
unfoldable pub put : Float → DataArc → DataArc → Context → Value → Run Outcome
put F a b g v =
    if a.readonly
    then ok (
        fail g
          (codes "Can't set read-only " ++ show_arc (suc (length g.heap)) F g.heap (b.arc ∷ []) a))
    else if a.arc == b.arc
    then stuck
    else ok (success a, record g { heap = write g.heap a v })

-- `ExpressionAssign::execute` on the cell `a` of the left side and the locked cell `b` of the right side: to write to
-- the locked cell itself is to wait for ever
unfoldable pub assign_to : Float → DataArc → DataArc → Context → Value → Run Outcome
assign_to F a b g (error err) = ok (fail g (codes "Can't assign from 'Error " ++ err ++ codes "'"))
assign_to F a b g Value.none = ok (fail g (codes "Can't assign from ''"))
assign_to F a b g v = put F a b g v

-- `ExpressionAssignUndefined::execute` on the cells of both sides
unfoldable pub overwrite : DataArc → DataArc → Context → Run Outcome
overwrite a b g =
    if a.arc == b.arc
    then stuck
    else ok (success a, record g { heap = write g.heap a (read g.heap b) })

unfoldable pub plain : Heap → Value → Run (Value × Heap)
plain h v = ok (v, h)

unfoldable pub kept : Heap → Run Value → Run (Value × Heap)
kept h m = do v ← m; ok (v, h)

-- `ExpressionOperator::operation`, while the cells in `locked` are locked
unfoldable pub operation : Float → Heap → List ℕ → Value → Operator → Value → Run (Value × Heap)
unfolding plain kept
operation F h locked l multiply r = kept h (operation_multiply F l r)
operation F h locked l divide r = plain h (operation_divide F l r)
operation F h locked l plus r = operation_plus F h locked l r
operation F h locked l minus r = kept h (operation_minus F l r)
operation F h locked l less r = plain h (operation_less F l r)
operation F h locked l less_equal r = plain h (operation_less_equal F l r)
operation F h locked l greater r = plain h (operation_greater F l r)
operation F h locked l greater_equal r = plain h (operation_greater_equal F l r)
operation F h locked l and r = plain h (operation_and l r)
operation F h locked l or r = plain h (operation_or l r)
operation F h locked l equal r = kept h (operation_equal F h locked l r)
operation F h locked l not_equal r = kept h (operation_not_equal F h locked l r)
operation F h locked l modulus r = kept h (operation_modulus F l r)
operation F h locked l assign r = plain h (error (codes "Internal Error"))
operation F h locked l assign_undefined r = plain h (error (codes "Internal Error"))
operation F h locked l Operator.not r = plain h (error (codes "Internal Error"))

-- the locks that `ExpressionOperator::execute` holds: of two references to one cell it reads one and locks the other
locks : DataArc → DataArc → List ℕ
locks a b = if a.arc == b.arc then b.arc ∷ [] else a.arc ∷ b.arc ∷ []

unfoldable pub operate : Float → Operator → DataArc → DataArc → Context → Run Outcome
unfolding locks
operate F op a b g = do
  r ← operation F g.heap (locks a b) (read g.heap a) op (read g.heap b)
  ok (fresh (record g { heap = r.1 }) r.0)

-- `ExpressionNot::execute` on the value of the right side
unfoldable pub negate : Context → Value → Outcome
negate g (boolean b) = fresh g (boolean (not b))
negate g v = fail g (codes "'!' can only be applied on boolean expressions.")
