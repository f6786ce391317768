-- ===== src/Expression/Eval/Assign.antt =====
-- Assignments to a variable: `ExpressionAssign` and `ExpressionAssignUndefined` of
-- src/expression_engine/expressions.rs.
use ru_fsm.Common.{
  success, failure, ℕ, suc, zero, ◌<◌, ◌≡◌, ◌≢◌, refl, ap, subst, ◌∙◌, arith, Bool, true, false,
  some, [], ◌∷◌, length, get_elem?, if◌then◌else◌, ◌==◌, nat_eq, Run, ok, stuck,
}
use ru_fsm.Common.After.{After}
use ru_fsm.Common.Float.{Float}
use ru_fsm.Common.Str.{Str}
use ru_fsm.Datamodel.Cells.{Heap, read, content, write, write_at, find}
use ru_fsm.Datamodel.Value.{DataArc, Value}
use ru_fsm.Expression.Eval.{Context, Actions}
use ru_fsm.Expression.Eval.Access.{Outcome, execute_variable, variable_at, put, assign_to}
use ru_fsm.Expression.Eval.Run.{on, execute}
use ru_fsm.Expression.Eval.Keeps.{Keeps}
use ru_fsm.Expression.Eval.Keeps.Execute.{IsQuiet, execute-Keeps}
use ru_fsm.Expression.Syntax.{Expression, variable, assign, is_assignable}

-- What may be assigned.
abbrev pub is_data : Value → Bool
is_data (Value.error err) = false
is_data Value.none = false
is_data _ = true

if_true {ℓ} : {A : Type ℓ} (b : Bool) (x y : A) → b ≡ true → (if b then x else y) ≡ x
if_true true x y h = refl
if_true false x y h = cc

if_false {ℓ} : {A : Type ℓ} (b : Bool) (x y : A) → b ≡ false → (if b then x else y) ≡ y
if_false false x y h = refl
if_false true x y h = cc

content-write_at :
    (h : Heap) (i : ℕ) (v : Value) → i < length h → content (get_elem? (write_at h i v) i) ≡ v
unfolding content write_at
content-write_at [] i v lt = absurd (omega arith)
content-write_at (w ∷ h) zero v lt = refl
content-write_at (w ∷ h) (suc i) v lt = content-write_at h i v (omega arith)

read-write : (h : Heap) (a : DataArc) (v : Value) → a.arc < length h → read (write h a v) a ≡ v
unfolding read
read-write h a v lt = content-write_at h a.arc v lt

get_elem?-write_at :
    (h : Heap) (i j : ℕ) (v : Value) → j ≢ i → get_elem? (write_at h i v) j ≡ get_elem? h j
unfolding write_at
get_elem?-write_at [] i j v n = refl
get_elem?-write_at (w ∷ h) zero zero v n = absurd (n refl)
get_elem?-write_at (w ∷ h) zero (suc j) v n = refl
get_elem?-write_at (w ∷ h) (suc i) zero v n = refl
get_elem?-write_at (w ∷ h) (suc i) (suc j) v n = get_elem?-write_at h i j v (λ e. n (ap suc e))

assign_to-put :
    (F : Float) (a b : DataArc) (g : Context) (v : Value)
    → is_data v ≡ true
    → assign_to F a b g v ≡ put F a b g v
unfolding assign_to
assign_to-put F a b g (Value.error err) d = cc
assign_to-put F a b g Value.none d = cc
assign_to-put F a b g _ d = refl

put_other :
    (F : Float) (a b : DataArc) (g : Context) (v : Value)
    → a.readonly ≡ false
    → a.arc ≢ b.arc
    → put F a b g v ≡ ok (success a, record g { heap = write g.heap a v })
unfolding put
put_other F a b g v w n = if_false a.readonly _ _ w ∙ if_false (a.arc == b.arc) _ _ (ground arith)

put_same :
    (F : Float) (a : DataArc) (g : Context) (v : Value) → a.readonly ≡ false → put F a a g v ≡ stuck
unfolding put
put_same F a g v w = if_false a.readonly _ _ w ∙ if_true (a.arc == a.arc) _ _ (ground arith)

-- A read-only reference is not written to.
assign_to-ReadOnly :
    (F : Float) (a b : DataArc) (g : Context) (v : Value)
    → a.readonly ≡ true
    → (why : Str) × (assign_to F a b g v ≡ ok (failure why, g))
unfolding assign_to put
assign_to-ReadOnly F a b g (Value.error err) w = (_, refl)
assign_to-ReadOnly F a b g Value.none w = (_, refl)
assign_to-ReadOnly F a b g _ w = (_, if_true a.readonly _ _ w)

execute_variable_defined :
    (x : Str) (allow : Bool) (g : Context) (a : DataArc)
    → find x g.data_ ≡ some a
    → execute_variable x allow g ≡ (success a, g)
unfolding execute_variable variable_at
execute_variable_defined x allow g a e = rw e refl

-- The run returns the reference `a`, behind which the cell has the value, and leaves all else of `h`.
pub record Written (run : Run Outcome) (a : DataArc) (v : Value) (h : Context) : Type 0 where
  pub context : Context
  pub returns : run ≡ ok (success a, context)
  pub value : read context.heap a ≡ v
  pub others : (i : ℕ) → i ≢ a.arc → get_elem? context.heap i ≡ get_elem? h.heap i
  pub names : context.data_ ≡ h.data_

variables_of :
    (m : Run Outcome) (x : Str) (g h : Context) (a b : DataArc)
    → After (λ (r : Outcome). Keeps g r.1) m
    → m ≡ ok (success b, h)
    → find x g.data_ ≡ some a
    → find x h.data_ ≡ some a
variables_of m x g h a b p e f = (subst (After (λ (r : Outcome). Keeps g r.1)) e p).variables x a f

module _ (F : Float) (actions : Actions) (quiet : IsQuiet actions) (x : Str) (e : Expression)
    (g : Context) (allow : Bool) (a : DataArc) (b : DataArc) (h : Context)
    (defined : find x g.data_ ≡ some a)
    (right : execute F actions e g false ≡ ok (success b, h)) where
  still_defined : find x h.data_ ≡ some a
  still_defined =
      variables_of (execute F actions e g false) x g h a b (execute-Keeps F actions quiet e g false)
        right defined

  assign_lem : execute F actions (assign (variable x) e) g allow ≡ assign_to F a b h (read h.heap b)
  unfolding execute on is_assignable
  assign_lem = rw right (rw (execute_variable_defined x allow h a still_defined) refl)

  -- An assignment to a variable that is defined and not read-only, whose cell is on the heap, with a right side that is
  -- evaluated to another cell with neither an error nor nothing in it: the variable's cell takes the value, and behind
  -- the right side no other cell and no variable changes. The registered actions keep the cells.
  pub assign-Written :
      is_data (read h.heap b) ≡ true
      → a.readonly ≡ false
      → a.arc ≢ b.arc
      → a.arc < length h.heap
      → Written (execute F actions (assign (variable x) e) g allow) a (read h.heap b) h
  assign-Written d w n lt = record {
    context = record h { heap = write h.heap a (read h.heap b) };
    returns =
        assign_lem
        ∙ assign_to-put F a b h (read h.heap b) d
        ∙ put_other F a b h (read h.heap b) w n;
    value = read-write h.heap a (read h.heap b) lt;
    others = λ i m. get_elem?-write_at h.heap a.arc i (read h.heap b) m;
    names = refl;
  }

  -- An assignment to a variable that is defined and read-only, with a right side that is evaluated: the result is an
  -- error, and nothing changes behind the right side. The registered actions keep the cells.
  pub assign-ReadOnly :
      a.readonly ≡ true
      → (why : Str) × (execute F actions (assign (variable x) e) g allow ≡ ok (failure why, h))
  assign-ReadOnly w =
      let (why, e) = assign_to-ReadOnly F a b h (read h.heap b) w in (why, assign_lem ∙ e)

-- A variable that is defined and not read-only, with neither an error nor nothing as its value, is assigned to itself:
-- the run does not return, since it waits for a lock that it holds.
pub assign_self :
    (F : Float) (actions : Actions) (x : Str) (g : Context) (allow : Bool) (a : DataArc)
    → find x g.data_ ≡ some a
    → is_data (read g.heap a) ≡ true
    → a.readonly ≡ false
    → execute F actions (assign (variable x) (variable x)) g allow ≡ stuck
unfolding execute on is_assignable
assign_self F actions x g allow a f d w = rw (execute_variable_defined x false g a f) (
    rw (execute_variable_defined x allow g a f)
      (assign_to-put F a a g (read g.heap a) d ∙ put_same F a g (read g.heap a) w))
