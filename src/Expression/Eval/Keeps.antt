-- ===== src/Expression/Eval/Keeps.antt =====
-- The variables and cells behind `execute` of src/expression_engine/expressions.rs.
pub mod Steps
pub mod Execute
use ru_fsm.Common.{
  Result, success, failure, ℕ, suc, zero, ◌+◌, ◌≤◌, ◌≡◌, ◌≢◌, refl, sym, ap, ◌∙◌, arith, Bool, true,
  false, not, ◌&&◌, Bool-cases, inl, inr, Option, none, some, List, [], ◌∷◌, ◌++◌, length,
  length-append, if◌then◌else◌, ◌==◌, nat_eq, Run, ok, stuck, panic, ◌>>=◌, Option-cases,
}
use ru_fsm.Common.After.{After, After-bind, After-weaken, if-After}
use ru_fsm.Common.Float.{Float}
use ru_fsm.Common.Str.{Str}
use ru_fsm.Datamodel.Cells.{
  Heap, Fields, create_data_arc, write_at, find, insert, read, set_undefined, set_undefined_arc,
  set_undefined_entry,
}
use ru_fsm.Datamodel.Cells.Store.{find-insert_other}
use ru_fsm.Datamodel.Value
use ru_fsm.Datamodel.Value.{
  DataArc, Value, integer, double, string, boolean, array, map, null, error, source,
}
use ru_fsm.Expression.Eval.{Context, Actions}
use ru_fsm.Expression.Eval.Access.{
  Outcome, fresh, member_at, keyed, indexed, item_at, item_of, variable_at, with_field, plain, kept,
  execute_variable, member_of, index_of, put, assign_to, overwrite, operate, operation, negate,
}
use ru_fsm.Expression.Eval.Run.{
  on, answer, apply, execute, execute_all, execute_members, eval_arguments, execute_sequence,
}
use ru_fsm.Expression.Syntax.{
  Expression, constant, variable, method, index, member_access, assign, assign_undefined, negation,
  sequence, Expressions, nil, cons, Members, end, member, is_assignable,
}
use ru_fsm.Expression.Token.{Operator}
use ru_fsm.Datamodel.Operations.{joined, pushed, is_numeric, operation_plus, with_heap}
use ru_fsm.Common.Int.{ℤ}

-- Every variable stands for the same cell as before, and no cell is gone.
pub record Keeps (g h : Context) : Type 0 where
  pub variables : (k : Str) (a : DataArc) → find k g.data_ ≡ some a → find k h.data_ ≡ some a
  pub cells : length g.heap ≤ length h.heap

pub Keeps-refl : (g : Context) → Keeps g g
Keeps-refl g = record { variables = λ k a e. e; cells = omega arith }

pub Keeps-trans : {g h k : Context} → Keeps g h → Keeps h k → Keeps g k
Keeps-trans p q = record {
  variables = λ k a e. q.variables k a (p.variables k a e);
  cells = omega (arith, p.cells, q.cells);
}

-- The context of a result keeps that of `g`.
abbrev pub Kept {ℓ} : {A : Type ℓ} → Context → A × Context → Type 0
Kept g r = Keeps g r.1

pub on-Kept {ℓ κ} :
    {A : Type ℓ} {B : Type κ} (g : Context) (m : Run (Result A × Context))
    (next : A → Context → Run (Result B × Context))
    → After (Kept g) m
    → ((a : A) (h : Context) → Keeps g h → After (Kept g) (next a h))
    → After (Kept g) (on m next)
unfolding on
on-Kept g stuck next p k = tt
on-Kept g panic next p k = tt
on-Kept g (ok (failure why, h)) next p k = p
on-Kept g (ok (success a, h)) next p k = k a h p

pub length-write_at : (h : Heap) (i : ℕ) (v : Value) → length (write_at h i v) ≡ length h
unfolding write_at
length-write_at [] i v = refl
length-write_at (w ∷ h) zero v = refl
length-write_at (w ∷ h) (suc i) v = ap suc (length-write_at h i v)

-- More cells, the same variables.
pub grown-Keeps :
    (g : Context) (h : Heap) → length g.heap ≤ length h → Keeps g (record g { heap = h })
grown-Keeps g h le = record { variables = λ k a e. e; cells = le }

pub fresh-Keeps : (g : Context) (v : Value) → Keeps g (fresh g v).1
unfolding fresh create_data_arc
fresh-Keeps g v = grown-Keeps g (g.heap ++ v ∷ []) (omega (arith, length-append g.heap (v ∷ [])))

pub written-Keeps :
    (g : Context) (i : ℕ) (v : Value) → Keeps g (record g { heap = write_at g.heap i v })
written-Keeps g i v =
    grown-Keeps g (write_at g.heap i v) (omega (arith, length-write_at g.heap i v))

pub kept-Grows :
    (h : Heap) (m : Run Value) → After (λ (x : Value × Heap). length h ≤ length x.1) (kept h m)
unfolding kept
kept-Grows h stuck = tt
kept-Grows h panic = tt
kept-Grows h (ok v) = omega arith

clash : {a : DataArc} → none ≡ some a → ⊥
clash e = cc

pub undefined-Keeps :
    (name : Str) (g : Context) (a : DataArc) (h : Heap)
    → find name g.data_ ≡ none
    → length g.heap ≤ length h
    → Keeps g (record { data_ = insert name a g.data_; heap = h })
undefined-Keeps name g a h missing le = record {
  variables = λ k b e.
      find-insert_other k name a g.data_
        (λ same. clash (sym missing ∙ ap (λ (n : Str). find n g.data_) (sym same) ∙ e))
      ∙ e;
  cells = le;
}
