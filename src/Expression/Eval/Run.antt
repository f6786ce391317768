-- ===== src/Expression/Eval/Run.antt =====
-- `execute` of the trait `Expression` of src/expression_engine/expressions.rs.
use ru_fsm.Common.{
  ℕ, Result, success, failure, Bool, true, false, List, [], ◌∷◌, if◌then◌else◌, Run, ok, stuck,
  ◌>>=◌,
}
use ru_fsm.Common.Float.{Float}
use ru_fsm.Common.Str.{Str, codes}
use ru_fsm.Datamodel.Cells.{Heap, Fields, insert, read}
use ru_fsm.Datamodel.Text.{show_arc}
use ru_fsm.Datamodel.Value as V
use ru_fsm.Datamodel.Value.{DataArc, Value}
use ru_fsm.Expression.Eval.{Context, Actions}
use ru_fsm.Expression.Eval.Access.{
  Outcome, fail, fresh, execute_variable, member_of, index_of, assign_to, overwrite, operate,
  negate,
}
use ru_fsm.Expression.Parser.{parse}
use ru_fsm.Expression.Syntax.{
  Expression, constant, variable, array, map, method, index, member_access, assign,
  assign_undefined, operation, negation, sequence, Expressions, nil, cons, Members, end, member,
  is_assignable,
}
use ru_fsm.Common.{length, suc}

-- With the value of a result, or on with its error.
unfoldable pub on {ℓ κ} :
    {A : Type ℓ} {B : Type κ}
    → Run (Result A × Context)
    → (A → Context → Run (Result B × Context))
    → Run (Result B × Context)
on stuck next = stuck
on Run.panic next = Run.panic
on (ok (failure why, g)) next = ok (failure why, g)
on (ok (success a, g)) next = next a g

-- The values of the arguments: an error becomes an argument.
unfoldable pub argument : Result DataArc → Heap → Value
argument (failure why) h = V.error why
argument (success a) h = read h a

unfoldable pub answer : Result Value → Context → Outcome
answer (failure why) g = fail g why
answer (success v) g = fresh g v

-- `execute_with_arguments`
unfoldable pub apply : Actions → Str → List Value → Context → Outcome
apply actions name vs g = let r = actions name vs g in answer r.0 (record g { heap = r.1 })

module _ (F : Float) (actions : Actions) where
  unfoldable mutual
    unfolding argument apply

    pub execute : Expression → Context → Bool → Run Outcome
    execute (constant v) g allow = ok (fresh g v)
    execute (variable name) g allow = ok (execute_variable name allow g)
    execute (array items) g allow = on (execute_all items g allow) (λ v h. ok (fresh h (V.array v)))
    execute (map entries) g allow =
        on (execute_members entries [] g allow) (λ m h. ok (fresh h (V.map m)))
    execute (method name arguments) g allow = do
      v ← eval_arguments arguments g
      ok (apply actions name v.0 v.1)
    execute (index left i) g allow = do
      l ← execute left g allow
      r ← execute i l.1 allow
      on (ok (l.0, r.1)) (λ a h. on (ok (r.0, h)) (λ b k. index_of F allow a b k (read k.heap a)))
    execute (member_access left name) g allow =
        on (execute left g allow) (λ a h. ok (member_of F name allow a h (read h.heap a)))
    execute (assign left right) g allow =
        let run = execute right g false >>= λ r. execute left r.1 allow >>= λ l.
        on (ok l) (λ a h. on (ok (r.0, h)) (λ b k. assign_to F a b k (read k.heap b))) in
        if is_assignable left then run else ok (fail g (codes "Can't assign to that"))
    -- the derived `Debug` text of the left side in the error is left out
    execute (assign_undefined left right) g allow =
        let run =
          on (execute right g allow) (λ b h. on (execute left h true) (λ a k. overwrite a b k)) in
        if is_assignable left then run else ok (fail g (codes "Can't assign to "))
    execute (operation op left right) g allow =
        on (execute left g allow) (λ a h. on (execute right h allow) (λ b k. operate F op a b k))
    execute (negation right) g allow =
        on (execute right g allow) (λ a h. ok (negate h (read h.heap a)))
    execute (sequence es) g allow = execute_sequence es (fresh g V.none) allow

    -- the loop of an array
    pub execute_all : Expressions → Context → Bool → Run (Result (List DataArc) × Context)
    execute_all nil g allow = ok (success [], g)
    execute_all (cons e es) g allow =
        on (execute e g allow)
          (λ a h. on (execute_all es h allow) (λ rest k. ok (success (a ∷ rest), k)))

    -- the loop of a map, with the entries so far; the key is the text of its value
    pub execute_members : Members → Fields → Context → Bool → Run (Result Fields × Context)
    execute_members end m g allow = ok (success m, g)
    execute_members (member k e ms) m g allow = on (execute k g allow) (λ n h.
        on (execute e h allow) (λ a j.
          execute_members ms (insert (show_arc (suc (length j.heap)) F j.heap [] n) a m) j allow))

    -- the loop of `eval_arguments`
    pub eval_arguments : Expressions → Context → Run (List Value × Context)
    eval_arguments nil g = ok ([], g)
    eval_arguments (cons e es) g = do
      r ← execute e g false
      rest ← eval_arguments es r.1
      ok (argument r.0 r.1.heap ∷ rest.0, rest.1)

    -- the loop of a sequence, with the result so far
    pub execute_sequence : Expressions → Outcome → Bool → Run Outcome
    execute_sequence nil r allow = ok r
    execute_sequence (cons e es) r allow = do
      next ← execute e r.1 allow
      execute_sequence es next allow

-- on what the parser returns
executed : Float → Actions → Context → Result Expression → Run Outcome
executed F actions g (failure why) = ok (fail g why)
executed F actions g (success e) = execute F actions e g false

-- `ExpressionParser::execute` and `execute_str` of src/expression_engine/parser.rs, with fuel for the parser
unfoldable pub execute_str : Float → Actions → ℕ → Str → Context → Run Outcome
unfolding executed
execute_str F actions fuel source g = do e ← parse F fuel source; executed F actions g e
