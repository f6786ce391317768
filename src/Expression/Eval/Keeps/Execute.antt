-- ===== src/Expression/Eval/Keeps/Execute.antt =====
-- `execute` of src/expression_engine/expressions.rs, and the variables and cells behind it.
use ru_fsm.Common.{
  Result, success, failure, ◌≤◌, Bool, true, false, List, [], length, nat_eq, Run, ◌>>=◌,
}
use ru_fsm.Common.After.{After, After-bind, After-weaken, if-After}
use ru_fsm.Common.Float.{Float}
use ru_fsm.Common.Str.{Str}
use ru_fsm.Datamodel.Cells.{Fields}
use ru_fsm.Datamodel.Value.{Value}
use ru_fsm.Expression.Eval.{Context, Actions}
use ru_fsm.Expression.Eval.Access.{Outcome, fresh}
use ru_fsm.Expression.Eval.Run.{
  answer, apply, execute, execute_all, execute_members, eval_arguments, execute_sequence,
}
use ru_fsm.Expression.Syntax.{
  Expression, constant, variable, method, index, member_access, assign, assign_undefined, negation,
  sequence, Expressions, nil, cons, Members, end, member, is_assignable,
}
use ru_fsm.Expression.Eval.Keeps.{
  Keeps, Keeps-refl, Keeps-trans, Kept, on-Kept, grown-Keeps, fresh-Keeps,
}
use ru_fsm.Expression.Eval.Keeps.Steps.{
  execute_variable-Keeps, member_of-Keeps, index_of-Kept, assign_to-Kept, overwrite-Kept,
  operate-Kept, negate-Keeps,
}

answer-Keeps : (r : Result Value) (g : Context) → Keeps g (answer r g).1
unfolding answer
answer-Keeps (failure why) g = Keeps-refl g
answer-Keeps (success v) g = fresh-Keeps g v

widen {ℓ} :
    {A : Type ℓ} {g h : Context}
    → Keeps g h
    → (m : Run (A × Context)) → After (Kept h) m
    → After (Kept g) m
widen {g = g} {h = h} k m p = After-weaken (Kept h) (Kept g) m p (λ r l. Keeps-trans k l)

bind-Kept {ℓ κ} :
    {A : Type ℓ} {B : Type κ} (g : Context) (m : Run (A × Context))
    (next : A × Context → Run (B × Context))
    → After (Kept g) m
    → ((a : A) (h : Context) → Keeps g h → After (Kept g) (next (a, h)))
    → After (Kept g) (m >>= next)
bind-Kept g m next p k = After-bind (Kept g) (Kept g) m next p (λ (a, h). k a h)

-- What is asked of the registered actions: they keep the cells.
abbrev pub IsQuiet : Actions → Type 0
IsQuiet actions =
    (name : Str) (vs : List Value) (g : Context) → length g.heap ≤ length (actions name vs g).1

module _ (F : Float) (actions : Actions) (quiet : IsQuiet actions) where
  apply-Keeps : (name : Str) (vs : List Value) (g : Context) → Keeps g (apply actions name vs g).1
  unfolding apply
  apply-Keeps name vs g =
      let (r, h) = actions name vs g in
      let k = grown-Keeps g h (quiet name vs g) in
      Keeps-trans k (answer-Keeps r (record g { heap = h }))

  mutual
    unfolding execute execute_all execute_members eval_arguments execute_sequence

    execute-Kept :
        (e : Expression) (g : Context) (allow : Bool) → After (Kept g) (execute F actions e g allow)
    execute-Kept (constant v) g allow = fresh-Keeps g v
    execute-Kept (variable name) g allow = execute_variable-Keeps F name allow g
    execute-Kept (Expression.array items) g allow =
        on-Kept g _ _ (execute_all-Keeps items g allow)
          (λ v h k. Keeps-trans k (fresh-Keeps h (Value.array v)))
    execute-Kept (Expression.map entries) g allow =
        on-Kept g _ _ (execute_members-Keeps entries [] g allow)
          (λ m h k. Keeps-trans k (fresh-Keeps h (Value.map m)))
    execute-Kept (method name arguments) g allow =
        bind-Kept g (eval_arguments F actions arguments g) _ (eval_arguments-Keeps arguments g)
          (λ v h k. Keeps-trans k (apply-Keeps name v h))
    execute-Kept (index left i) g allow =
        bind-Kept g (execute F actions left g allow) _ (execute-Kept left g allow) (λ l q k.
          bind-Kept g (execute F actions i q allow) _ (widen k _ (execute-Kept i q allow))
            (λ r q' m.
              on-Kept g _ _ m
                (λ a h n. on-Kept g _ _ n (λ b o p. widen p _ (index_of-Kept F allow a b o _)))))
    execute-Kept (member_access left name) g allow =
        on-Kept g _ _ (execute-Kept left g allow)
          (λ a h k. Keeps-trans k (member_of-Keeps F name allow a h _))
    execute-Kept (assign left right) g allow =
        if-After (Kept g) (is_assignable left) _ _
          (bind-Kept g (execute F actions right g false) _ (execute-Kept right g false) (λ r q k.
            bind-Kept g (execute F actions left q allow) _ (widen k _ (execute-Kept left q allow))
              (λ l q' m.
                on-Kept g _ _ m
                  (λ a h n. on-Kept g _ _ n (λ b o p. widen p _ (assign_to-Kept F a b o _))))))
          (Keeps-refl g)
    execute-Kept (assign_undefined left right) g allow =
        if-After (Kept g) (is_assignable left) _ _
          (on-Kept g _ _ (execute-Kept right g allow) (λ b h k.
            on-Kept g _ _ (widen k _ (execute-Kept left h true))
              (λ a l m. widen m _ (overwrite-Kept F a b l))))
          (Keeps-refl g)
    execute-Kept (Expression.operation op left right) g allow =
        on-Kept g _ _ (execute-Kept left g allow) (λ a h k.
          on-Kept g _ _ (widen k _ (execute-Kept right h allow))
            (λ b l m. widen m _ (operate-Kept F op a b l)))
    execute-Kept (negation right) g allow =
        on-Kept g _ _ (execute-Kept right g allow) (λ a h k. Keeps-trans k (negate-Keeps F h _))
    execute-Kept (sequence es) g allow =
        widen (fresh-Keeps g Value.none) _ (execute_sequence-Keeps es (fresh g Value.none) allow)

    execute_all-Keeps :
        (es : Expressions) (g : Context) (allow : Bool)
        → After (Kept g) (execute_all F actions es g allow)
    execute_all-Keeps nil g allow = Keeps-refl g
    execute_all-Keeps (cons e es) g allow =
        on-Kept g _ _ (execute-Kept e g allow)
          (λ a h k. on-Kept g _ _ (widen k _ (execute_all-Keeps es h allow)) (λ rest q l. l))

    execute_members-Keeps :
        (ms : Members) (m : Fields) (g : Context) (allow : Bool)
        → After (Kept g) (execute_members F actions ms m g allow)
    execute_members-Keeps end m g allow = Keeps-refl g
    execute_members-Keeps (member k e ms) m g allow =
        on-Kept g _ _ (execute-Kept k g allow) (λ n h l.
          on-Kept g _ _ (widen l _ (execute-Kept e h allow))
            (λ a j o. widen o _ (execute_members-Keeps ms _ j allow)))

    eval_arguments-Keeps :
        (es : Expressions) (g : Context) → After (Kept g) (eval_arguments F actions es g)
    eval_arguments-Keeps nil g = Keeps-refl g
    eval_arguments-Keeps (cons e es) g =
        bind-Kept g (execute F actions e g false) _ (execute-Kept e g false) (λ r h k.
          bind-Kept g (eval_arguments F actions es h) _ (widen k _ (eval_arguments-Keeps es h))
            (λ rest q l. l))

    execute_sequence-Keeps :
        (es : Expressions) (r : Outcome) (allow : Bool)
        → After (Kept r.1) (execute_sequence F actions es r allow)
    execute_sequence-Keeps nil r allow = Keeps-refl r.1
    execute_sequence-Keeps (cons e es) r allow =
        bind-Kept r.1 (execute F actions e r.1 allow) _ (execute-Kept e r.1 allow)
          (λ next h k. widen k _ (execute_sequence-Keeps es (next, h) allow))

  -- Whatever an expression does, if the registered actions keep the cells: where the evaluation returns, with a result
  -- or an error, each variable that was defined stands for the same cell as before, and there are no fewer cells.
  pub execute-Keeps :
      (e : Expression) (g : Context) (allow : Bool) → After (Kept g) (execute F actions e g allow)
  execute-Keeps e g allow = execute-Kept e g allow
