-- ===== src/Expression/Parser/Stack.antt =====
-- The stack of the parser of src/expression_engine/parser.rs: `fold_stack_at` and `stack_to_expression`.
use ru_fsm.Common.{
  Result, success, failure, ℕ, zero, suc, ◌+◌, ◌-◌, ◌&&◌, Option, none, some, List, [], ◌∷◌, ◌++◌,
  get_elem?, take, drop, length, ltb, leb, if◌then◌else◌, ◌==◌, nat_eq, Run, ok, panic, stuck,
  ◌>>=◌,
}
use ru_fsm.Common.Str.{Str, codes}
use ru_fsm.Expression.Syntax.{
  Expression, variable, method, member_access, assign, assign_undefined, operation, negation, cons,
  copies,
}
use ru_fsm.Expression.Token.{Operator, Token, identifier, separator, operator}

-- `ExpressionParserItem`
pub data Item : Type 0 where
  token : Token → Item
  expression : Expression → Item

unfoldable pub priority : Operator → ℕ
priority Operator.not = 3
priority Operator.and = 5
priority Operator.multiply = 5
priority Operator.divide = 5
priority Operator.modulus = 5
priority Operator.or = 6
priority Operator.plus = 6
priority Operator.minus = 6
priority Operator.less = 9
priority Operator.less_equal = 9
priority Operator.greater = 9
priority Operator.greater_equal = 9
priority Operator.equal = 10
priority Operator.not_equal = 10
priority Operator.assign = 16
priority Operator.assign_undefined = 16

-- The item to fold first, `best_idx` and `best_idx_prio`.
pub record Best : Type 0 where
  pub idx : ℕ
  pub prio : ℕ

-- a pass of the loop of `stack_to_expression` at index `si`: the item it leaves there, and the choice so far
unfoldable pub visit : ℕ → Item → Best → Run (Item × Best)
visit si (token (identifier name)) best = ok (expression (variable name), best)
visit si (token (separator c)) best =
    if c == b'.'
    then ok (token (separator c), if ltb 2 best.prio then record { idx = si; prio = 2 } else best)
    else panic
visit si (token (operator op)) best = ok (
  token (operator op),
  if leb (priority op) best.prio then record { idx = si; prio = priority op } else best,
)
visit si (token t) best = panic
visit si (expression e) best = ok (expression e, best)

-- the loop
unfoldable pub visit_all : ℕ → List Item → Best → Run (List Item × Best)
visit_all si [] best = ok ([], best)
visit_all si (i ∷ stack) best = do
  here ← visit si i best
  rest ← visit_all (si + 1) stack here.1
  ok (here.0 ∷ rest.0, rest.1)

-- the items at the index, on its left and on its right
unfoldable pub combine :
    (Expression → Expression → Option Expression) → Option Item → Option Item → Option Expression
combine f (some (expression le)) (some (expression re)) = f le re
combine f _ _ = none

-- the stack with the expression in place of the item at the index and its neighbours; `none` is `false`
unfoldable pub replaced : ℕ → List Item → Option Expression → Option (List Item)
replaced idx stack none = none
replaced idx stack (some e) = some (take (idx - 1) stack ++ expression e ∷ drop (idx + 2) stack)

unfoldable pub fold_stack_at :
    List Item → ℕ → (Expression → Expression → Option Expression) → Option (List Item)
unfolding combine replaced
fold_stack_at stack idx f =
    if ltb 0 idx && ltb (idx + 1) (length stack)
    then replaced idx stack (combine f (get_elem? stack (idx - 1)) (get_elem? stack (idx + 1)))
    else none

-- the stack with the expression in place of `!` and the item behind it
unfoldable pub negated : ℕ → List Item → Option Item → Option (List Item)
negated idx stack (some (expression re)) =
    some (take idx stack ++ expression (negation re) ∷ drop (idx + 2) stack)
negated idx stack _ = none

unfoldable pub fold_not : List Item → ℕ → Option (List Item)
unfolding negated
fold_not stack idx = negated idx stack (get_elem? stack (idx + 1))

-- `le.re` for a variable or a method `re`
unfoldable pub select_member : Expression → Expression → Option Expression
select_member le (variable name) = some (member_access le name)
select_member le (method name arguments) = some (method name (cons le (copies arguments)))
select_member le re = none

unfoldable pub fold_operator : Operator → List Item → ℕ → Option (List Item)
fold_operator Operator.assign_undefined stack idx =
    fold_stack_at stack idx (λ le re. some (assign_undefined le re))
fold_operator Operator.assign stack idx = fold_stack_at stack idx (λ le re. some (assign le re))
fold_operator Operator.not stack idx = fold_not stack idx
fold_operator op stack idx = fold_stack_at stack idx (λ le re. some (operation op le re))

-- the derived `Debug` of an operator
operator_name : Operator → Str
operator_name Operator.multiply = codes "Multiply"
operator_name Operator.divide = codes "Divide"
operator_name Operator.plus = codes "Plus"
operator_name Operator.minus = codes "Minus"
operator_name Operator.less = codes "Less"
operator_name Operator.less_equal = codes "LessEqual"
operator_name Operator.greater = codes "Greater"
operator_name Operator.greater_equal = codes "GreaterEqual"
operator_name Operator.assign = codes "Assign"
operator_name Operator.assign_undefined = codes "AssignUndefined"
operator_name Operator.equal = codes "Equal"
operator_name Operator.not_equal = codes "NotEqual"
operator_name Operator.and = codes "And"
operator_name Operator.or = codes "Or"
operator_name Operator.modulus = codes "Modulus"
operator_name Operator.not = codes "Not"

-- What the body of `stack_to_expression` does behind the loop: return, or go on with a smaller stack.
pub data Fold : Type 0 where
  refold : List Item → Fold
  refused : Str → Fold
  found : Expression → List Item → Fold

unfoldable pub folded : Str → Option (List Item) → Fold
folded why none = refused why
folded why (some stack) = refold stack

-- on the item of the best priority
unfoldable pub fold_at : List Item → ℕ → Option Item → Run Fold
unfolding operator_name folded
fold_at stack idx none = panic
fold_at stack idx (some (token (operator op))) = ok (
    folded (codes "Failed to parse at operator '" ++ operator_name op ++ codes "'")
      (fold_operator op stack idx))
fold_at stack idx (some (token (separator c))) =
    ok (
      folded (codes "Failed to parse at '" ++ c ∷ codes "'")
        (fold_stack_at stack idx select_member))
fold_at stack idx (some i) = ok (refused (codes "Failed to parse"))

-- without an operator; the text of another item is left out
unfoldable pub first_of : List Item → Run Fold
first_of [] = panic
first_of (expression e ∷ stack) = ok (found e stack)
first_of (token t ∷ stack) = ok (refused (codes "Failed to parse at"))

unfoldable pub fold_best : List Item → Best → Run Fold
unfolding first_of
fold_best stack best =
    if ltb best.prio 0xff then fold_at stack best.idx (get_elem? stack best.idx) else first_of stack

-- The expression of the stack and the stack that is left.
unfoldable pub stack_to_expression : ℕ → List Item → Run (Result (Option Expression × List Item))
stack_to_expression zero stack = stuck
stack_to_expression (suc fuel) [] = ok (success (none, []))
stack_to_expression (suc fuel) (i ∷ is) = do
  seen ← visit_all 0 (i ∷ is) (record { idx = 0; prio = 0xff })
  fold ← fold_best seen.0 seen.1
  elim fold [
    | refold stack ↦ stack_to_expression fuel stack
    | refused why ↦ ok (failure why)
    | found e stack ↦ ok (success (some e, stack))
  ]
