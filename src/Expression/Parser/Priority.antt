-- ===== src/Expression/Parser/Priority.antt =====
-- The order in which `stack_to_expression` of src/expression_engine/parser.rs folds two operators.
use ru_fsm.Common.{
  success, ℕ, suc, ◌≡◌, refl, Bool, true, false, Bool-cases, inl, inr, some, List, [], ◌∷◌, leb,
  ltb, if◌then◌else◌, ok, arith,
}
use ru_fsm.Expression.Parser.Stack.{
  Item, token, expression, priority, visit, visit_all, combine, replaced, fold_stack_at,
  fold_operator, folded, fold_at, fold_best, first_of, stack_to_expression,
}
use ru_fsm.Expression.Syntax.{Expression, operation}
use ru_fsm.Expression.Token.{Operator, operator}

-- The operators between two operands, the assignments left aside.
abbrev pub is_binary : Operator → Bool
is_binary Operator.not = false
is_binary Operator.assign = false
is_binary Operator.assign_undefined = false
is_binary _ = true

fold_operator_binary :
    (op : Operator) (stack : List Item) (idx : ℕ)
    → is_binary op ≡ true
    → fold_operator op stack idx ≡ fold_stack_at stack idx (λ le re. some (operation op le re))
unfolding fold_operator
fold_operator_binary Operator.not stack idx h = cc
fold_operator_binary Operator.assign stack idx h = cc
fold_operator_binary Operator.assign_undefined stack idx h = cc
fold_operator_binary _ stack idx h = refl

leb-priority : (op : Operator) → leb (priority op) 0xff ≡ true
unfolding priority
leb-priority op = grind arith

ltb-priority : (op : Operator) → ltb (priority op) 0xff ≡ true
unfolding priority
ltb-priority op = grind arith

abbrev pub operands : Expression → Operator → Expression → Operator → Expression → List Item
operands a p b q c =
    expression a ∷ token (operator p) ∷ expression b ∷ token (operator q) ∷ expression c ∷ []

one_operator :
    (fuel : ℕ) (a : Expression) (p : Operator) (b : Expression)
    → is_binary p ≡ true
    → stack_to_expression (suc (suc fuel)) (expression a ∷ token (operator p) ∷ expression b ∷ [])
      ≡ ok (success (some (operation p a b), []))
unfolding stack_to_expression visit_all visit fold_best fold_at fold_stack_at combine replaced
    folded first_of
one_operator fuel a p b hp =
    rw (leb-priority p) (rw (ltb-priority p) (rw (fold_operator_binary p _ 1 hp) refl))

-- Of two operators between three operands, no assignments, the one with the lower number is folded first, and of two
-- with the same number the one on the right: `a - b - c` is `a - (b - c)`.
pub stack_to_expression-operands :
    (a : Expression) (p : Operator) (b : Expression) (q : Operator) (c : Expression)
    → is_binary p ≡ true
    → is_binary q ≡ true
    → stack_to_expression 6 (operands a p b q c)
      ≡ ok (
          success (
            some (
                if leb (priority q) (priority p)
                then operation p a (operation q b c)
                else operation q (operation p a b) c),
            [],
          ))
unfolding stack_to_expression visit_all visit fold_best fold_at fold_stack_at combine replaced
    folded first_of
stack_to_expression-operands a p b q c hp hq = elim (Bool-cases (leb (priority q) (priority p))) [
  | inl y ↦ rw (leb-priority p) (
      rw y (
        rw (ltb-priority q) (
          rw (fold_operator_binary q (operands a p b q c) 3 hq)
            (one_operator 3 a p (operation q b c) hp))))
  | inr n ↦ rw (leb-priority p) (
      rw n (
        rw (ltb-priority p) (
          rw (fold_operator_binary p (operands a p b q c) 1 hp)
            (one_operator 3 (operation p a b) q c hq))))
]
