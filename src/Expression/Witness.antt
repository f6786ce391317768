-- ===== src/Expression/Witness.antt =====
-- The theorems on expressions at concrete inputs.
use ru_fsm.Common.{
  Result, success, failure, ℕ, ◌≡◌, refl, arith, Bool, true, false, some, [], ◌∷◌, ok, stuck,
}
use ru_fsm.Common.After.{After}
use ru_fsm.Common.Float.{idle}
use ru_fsm.Common.Int.{pos}
use ru_fsm.Common.Loop.{Returns}
use ru_fsm.Common.Str.{Str, codes, contains, str_beq}
use ru_fsm.Datamodel.Cells.{find, read, content, create_data_arc}
use ru_fsm.Datamodel.Value.{DataArc, integer}
use ru_fsm.Expression.Eval.{Context, Actions}
use ru_fsm.Expression.Eval.Access.{fresh}
use ru_fsm.Expression.Eval.Assign.{Written, assign-Written, assign-ReadOnly, assign_self}
use ru_fsm.Expression.Eval.Keeps.{Kept}
use ru_fsm.Expression.Eval.Keeps.Execute.{IsQuiet, execute-Keeps}
use ru_fsm.Expression.Eval.Run.{execute}
use ru_fsm.Expression.Lexer.Next.{next_token_with_stop}
use ru_fsm.Expression.Lexer.Progress.{EndsOpen, Moved, next_token_with_stop-Moved}
use ru_fsm.Expression.Parser.{sub_expression, parse, fuel_for}
use ru_fsm.Expression.Parser.Endless.{sub_expression-AtLess}
use ru_fsm.Expression.Parser.Ends.{parse_returns}
use ru_fsm.Expression.Parser.Priority.{operands, stack_to_expression-operands}
use ru_fsm.Expression.Parser.Stack.{stack_to_expression, priority}
use ru_fsm.Expression.Syntax.{Expression, constant, variable, operation, assign, nil}
use ru_fsm.Expression.Token.{minus}

abbrev number : ℕ → Expression
number n = constant (integer (pos n))

next_token_with_stop-Moved_example :
    Returns
      (Moved [] (codes "a <= b") 1)
      (next_token_with_stop idle [] (record { text = codes "a <= b"; pos = 1; buffer = [] }))
next_token_with_stop-Moved_example =
    next_token_with_stop-Moved idle [] (record { text = codes "a <= b"; pos = 1; buffer = [] })
      (omega arith)

closed_by : (c : ℕ) → some b'1' ≡ some c → contains (codes "?<>=!") c ≡ true → ⊥
unfolding contains
closed_by c e o = ground arith

closed : ¬ EndsOpen (codes "f(a) + 1")
closed (c, e, o) = closed_by c e o

stop_free : contains (0 ∷ []) b'<' ≡ false
unfolding contains
stop_free = refl

parse_returns_example :
    (r : Result Expression) × (parse idle (fuel_for (codes "f(a) + 1")) (codes "f(a) + 1") ≡ ok r)
parse_returns_example = parse_returns idle (codes "f(a) + 1") closed

sub_expression-AtLess_example :
    sub_expression 100 idle (0 ∷ []) nil [] (record { text = codes "a<"; pos = 1; buffer = [] })
    ≡ stuck
sub_expression-AtLess_example =
    sub_expression-AtLess idle 100 (0 ∷ []) nil []
      (record { text = codes "a<"; pos = 1; buffer = [] }) (refl, refl) stop_free

stack_to_expression-operands_example :
    stack_to_expression 6 (operands (number 8) minus (number 4) minus (number 2))
    ≡ ok (success (some (operation minus (number 8) (operation minus (number 4) (number 2))), []))
unfolding priority
stack_to_expression-operands_example =
    stack_to_expression-operands (number 8) minus (number 4) minus (number 2) refl refl

abbrev actions : Actions
actions name vs g = (failure (codes "Action not found"), g.heap)

quiet : IsQuiet actions
quiet name vs g = omega arith

abbrev cell : ℕ → Bool → DataArc
cell n b = record { arc = n; readonly = b }

abbrev session : Context
session = record {
  data_ = (codes "x", cell 0 false) ∷ (codes "e", cell 1 true) ∷ [];
  heap = integer (pos 1) ∷ integer (pos 2) ∷ [];
}

-- behind the evaluation of 7
abbrev later : Context
later = record session { heap = integer (pos 1) ∷ integer (pos 2) ∷ integer (pos 7) ∷ [] }

x_found : find (codes "x") session.data_ ≡ some (cell 0 false)
unfolding find str_beq
x_found = refl

e_found : find (codes "e") session.data_ ≡ some (cell 1 true)
unfolding find str_beq
e_found = refl

evaluated : execute idle actions (number 7) session false ≡ ok (success (cell 2 false), later)
unfolding execute fresh create_data_arc
evaluated = refl

execute-Keeps_example :
    After
      (Kept session)
      (execute idle actions (assign (variable (codes "x")) (number 7)) session false)
execute-Keeps_example =
    execute-Keeps idle actions quiet (assign (variable (codes "x")) (number 7)) session false

assign-Written_example :
    Written
      (execute idle actions (assign (variable (codes "x")) (number 7)) session false)
      (cell 0 false)
      (integer (pos 7))
      later
unfolding read content
assign-Written_example =
    assign-Written idle actions quiet (codes "x") (number 7) session false (cell 0 false)
      (cell 2 false) later x_found evaluated refl refl (omega arith) (omega arith)

assign-ReadOnly_example :
    (why : Str) × (execute idle actions (assign (variable (codes "e")) (number 7)) session false
      ≡ ok (failure why, later))
assign-ReadOnly_example =
    assign-ReadOnly idle actions quiet (codes "e") (number 7) session false (cell 1 true)
      (cell 2 false) later e_found evaluated refl

assign_self_example :
    execute idle actions (assign (variable (codes "x")) (variable (codes "x"))) session false
    ≡ stuck
unfolding read content
assign_self_example =
    assign_self idle actions (codes "x") session false (cell 0 false) x_found refl refl
