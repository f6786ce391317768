-- ===== src/Expression/Parser/Endless.antt =====
-- A text that ends in `<` keeps the loop of src/expression_engine/parser.rs running.
use ru_fsm.Common.{ℕ, zero, suc, ◌≡◌, refl, false, List, [], stuck}
use ru_fsm.Common.Str.{Str, contains}
use ru_fsm.Common.Float.{Float}
use ru_fsm.Expression.Lexer.{Lexer}
use ru_fsm.Expression.Lexer.Open.{AtLess, next_token_with_stop-AtLess}
use ru_fsm.Expression.Parser.{sub_expression, follow}
use ru_fsm.Expression.Parser.Items.{act}
use ru_fsm.Expression.Parser.Stack.{Item}
use ru_fsm.Expression.Syntax.{Expressions}

-- Before a last character `<` that is no stop, `parse_sub_expression` never ends: whatever was read before, and
-- however much fuel there is, all of it is used up.
pub sub_expression-AtLess :
    (F : Float) (fuel : ℕ) (stops : Str) (es : Expressions) (stack : List Item) (l : Lexer)
    → AtLess l
    → contains stops b'<' ≡ false
    → sub_expression fuel F stops es stack l ≡ stuck
unfolding sub_expression follow act
sub_expression-AtLess F zero stops es stack l at s = refl
sub_expression-AtLess F (suc fuel) stops es stack l at s =
    rw (next_token_with_stop-AtLess F stops l at s)
      (sub_expression-AtLess F fuel stops es _ (record l { buffer = [] }) at s)
