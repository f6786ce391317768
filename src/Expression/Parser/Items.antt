-- ===== src/Expression/Parser/Items.antt =====
-- The body of the loop of `parse_sub_expression` of src/expression_engine/parser.rs, on one token.
use ru_fsm.Common.{
  Result, success, failure, ℕ, Option, none, some, List, [], ◌∷◌, ◌++◌, if◌then◌else◌, ◌==◌, nat_eq,
}
use ru_fsm.Common.Str.{Str, codes, contains}
use ru_fsm.Datamodel.Value.{Value}
use ru_fsm.Expression.Parser.Stack.{Item, token, expression}
use ru_fsm.Expression.Syntax.{
  Expression, constant, variable, array, method, index, Expressions, nil, cons,
}
use ru_fsm.Expression.Token.{
  integer, double, Token, number, identifier, tstring, boolean, operator, bracket, separator,
  expression_separator, null, error, eoe,
}

-- What a list of arguments is for; it becomes one expression.
pub data Arguments : Type 0 where
  for_method : Str → Arguments
  for_array : Arguments
  for_index : Expression → Arguments

-- What the body does with the token: go on with the stack; leave the loop with a stop; return an error; first read a
-- sub-expression, a list of arguments or a list of members; first make an expression of the stack.
pub data Action : Type 0 where
  go_on : List Item → Action
  leave : ℕ → List Item → Action
  fail : Str → Action
  group : List Item → Action
  list : ℕ → Arguments → List Item → Action
  members : List Item → Action
  separate : List Item → Action

-- `stack.pop()`: the last item and the others
unfoldable pub pop : List Item → Option (List Item × Item)
pop [] = none
pop (i ∷ is) = elim (pop is) [ none ↦ some ([], i) | some p ↦ some (i ∷ p.0, p.1) ]

unfoldable pub unexpected : ℕ → Action
unexpected br = fail (codes "Unexpected '" ++ br ∷ codes "'")

-- `(` behind the popped item
unfoldable pub open_group : Option (List Item × Item) → Action
unfolding unexpected
open_group none = group []
open_group (some (stack, token (identifier id))) = list b')' (for_method id) stack
open_group (some (stack, token (operator op))) = group (stack ++ token (operator op) ∷ [])
open_group (some (stack, token (error why))) = go_on stack
open_group (some (stack, token eoe)) = go_on stack
open_group (some (stack, token expression_separator)) = go_on stack
open_group (some (stack, i)) = unexpected b'('

-- `[` behind the popped item
unfoldable pub open_list : Option (List Item × Item) → Action
unfolding unexpected
open_list none = list b']' for_array []
open_list (some (stack, token (identifier id))) = list b']' (for_index (variable id)) stack
open_list (some (stack, token (operator op))) =
    list b']' for_array (stack ++ token (operator op) ∷ [])
open_list (some (stack, token (error why))) = fail (codes "Internal Error at '['")
open_list (some (stack, token eoe)) = fail (codes "Internal Error at '['")
open_list (some (stack, token expression_separator)) = fail (codes "Internal Error at '['")
open_list (some (stack, token t)) = unexpected b'['
open_list (some (stack, expression e)) = list b']' (for_index e) stack

unfoldable pub at_bracket : Str → List Item → ℕ → Action
unfolding open_group open_list unexpected
at_bracket stops stack br =
    if br == b'('
    then open_group (pop stack)
    else if br == b'['
    then open_list (pop stack)
    else if br == b'{'
    then members stack
    else if contains stops br
    then leave br stack
    else unexpected br

unfoldable pub at_separator : Str → List Item → ℕ → Action
at_separator stops stack sep =
    if contains stops sep
    then leave sep stack
    else if sep == b'.'
    then go_on (stack ++ token (separator b'.') ∷ [])
    else go_on stack

abbrev constant_of : List Item → Value → Action
constant_of stack v = go_on (stack ++ expression (constant v) ∷ [])

unfoldable pub act : Str → List Item → Token → Action
unfolding at_bracket at_separator
act stops stack eoe = leave 0 stack
act stops stack null = constant_of stack Value.null
act stops stack (tstring text) = constant_of stack (Value.string text)
act stops stack (boolean v) = constant_of stack (Value.boolean v)
act stops stack (number (integer i)) = constant_of stack (Value.integer i)
act stops stack (number (double d)) = constant_of stack (Value.double d)
act stops stack (identifier name) = go_on (stack ++ token (identifier name) ∷ [])
act stops stack (operator op) = go_on (stack ++ token (operator op) ∷ [])
act stops stack (bracket br) = at_bracket stops stack br
act stops stack (separator sep) = at_separator stops stack sep
act stops stack expression_separator = separate stack
act stops stack (error why) = fail why

-- `v.len() != 1`
index_by : Expression → Expressions → Result Expression
index_by left (cons i nil) = success (index left i)
index_by left _ = failure (codes "index operator '[]' allows only one argument")

-- the expression of the arguments
unfoldable pub applied : Arguments → Expressions → Result Expression
unfolding index_by
applied (for_method id) v = success (method id v)
applied for_array v = success (array v)
applied (for_index left) v = index_by left v
