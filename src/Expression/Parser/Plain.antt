-- ===== src/Expression/Parser/Plain.antt =====
-- The items that the body of the loop of `parse_sub_expression` of src/expression_engine/parser.rs puts on its stack.
use ru_fsm.Common.{
  ◌≡◌, refl, arith, inl, inr, true, Option, none, some, List, [], ◌∷◌, ◌++◌, nat_eq,
}
use ru_fsm.Common.Str.{Str}
use ru_fsm.Datamodel.Value
use ru_fsm.Expression.Lexer.Progress.{IsEnd}
use ru_fsm.Expression.Parser.Items.{
  pop, open_group, open_list, at_bracket, at_separator, unexpected, Action, go_on, leave, fail,
  group, list, members, separate, act,
}
use ru_fsm.Expression.Parser.Shrinks.{Plain, is_plain, All-append}
use ru_fsm.Expression.Parser.Stack.{Item, token, expression}
use ru_fsm.Expression.Syntax.{constant}
use ru_fsm.Expression.Token.{
  Token, number, integer, double, null, tstring, boolean, identifier, operator, bracket, separator,
  expression_separator, error, eoe,
}

-- What the token asks for keeps the stack of the parser's items.
abbrev pub PlainAction : Action → Type 0
PlainAction (go_on stack) = Plain stack
PlainAction (leave stop stack) = Plain stack
PlainAction (fail why) = Unit
PlainAction (group stack) = Plain stack
PlainAction (list stop what stack) = Plain stack
PlainAction (members stack) = Plain stack
PlainAction (separate stack) = Plain stack

pub Plain-push :
    (stack : List Item) (i : Item) → Plain stack → is_plain i ≡ true → Plain (stack ++ i ∷ [])
Plain-push stack i p q = All-append _ stack (i ∷ []) p (q, tt)

abbrev PlainPop : Option (List Item × Item) → Type 0
PlainPop none = Unit
PlainPop (some (stack, i)) = Plain stack × (is_plain i ≡ true)

pop-Plain : (stack : List Item) → Plain stack → PlainPop (pop stack)
unfolding pop
pop-Plain [] p = tt
pop-Plain (i ∷ is) (q, p) =
    let go : (o : Option (List Item × Item))
        → PlainPop o
        → PlainPop (elim o [ none ↦ some ([], i) | some r ↦ some (i ∷ r.0, r.1) ]) =
      elim [ none ↦ λ _. (tt, q) | some r ↦ λ (a, b). ((q, a), b) ] in
    go (pop is) (pop-Plain is p)

open_group-Plain : (o : Option (List Item × Item)) → PlainPop o → PlainAction (open_group o)
unfolding open_group unexpected
open_group-Plain none p = tt
open_group-Plain (some (stack, token (operator op))) (p, q) =
    Plain-push stack (token (operator op)) p refl
open_group-Plain (some (stack, token (identifier id))) (p, q) = p
open_group-Plain (some (stack, token (error why))) (p, q) = p
open_group-Plain (some (stack, token eoe)) (p, q) = p
open_group-Plain (some (stack, token expression_separator)) (p, q) = p
open_group-Plain (some (stack, _)) (p, q) = tt

open_list-Plain : (o : Option (List Item × Item)) → PlainPop o → PlainAction (open_list o)
unfolding open_list unexpected
open_list-Plain none p = tt
open_list-Plain (some (stack, token (operator op))) (p, q) =
    Plain-push stack (token (operator op)) p refl
open_list-Plain (some (stack, token (identifier id))) (p, q) = p
open_list-Plain (some (stack, expression e)) (p, q) = p
open_list-Plain (some (stack, _)) (p, q) = tt

pub act-Plain :
    (stops : Str) (stack : List Item) (t : Token) → Plain stack → PlainAction (act stops stack t)
unfolding act at_bracket at_separator unexpected
act-Plain stops stack (bracket br) p =
    let g = open_group-Plain (pop stack) (pop-Plain stack p) in
    let l = open_list-Plain (pop stack) (pop-Plain stack p) in ground (arith, g, l, p)
act-Plain stops stack (separator sep) p =
    let q = Plain-push stack (token (separator b'.')) p refl in ground (arith, q, p)
act-Plain stops stack (number (integer i)) p =
    Plain-push stack (expression (constant (Value.integer i))) p refl
act-Plain stops stack (number (double d)) p =
    Plain-push stack (expression (constant (Value.double d))) p refl
act-Plain stops stack null p = Plain-push stack (expression (constant Value.null)) p refl
act-Plain stops stack (tstring s) p =
    Plain-push stack (expression (constant (Value.string s))) p refl
act-Plain stops stack (boolean b) p =
    Plain-push stack (expression (constant (Value.boolean b))) p refl
act-Plain stops stack (identifier name) p = Plain-push stack (token (identifier name)) p refl
act-Plain stops stack (operator op) p = Plain-push stack (token (operator op)) p refl
act-Plain stops stack expression_separator p = p
act-Plain stops stack (error why) p = tt
act-Plain stops stack eoe p = p

-- At the end the loop is left.
pub act-IsEnd :
    (stops : Str) (stack : List Item) (t : Token)
    → IsEnd stops t
    → act stops stack t ≡ leave 0 stack
unfolding act at_separator
act-IsEnd stops stack t (inl e) = rw e refl
act-IsEnd stops stack t (inr (e, c)) = rw e (rw c refl)
