-- ===== src/Expression/Parser.antt =====
-- `ExpressionParser` of src/expression_engine/parser.rs.
pub mod Stack
pub mod Items
pub mod Shrinks
pub mod Plain
pub mod Bodies
pub mod Ends
pub mod Endless
pub mod Priority
mod Runs
use ru_fsm.Common.{
  Result, success, failure, ℕ, zero, suc, ◌+◌, ◌*◌, Bool, true, false, Option, none, some, List, [],
  ◌∷◌, ◌++◌, length, if◌then◌else◌, ◌==◌, nat_eq, Run, ok, stuck, ◌>>=◌,
}
use ru_fsm.Common.Str.{Str, codes}
use ru_fsm.Common.Float.{Float}
use ru_fsm.Expression.Lexer.{Lexer, new}
use ru_fsm.Expression.Lexer.Next.{next_token_with_stop}
use ru_fsm.Expression.Parser.Items.{
  Arguments, Action, go_on, leave, fail, group, list, members, separate, act, applied,
}
use ru_fsm.Expression.Parser.Stack.{Item, expression, stack_to_expression}
use ru_fsm.Expression.Syntax.{
  Expression, map, sequence, Expressions, nil, cons, push, Members, end, member, push_member,
}

-- A call of the parser: it runs, and returns a result or an error.
abbrev pub Parse {ℓ} : Type ℓ → Type ℓ
Parse A = Run (Result A)

-- `?`
unfoldable pub then_parse {ℓ κ} : {A : Type ℓ} {B : Type κ} → Parse A → (A → Parse B) → Parse B
then_parse stuck next = stuck
then_parse Run.panic next = Run.panic
then_parse (ok (failure why)) next = ok (failure why)
then_parse (ok (success a)) next = next a

unfoldable pub lift : {A : Type 0} → Result A → Parse A
lift r = ok r

abbrev Sub : Type 0
Sub = ℕ × Option Expression × Lexer

abbrev enough : List Item → ℕ
enough stack = suc (length stack)

add : Expressions → Option Expression → Expressions
add expressions none = expressions
add expressions (some e) = push expressions e

-- the expression of the stack behind those before; all of the stack is used
unfoldable pub stack_added : Expressions → Option Expression × List Item → Result Expressions
unfolding add
stack_added expressions (e, []) = success (add expressions e)
stack_added expressions (e, i ∷ is) = failure (codes "Failed to evaluate expression")

unfoldable pub flush : Expressions → List Item → Parse Expressions
unfolding stack_added lift
flush expressions stack =
    then_parse (stack_to_expression (enough stack) stack) (λ r. lift (stack_added expressions r))

-- the result for the expressions read
unfoldable pub joined : Expressions → Option Expression
joined nil = none
joined (cons e nil) = some e
joined es = some (sequence es)

unfoldable pub push_some : List Item → Option Expression → List Item
push_some stack none = stack
push_some stack (some e) = stack ++ expression e ∷ []

unfoldable pub is_nil : Expressions → Bool
is_nil nil = true
is_nil (cons e es) = false

unfoldable pub is_end : Members → Bool
is_end end = true
is_end (member k v ms) = false

unfoldable pub missing : ℕ → Str
missing stop = codes "Missing '" ++ stop ∷ codes "'"

-- The loops as the bodies of the loops call them: for a sub-expression, with the stops and what is read so far, for a
-- list of arguments and for a list of members, with the closing character and what is read so far.
pub record Loops : Type 0 where
  pub sub : Str → Expressions → List Item → Lexer → Parse Sub
  pub arguments : ℕ → Expressions → Lexer → Parse (Expressions × Lexer)
  pub members : ℕ → Members → Lexer → Parse (Members × Lexer)

module _ (r : Loops) where
  -- the body of `parse_sub_expression` behind the token
  unfoldable pub follow : Str → Expressions → Lexer → Action → Parse Sub
  unfolding push_some
  follow stops es l (go_on stack) = r.sub stops es stack l
  follow stops es l (leave stop stack) =
      then_parse (flush es stack) (λ all. ok (success (stop, joined all, l)))
  follow stops es l (fail why) = ok (failure why)
  follow stops es l (group stack) =
      then_parse (r.sub (codes ")") nil [] l) (λ s. r.sub stops es (push_some stack s.1) s.2)
  follow stops es l (list stop what stack) = then_parse (r.arguments stop nil l) (λ v.
      then_parse (ok (applied what v.0)) (λ e. r.sub stops es (stack ++ expression e ∷ []) v.1))
  follow stops es l (members stack) =
      then_parse (r.members b'}' end l)
        (λ v. r.sub stops es (stack ++ expression (map v.0) ∷ []) v.1)
  follow stops es l (separate stack) = then_parse (flush es stack) (λ all. r.sub stops all [] l)

  -- the body of `parse_argument_list` behind the sub-expression
  unfoldable pub argument :
      ℕ → Expressions → ℕ → Lexer → Option Expression → Parse (Expressions × Lexer)
  unfolding is_nil missing
  argument stop v stopc l none =
      if is_nil v then ok (success (v, l)) else ok (failure (codes "Error in argument list"))
  argument stop v stopc l (some e) =
      let more = r.arguments stop (push v e) l in
      if stopc == stop
      then ok (success (push v e, l))
      else if stopc == 0
      then ok (failure (missing stop))
      else more

  -- the body of `parse_member_list` behind the value
  unfoldable pub member_value :
      ℕ → Members → Expression → ℕ → Lexer → Option Expression → Parse (Members × Lexer)
  unfolding missing
  member_value stop v k stopc l none =
      ok (failure (codes "Missing value expression in member list"))
  member_value stop v k stopc l (some e) =
      let more = r.members stop (push_member v k e) l in
      if stopc == stop
      then ok (success (push_member v k e, l))
      else if stopc == 0
      then ok (failure (missing stop))
      else more

  -- and behind the key
  unfoldable pub member_key : ℕ → Members → Lexer → Option Expression → Parse (Members × Lexer)
  unfolding is_end
  member_key stop v l none =
      if is_end v then ok (success (v, l)) else ok (failure (codes "Error in member list"))
  member_key stop v l (some k) =
      then_parse (r.sub (b',' ∷ stop ∷ []) nil [] l) (λ s. member_value stop v k s.0 s.2 s.1)

-- Each pass of a loop takes a unit of fuel, and gives the calls in it what is left.
unfoldable mutual
  -- the loop of `parse_sub_expression`, with what is read so far
  pub sub_expression : ℕ → Float → Str → Expressions → List Item → Lexer → Parse Sub
  sub_expression zero F stops es stack l = stuck
  sub_expression (suc fuel) F stops es stack l = do
    t ← next_token_with_stop F stops l
    follow
        (record {
          sub = sub_expression fuel F;
          arguments = argument_list fuel F;
          members = member_list fuel F;
        })
        stops es t.1 (act stops stack t.0)

  -- the loop of `parse_argument_list`
  pub argument_list : ℕ → Float → ℕ → Expressions → Lexer → Parse (Expressions × Lexer)
  argument_list zero F stop v l = stuck
  argument_list (suc fuel) F stop v l =
      then_parse (sub_expression fuel F (b',' ∷ stop ∷ []) nil [] l) (λ s.
        argument
          (record {
            sub = sub_expression fuel F;
            arguments = argument_list fuel F;
            members = member_list fuel F;
          })
          stop v s.0 s.2 s.1)

  -- the loop of `parse_member_list`
  pub member_list : ℕ → Float → ℕ → Members → Lexer → Parse (Members × Lexer)
  member_list zero F stop v l = stuck
  member_list (suc fuel) F stop v l =
      then_parse (sub_expression fuel F (b':' ∷ stop ∷ []) nil [] l) (λ s.
        member_key
          (record {
            sub = sub_expression fuel F;
            arguments = argument_list fuel F;
            members = member_list fuel F;
          })
          stop v s.2 s.1)

unfoldable pub parsed : Option Expression → Result Expression
parsed none = failure (codes "Failed to parse")
parsed (some e) = success e

-- Two units for each character, and one.
abbrev pub fuel_for : Str → ℕ
fuel_for text = 2 * length text + 2

unfoldable pub parse : Float → ℕ → Str → Parse Expression
unfolding parsed lift
parse F fuel text =
    then_parse (sub_expression fuel F (0 ∷ []) nil [] (new text)) (λ s. lift (parsed s.1))
