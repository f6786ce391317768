-- ===== src/Expression/Parser/Ends.antt =====
-- The parser of src/expression_engine/parser.rs comes to an end on a text that does not end open.
use ru_fsm.Common.{
  Result, ℕ, zero, suc, ◌-◌, ◌*◌, ◌≤◌, ◌≡◌, refl, subst, arith, inl, inr, List, [], ◌∷◌, length,
  nat_eq, ok,
}
use ru_fsm.Common.Loop.{Returns, ok-Returns, bind-Returns}
use ru_fsm.Common.Str.{Str}
use ru_fsm.Common.Float.{Float}
use ru_fsm.Expression.Lexer.{Lexer, new}
use ru_fsm.Expression.Lexer.Next.{next_token_with_stop}
use ru_fsm.Expression.Lexer.Progress.{EndsOpen, Moved, next_token_with_stop-Moved}
use ru_fsm.Expression.Parser.{
  lift, parsed, Loops, follow, sub_expression, argument_list, member_list, parse, fuel_for,
}
use ru_fsm.Expression.Parser.Bodies.{
  Good, then_parse-Returns, Good-any, flush-Returns, SubAfter, LoopsReturn, follow-Returns,
  argument-Returns, member_key-Returns,
}
use ru_fsm.Expression.Parser.Items.{act}
use ru_fsm.Expression.Parser.Plain.{act-Plain, act-IsEnd}
use ru_fsm.Expression.Parser.Shrinks.{Plain}
use ru_fsm.Expression.Parser.Stack.{Item}
use ru_fsm.Expression.Syntax.{Expression, Expressions, nil}
use ru_fsm.Expression.Token.{Token}

abbrev loops : ℕ → Float → Loops
loops fuel F = record {
  sub = sub_expression fuel F;
  arguments = argument_list fuel F;
  members = member_list fuel F;
}

module _ (F : Float) (text : Str) (closed : ¬ EndsOpen text) where
  token-Returns :
      (fuel : ℕ) (r : Loops)
      → LoopsReturn text fuel r
      → (stops : Str) (es : Expressions) (stack : List Item) (l : Lexer) (t : Token × Lexer)
      → Plain stack
      → Moved stops text l.pos t
      → 2 * (length text - l.pos) ≤ fuel
      → Returns (Good (SubAfter text l.pos)) (follow r stops es t.1 (act stops stack t.0))
  unfolding follow
  token-Returns fuel r ih stops es stack l t p (i, inl last) h =
      rw (act-IsEnd stops stack t.0 last) (
        then_parse-Returns _ _ (flush-Returns es stack p)
          λ all _. ok-Returns _ (i, λ n. absurd (n refl)))
  token-Returns fuel r ih stops es stack l t p (i, inr (inl less)) h =
      follow-Returns text fuel r ih l.pos stops es t.1 (act stops stack t.0) (i.0, less, i.2)
        (act-Plain stops stack t.0 p) (omega (arith, i.2, less, h))
  token-Returns fuel r ih stops es stack l t p (i, inr (inr last)) h = absurd (closed last)

  loops-Return : (fuel : ℕ) → LoopsReturn text fuel (loops fuel F)
  unfolding sub_expression argument_list member_list
  loops-Return zero = record {
    sub = λ stops es stack l i p h. absurd (omega arith);
    arguments = λ stop v l i h. absurd (omega arith);
    members = λ stop v l i h. absurd (omega arith);
  }
  loops-Return (suc fuel) =
      let ih = loops-Return fuel in
      record {
        sub = λ stops es stack l i p h.
            bind-Returns _
              (subst (λ (x : Str). Returns (Moved stops x l.pos) (next_token_with_stop F stops l))
                i.0 (next_token_with_stop-Moved F stops l (rw i.0 i.2)))
              (λ t m. token-Returns fuel (loops fuel F) ih stops es stack l t p m (omega arith));
        arguments = λ stop v l i h.
            then_parse-Returns _ _ (ih.sub (b',' ∷ stop ∷ []) nil [] l i tt (omega arith)) λ s k.
              argument-Returns text fuel (loops fuel F) ih l.pos stop v s.0 s.2 s.1 k (omega arith);
        members = λ stop v l i h.
            then_parse-Returns _ _ (ih.sub (b':' ∷ stop ∷ []) nil [] l i tt (omega arith))
              λ s (j, k).
                member_key-Returns text fuel (loops fuel F) ih l.pos stop v s.2 s.1 j (omega arith);
      }

-- A text that does not end in one of `?`, `<`, `>`, `=` and `!` is parsed: with two units of fuel for each character,
-- and two more, there is an expression or an error, and no panic.
pub parse_returns :
    (F : Float) (text : Str)
    → ¬ EndsOpen text
    → (r : Result Expression) × (parse F (fuel_for text) text ≡ ok r)
unfolding parse lift
parse_returns F text closed =
    let all =
      (loops-Return F text closed (fuel_for text)).sub (0 ∷ []) nil [] (new text)
        (refl, omega arith, omega arith) tt (omega arith) in
    let r =
      then_parse-Returns (λ (e : Expression). Unit {0}) _ all
        (λ s _. ok-Returns _ (Good-any (parsed s.1))) in
    (r.value, r.returns)
