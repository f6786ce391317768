-- ===== src/Expression/Parser/Bodies.antt =====
-- The bodies of the loops of src/expression_engine/parser.rs return, if the loops that they call do.
use ru_fsm.Common.{
  Result, success, failure, ℕ, suc, ◌+◌, ◌-◌, ◌*◌, ◌≤◌, ◌<◌, ◌≢◌, refl, ap, ◌∙◌, arith, Option,
  none, some, List, [], ◌∷◌, ◌++◌, length, ◌==◌, nat_eq, ok,
}
use ru_fsm.Common.Loop.{Returns, ok-Returns, if-Returns, weaken-Returns}
use ru_fsm.Common.Str.{Str, codes}
use ru_fsm.Expression.Lexer.{Lexer}
use ru_fsm.Expression.Lexer.Moves.{In}
use ru_fsm.Expression.Parser.{
  Parse, then_parse, flush, stack_added, lift, push_some, is_nil, is_end, Loops, follow, argument,
  member_value, member_key,
}
use ru_fsm.Expression.Parser.Items.{
  Arguments, Action, go_on, leave, fail, group, list, members, separate, applied,
}
use ru_fsm.Expression.Parser.Plain.{PlainAction, Plain-push}
use ru_fsm.Expression.Parser.Shrinks.{Plain, stack_to_expression-Returns}
use ru_fsm.Expression.Parser.Stack.{Item, expression}
use ru_fsm.Expression.Syntax.{Expression, map, Expressions, nil, push, Members, end, push_member}

-- A good result, or an error.
abbrev pub Good {ℓ ν} : {A : Type ℓ} → (A → Type ν) → Result A → Type ν
Good Q (failure why) = Unit {ν}
Good Q (success a) = Q a

pub then_parse-Returns {ℓ κ μ ν} :
    {A : Type ℓ} {B : Type κ} {P : A → Type μ} (Q : B → Type ν) {run : Parse A} (next : A → Parse B)
    → Returns (Good P) run
    → ((a : A) → P a → Returns (Good Q) (next a))
    → Returns (Good Q) (then_parse run next)
unfolding then_parse
then_parse-Returns {P = P} Q next r k =
    let go : (a : Result _) → Good P a → Returns (Good Q) (then_parse (ok a) next) = elim [
      | failure why ↦ λ _. ok-Returns (failure why) tt
      | success a ↦ k a
    ] in
    let after = go r.value r.good in
    record {
      value = after.value;
      returns = ap (λ m. then_parse m next) r.returns ∙ after.returns;
      good = after.good;
    }

pub Good-any {ℓ} : {A : Type ℓ} (x : Result A) → Good (λ (a : A). Unit {0}) x
Good-any (failure why) = tt
Good-any (success a) = tt

pub flush-Returns :
    (es : Expressions) (stack : List Item)
    → Plain stack
    → Returns (Good (λ (x : Expressions). Unit {0})) (flush es stack)
unfolding flush lift
flush-Returns es stack p =
    then_parse-Returns {P = λ (r : Option Expression × List Item). Unit {0}} _ _
      (weaken-Returns (stack_to_expression-Returns (suc (length stack)) stack p (omega arith))
        (elim [ failure why ↦ λ _. tt | success r ↦ λ _. tt ]))
      λ r _. ok-Returns (stack_added es r) (Good-any (stack_added es r))

-- A sub-expression ends in the text, and behind `at` if it ends at a stop.
abbrev pub SubAfter : Str → ℕ → ℕ × Option Expression × Lexer → Type 0
SubAfter text at s = In text at s.2 × (s.0 ≢ 0 → at < s.2.pos)

abbrev pub ListAfter {ℓ} : {A : Type ℓ} → Str → ℕ → A × Lexer → Type 0
ListAfter text at r = In text at r.1

-- The loops return on a text, if it has few characters left.
pub record LoopsReturn (text : Str) (fuel : ℕ) (r : Loops) : Type 0 where
  pub sub :
      (stops : Str) (es : Expressions) (stack : List Item) (l : Lexer)
      → In text 0 l
      → Plain stack
      → 2 * (length text - l.pos) + 1 ≤ fuel
      → Returns (Good (SubAfter text l.pos)) (r.sub stops es stack l)
  pub arguments :
      (stop : ℕ) (v : Expressions) (l : Lexer)
      → In text 0 l
      → 2 * (length text - l.pos) + 2 ≤ fuel
      → Returns (Good (ListAfter text l.pos)) (r.arguments stop v l)
  pub members :
      (stop : ℕ) (v : Members) (l : Lexer)
      → In text 0 l
      → 2 * (length text - l.pos) + 2 ≤ fuel
      → Returns (Good (ListAfter text l.pos)) (r.members stop v l)

push_some-Plain :
    (stack : List Item) (e : Option Expression) → Plain stack → Plain (push_some stack e)
unfolding push_some
push_some-Plain stack none p = p
push_some-Plain stack (some e) p = Plain-push stack (expression e) p refl

applied-Returns :
    (what : Arguments) (v : Expressions)
    → Returns (Good (λ (e : Expression). Unit {0})) (ok (applied what v))
applied-Returns what v = ok-Returns (applied what v) (Good-any (applied what v))

pub In-0 : {text : Str} {at : ℕ} (l : Lexer) → In text at l → In text 0 l
In-0 l i = (i.0, omega arith, i.2)

ListAfter-weaken {ℓ} :
    {A : Type ℓ} {text : Str} {at : ℕ} (l : Lexer) (x : Result (A × Lexer))
    → In text at l
    → Good (ListAfter text l.pos) x
    → Good (ListAfter text at) x
ListAfter-weaken l (failure why) i g = tt
ListAfter-weaken l (success x) i g = (g.0, omega (arith, i.1, g.1), g.2)

module _ (text : Str) (fuel : ℕ) (r : Loops) (ih : LoopsReturn text fuel r) where
  sub-After :
      (at : ℕ) (stops : Str) (es : Expressions) (stack : List Item) (l : Lexer)
      → In text (suc at) l
      → Plain stack
      → 2 * (length text - l.pos) + 1 ≤ fuel
      → Returns (Good (SubAfter text at)) (r.sub stops es stack l)
  sub-After at stops es stack l i p h =
      weaken-Returns (ih.sub stops es stack l (In-0 l i) p h) (elim [
        | failure why ↦ λ _. tt
        | success s ↦ λ (j, k). ((j.0, omega (arith, i.1, j.1), j.2), λ n. omega (arith, i.1, j.1))
      ])

  pub follow-Returns :
      (at : ℕ) (stops : Str) (es : Expressions) (l : Lexer) (a : Action)
      → In text (suc at) l
      → PlainAction a
      → 2 * (length text - l.pos) + 2 ≤ fuel
      → Returns (Good (SubAfter text at)) (follow r stops es l a)
  unfolding follow
  follow-Returns at stops es l (go_on stack) i p h = sub-After at stops es stack l i p (omega arith)
  follow-Returns at stops es l (leave stop stack) i p h =
      then_parse-Returns _ _ (flush-Returns es stack p)
        λ all _. ok-Returns _ ((i.0, omega (arith, i.1), i.2), λ _. omega (arith, i.1))
  follow-Returns at stops es l (fail why) i p h = ok-Returns _ tt
  follow-Returns at stops es l (separate stack) i p h =
      then_parse-Returns _ _ (flush-Returns es stack p)
        λ all _. sub-After at stops all [] l i tt (omega arith)
  follow-Returns at stops es l (group stack) i p h =
      then_parse-Returns _ _ (ih.sub (codes ")") nil [] l (In-0 l i) tt (omega arith)) λ s (j, _).
        sub-After at stops es (push_some stack s.1) s.2 (j.0, omega (arith, i.1, j.1), j.2)
          (push_some-Plain stack s.1 p) (omega (arith, j.1, h))
  follow-Returns at stops es l (list stop what stack) i p h =
      then_parse-Returns _ _ (ih.arguments stop nil l (In-0 l i) h) λ v j.
        then_parse-Returns {P = λ (e : Expression). Unit {0}} _ _ (applied-Returns what v.0) λ e _.
          sub-After at stops es (stack ++ expression e ∷ []) v.1 (j.0, omega (arith, i.1, j.1), j.2)
            (Plain-push stack (expression e) p refl) (omega (arith, j.1, h))
  follow-Returns at stops es l (members stack) i p h =
      then_parse-Returns _ _ (ih.members b'}' end l (In-0 l i) h) λ v j.
        sub-After at stops es (stack ++ expression (map v.0) ∷ []) v.1
          (j.0, omega (arith, i.1, j.1), j.2) (Plain-push stack (expression (map v.0)) p refl)
          (omega (arith, j.1, h))

  pub argument-Returns :
      (at stop : ℕ) (v : Expressions) (stopc : ℕ) (l : Lexer) (e : Option Expression)
      → SubAfter text at (stopc, e, l)
      → 2 * (length text - at) + 1 ≤ fuel
      → Returns (Good (ListAfter text at)) (argument r stop v stopc l e)
  unfolding argument
  argument-Returns at stop v stopc l none (i, k) h =
      if-Returns (is_nil v) (λ _. ok-Returns _ i) (λ _. ok-Returns _ tt)
  argument-Returns at stop v stopc l (some e) (i, k) h =
      if-Returns (stopc == stop) (λ _. ok-Returns _ i)
        λ _.
          if-Returns (stopc == 0) (λ _. ok-Returns _ tt)
            λ n.
              let less : at < l.pos = k (ground arith) in
              weaken-Returns
                (ih.arguments stop (push v e) l (In-0 l i) (omega (arith, i.2, less, h)))
                (λ (x : Result (Expressions × Lexer)). ListAfter-weaken l x i)

  member_value-Returns :
      (at stop : ℕ) (v : Members) (key : Expression) (stopc : ℕ) (l : Lexer) (e : Option Expression)
      → SubAfter text at (stopc, e, l)
      → 2 * (length text - at) + 1 ≤ fuel
      → Returns (Good (ListAfter text at)) (member_value r stop v key stopc l e)
  unfolding member_value
  member_value-Returns at stop v key stopc l none (i, k) h = ok-Returns _ tt
  member_value-Returns at stop v key stopc l (some e) (i, k) h =
      if-Returns (stopc == stop) (λ _. ok-Returns _ i)
        λ _.
          if-Returns (stopc == 0) (λ _. ok-Returns _ tt)
            λ n.
              let less : at < l.pos = k (ground arith) in
              weaken-Returns
                (ih.members stop (push_member v key e) l (In-0 l i) (omega (arith, i.2, less, h)))
                (λ (x : Result (Members × Lexer)). ListAfter-weaken l x i)

  pub member_key-Returns :
      (at stop : ℕ) (v : Members) (l : Lexer) (e : Option Expression)
      → In text at l
      → 2 * (length text - at) + 1 ≤ fuel
      → Returns (Good (ListAfter text at)) (member_key r stop v l e)
  unfolding member_key
  member_key-Returns at stop v l none i h =
      if-Returns (is_end v) (λ _. ok-Returns _ i) (λ _. ok-Returns _ tt)
  member_key-Returns at stop v l (some e) i h =
      then_parse-Returns _ _
        (ih.sub (b',' ∷ stop ∷ []) nil [] l (In-0 l i) tt (omega (arith, i.1, h)))
        λ s (j, k).
          member_value-Returns at stop v e s.0 s.2 s.1
            ((j.0, omega (arith, i.1, j.1), j.2), λ n. omega (arith, i.1, k n)) h
