-- ===== src/Expression/Lexer/Progress/Strings.antt =====
-- The progress of `read_string` and `read_operator` of src/expression_engine/lexer.rs.
use ru_fsm.Common.{
  ℕ, zero, suc, ◌+◌, ◌-◌, ◌≤◌, ◌<◌, arith, Bool, false, Option, none, some, [], ◌∷◌, ◌++◌, length,
  nat_eq,
}
use ru_fsm.Common.Loop.{Pass, again, finish, Advances, Returns, repeat-Returns}
use ru_fsm.Common.Str.{Str}
use ru_fsm.Expression.Lexer.{Lexer, next_char, fuel}
use ru_fsm.Expression.Lexer.Moves.{In, Taken, at_end, behind, next_char-Taken, next_char-In}
use ru_fsm.Expression.Lexer.Strings.{
  from_str_radix, from_u32, code_digits, code_value, code_point, code_escape, escaped, string_char,
  string_pass, read_string,
}
use ru_fsm.Expression.Token.{Token}

-- The lexer that a pass leaves, whether it ends the loop or not.
abbrev Leaves : Str → ℕ → Pass (Bool × Lexer) (Token × Lexer) → Type 0
Leaves text low (again s) = In text low s.1
Leaves text low (finish r) = In text low r.1

module _ (text : Str) (low : ℕ) where
  code_digits-In : (n : ℕ) (s : Str) (l : Lexer) → In text low l → In text low (code_digits n s l).1
  unfolding code_digits
  code_digits-In zero s l i = i
  code_digits-In (suc n) s l i =
      let j = next_char-In text low l i in
      ground (arith, j, code_digits-In n (s ++ (next_char l).0 ∷ []) (next_char l).1 j)

  code_escape-Leaves : (r : Option Str × Lexer) → In text low r.1 → Leaves text low (code_escape r)
  unfolding code_escape code_value code_point
  code_escape-Leaves (none, l) i = i
  code_escape-Leaves (some s, l) i =
      elim (from_str_radix s) as (λ o. Leaves text low (code_value o s l)) [
        | none ↦ i
        | some cpv ↦ elim (from_u32 cpv) as (λ o. Leaves text low (code_point o cpv s l)) [
          | none ↦ i
          | some c ↦ i
        ]
      ]

  string_char-Leaves :
      (delimiter : ℕ) (escape : Bool) (c : ℕ) (l : Lexer)
      → In text low l
      → Leaves text low (string_char delimiter escape c l)
  unfolding string_char escaped
  string_char-Leaves delimiter escape c l i =
      let coded = code_escape-Leaves (code_digits 4 [] l) (code_digits-In 4 [] l i) in
      ground (arith, i, coded)

Leaves→Advances :
    (text : Str) (low : ℕ) (s : Bool × Lexer) (p : Pass (Bool × Lexer) (Token × Lexer))
    → s.1.pos < length text
    → low ≤ s.1.pos
    → Leaves text (suc s.1.pos) p
    → Advances
        (λ (t : Bool × Lexer). In text low t.1)
        (λ t. length text - t.1.pos)
        (λ (r : Token × Lexer). In text low r.1)
        s
        p
Leaves→Advances text low s (again t) less h (e, a, b) = ((e, omega arith, b), omega arith, tt)
Leaves→Advances text low s (finish r) less h (e, a, b) = ((e, omega arith, b), tt)

module _ (text : Str) (low delimiter : ℕ) where
  abbrev StringAdvances : Bool × Lexer → Pass (Bool × Lexer) (Token × Lexer) → Type 0
  StringAdvances =
      Advances (λ (t : Bool × Lexer). In text low t.1) (λ t. length text - t.1.pos)
        (λ (r : Token × Lexer). In text low r.1)

  Taken-Advances :
      (escape : Bool) (l : Lexer) {r : ℕ × Lexer}
      → In text low l
      → Taken text l r
      → StringAdvances (escape, l) (string_char delimiter escape r.0 r.1)
  unfolding string_char
  Taken-Advances escape l i (at_end e) = (i, tt)
  Taken-Advances escape l i (behind c e less) =
      Leaves→Advances text low (escape, l)
        (string_char delimiter escape c (record l { pos = l.pos + 1 })) less i.1
        (string_char-Leaves text (suc l.pos) delimiter escape c (record l { pos = l.pos + 1 })
          (i.0, omega arith, omega arith))

  string_pass-Advances :
      (s : Bool × Lexer) → In text low s.1 → StringAdvances s (string_pass delimiter s)
  unfolding string_pass
  string_pass-Advances (escape, l) i = Taken-Advances escape l i (next_char-Taken text low l i)

-- A string ends, in the text.
pub read_string-Returns :
    (text : Str) (low delimiter : ℕ) (l : Lexer)
    → In text low l
    → Returns (λ (r : Token × Lexer). In text low r.1) (read_string delimiter l)
unfolding read_string
read_string-Returns text low delimiter l i =
    repeat-Returns (λ (t : Bool × Lexer). In text low t.1) (λ t. length text - t.1.pos)
      (λ (r : Token × Lexer). In text low r.1) (string_pass delimiter)
      (string_pass-Advances text low delimiter) (fuel l) (false, l) i (rw i.0 (omega arith))
