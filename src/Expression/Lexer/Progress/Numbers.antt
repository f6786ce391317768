-- ===== src/Expression/Lexer/Progress/Numbers.antt =====
-- The progress of `read_number` of src/expression_engine/lexer.rs.
use ru_fsm.Common.{
  ℕ, suc, ◌+◌, ◌-◌, ◌≤◌, ◌≡◌, ◌≢◌, refl, ap, arith, true, length, if◌then◌else◌, ◌==◌, nat_eq, Run,
  ok, ◌>>=◌,
}
use ru_fsm.Common.Decimal.{is_ascii_digit}
use ru_fsm.Common.Loop.{again, Advances, Returns, repeat-Returns}
use ru_fsm.Common.Str.{Str}
use ru_fsm.Common.Float.{Float}
use ru_fsm.Expression.Lexer.{Lexer, next_char, push, fuel}
use ru_fsm.Expression.Lexer.Moves.{In, Taken, at_end, behind, next_char-Taken}
use ru_fsm.Expression.Lexer.Next.{starts_number}
use ru_fsm.Expression.Lexer.Numbers.{
  NumberState, init, in_fix_point, in_fraction, after_exponent, in_exponent, after_minus,
  after_sign, NumberEnd, returned, broke, NumberPass, at_dot, at_digit, at_plus, at_minus,
  at_exponent, number_pass, number_end, read_number,
}
use ru_fsm.Expression.Token.{Token}

-- In the first pass the character starts a number; later there is a further character before it, if it is one.
abbrev Reached : ℕ → NumberState → ℕ → ℕ → Type 0
Reached low init c at = starts_number c ≡ true
Reached low _ c at = c ≢ 0 → suc low ≤ at

abbrev ended : NumberEnd → Lexer
ended (returned t l) = l
ended (broke s l) = l

-- the characters left: those of the text and the one taken
abbrev left : Str → NumberState × ℕ × Lexer → ℕ
left text (s, c, l) = (length text - l.pos) + (if c == 0 then 0 else 1)

module _ (text : Str) (low : ℕ) where
  abbrev Reading : NumberState × ℕ × Lexer → Type 0
  Reading (s, c, l) = In text low l × Reached low s c l.pos

  abbrev NumberAdvances : NumberState × ℕ × Lexer → NumberPass → Type 0
  NumberAdvances = Advances Reading (left text) (λ (e : NumberEnd). In text low (ended e))

  later-Reached :
      (state : NumberState) {c at : ℕ}
      → state ≢ init
      → (c ≢ 0 → suc low ≤ at)
      → Reached low state c at
  later-Reached init later h = absurd (later refl)
  later-Reached _ later h = h

  moved-Advances :
      (state s : NumberState) (c : ℕ) (l : Lexer) {r : ℕ × Lexer}
      → state ≢ init
      → c ≢ 0
      → In text low l
      → Taken text (push c l) r
      → NumberAdvances (s, c, l) (again (state, r.0, r.1))
  moved-Advances state s c l later h i (at_end e) =
      ((i, later-Reached state later (λ n. absurd (n refl))), ground arith, tt)
  moved-Advances state s c l later h i (behind d e less) = (
    ((i.0, omega (arith, i.1), omega arith), later-Reached state later (λ n. omega (arith, i.1))),
    ground arith,
    tt,
  )

  stay-Advances :
      (state s : NumberState) (c : ℕ) (l : Lexer)
      → state ≢ init
      → c ≢ 0
      → In text low l
      → NumberAdvances (s, c, l) (again (state, (next_char (push c l)).0, (next_char (push c l)).1))
  stay-Advances state s c l later h i =
      moved-Advances state s c l later h i (next_char-Taken text low (push c l) i)

  number_pass-Advances :
      (s : NumberState × ℕ × Lexer) → Reading s → NumberAdvances s (number_pass s)
  unfolding number_pass at_dot at_digit at_plus at_minus at_exponent starts_number is_ascii_digit
  number_pass-Advances (init, c, l) (i, r) = ground (
    arith,
    i,
    r,
    λ (n : c ≢ 0). stay-Advances in_fraction init c l (cc) n i,
    λ (n : c ≢ 0). stay-Advances in_fix_point init c l (cc) n i,
    λ (n : c ≢ 0). stay-Advances after_minus init c l (cc) n i,
  )
  number_pass-Advances (in_fix_point, c, l) (i, r) = ground (
    arith,
    i,
    r,
    λ (n : c ≢ 0). stay-Advances in_fraction in_fix_point c l (cc) n i,
    λ (n : c ≢ 0). stay-Advances in_fix_point in_fix_point c l (cc) n i,
    λ (n : c ≢ 0). stay-Advances after_exponent in_fix_point c l (cc) n i,
  )
  number_pass-Advances (in_fraction, c, l) (i, r) = ground (
    arith,
    i,
    r,
    λ (n : c ≢ 0). stay-Advances in_fraction in_fraction c l (cc) n i,
    λ (n : c ≢ 0). stay-Advances after_exponent in_fraction c l (cc) n i,
  )
  number_pass-Advances (after_exponent, c, l) (i, r) = ground (
    arith,
    i,
    r,
    λ (n : c ≢ 0). stay-Advances in_exponent after_exponent c l (cc) n i,
    λ (n : c ≢ 0). stay-Advances after_sign after_exponent c l (cc) n i,
  )
  number_pass-Advances (in_exponent, c, l) (i, r) =
      ground (arith, i, r, λ (n : c ≢ 0). stay-Advances in_exponent in_exponent c l (cc) n i)
  number_pass-Advances (after_minus, c, l) (i, r) = ground (
    arith,
    i,
    r,
    λ (n : c ≢ 0). stay-Advances in_fraction after_minus c l (cc) n i,
    λ (n : c ≢ 0). stay-Advances in_fix_point after_minus c l (cc) n i,
  )
  number_pass-Advances (after_sign, c, l) (i, r) =
      ground (arith, i, r, λ (n : c ≢ 0). stay-Advances in_exponent after_sign c l (cc) n i)

number_end-In :
    (text : Str) (low : ℕ) (F : Float) (e : NumberEnd)
    → In text low (ended e)
    → In text low (number_end F e).1
unfolding number_end
number_end-In text low F (returned t l) i = i
number_end-In text low F (broke s l) i = i

-- A number ends, in the text.
pub read_number-Returns :
    (text : Str) (low : ℕ) (F : Float) (c : ℕ) (l : Lexer)
    → In text low l
    → starts_number c ≡ true
    → Returns (λ (r : Token × Lexer). In text low r.1) (read_number F c l)
unfolding read_number
read_number-Returns text low F c l i start =
    let loop =
      repeat-Returns (Reading text low) (left text) (λ (e : NumberEnd). In text low (ended e))
        number_pass (number_pass-Advances text low) (fuel l) (init, c, l) (i, start)
        (rw i.0 (ground arith)) in
    record {
      value = number_end F loop.value;
      returns = ap (λ (r : Run NumberEnd). r >>= λ end. ok (number_end F end)) loop.returns;
      good = number_end-In text low F loop.value loop.good;
    }
