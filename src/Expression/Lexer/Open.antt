-- ===== src/Expression/Lexer/Open.antt =====
-- The token behind which a text ends open: src/expression_engine/lexer.rs pushes a character back that it did not take.
use ru_fsm.Common.{ℕ, ◌+◌, ◌≡◌, refl, ap, arith, false, none, some, [], get_elem?, nat_eq, ok}
use ru_fsm.Common.Decimal.{is_ascii_digit}
use ru_fsm.Common.Loop.{repeat-finish}
use ru_fsm.Common.Str.{Str, contains}
use ru_fsm.Common.Float.{Float}
use ru_fsm.Expression.Lexer.{
  Lexer, fuel, clear, taken, next_char, is_whitespace, is_stop, is_string_delimiter, space_at,
  space_pass, eat_space,
}
use ru_fsm.Expression.Lexer.Next.{
  name_pass, symbol, at_stop, starts_number, token_from, next_token_with_stop,
}
use ru_fsm.Expression.Lexer.Operators.{read_operator, second_char, without_equals}
use ru_fsm.Expression.Token.{operator, less}

-- The lexer is before the last character of its text, `<`.
abbrev pub AtLess : Lexer → Type 0
AtLess l = (get_elem? l.text l.pos ≡ some b'<') × (get_elem? l.text (l.pos + 1) ≡ none)

module _ (F : Float) (stops : Str) (l : Lexer) (here : get_elem? l.text l.pos ≡ some b'<') where
  eat_space-AtLess : eat_space l ≡ ok l
  unfolding eat_space space_pass space_at is_whitespace
  eat_space-AtLess = repeat-finish space_pass (fuel l) l (omega arith) (rw here refl)

  next_char-AtLess : next_char (clear l) ≡ (b'<', record l { pos = l.pos + 1; buffer = [] })
  unfolding next_char taken
  next_char-AtLess = rw here refl

  symbol-AtLess :
      get_elem? l.text (l.pos + 1) ≡ none
      → contains stops b'<' ≡ false
      → symbol stops b'<' (record l { pos = l.pos + 1; buffer = [] })
        ≡ ok (operator less, record l { buffer = [] })
  unfolding symbol is_string_delimiter read_operator second_char without_equals next_char taken
      contains
  symbol-AtLess last s = rw s (
      rw last (ap (λ (n : ℕ). ok (operator less, record l { pos = n; buffer = [] })) (omega arith)))

  token_from-AtLess :
      get_elem? l.text (l.pos + 1) ≡ none
      → contains stops b'<' ≡ false
      → token_from F stops (b'<', record l { pos = l.pos + 1; buffer = [] })
        ≡ ok (operator less, record l { buffer = [] })
  unfolding token_from starts_number is_ascii_digit name_pass is_stop is_whitespace contains at_stop
  token_from-AtLess last s =
      let at : ℕ × Lexer = (b'<', record l { pos = l.pos + 1; buffer = [] }) in
      rw (repeat-finish name_pass (fuel l) at {a = at} (omega arith) refl) (symbol-AtLess last s)

-- There the token is `<`, and the lexer stays where it is.
pub next_token_with_stop-AtLess :
    (F : Float) (stops : Str) (l : Lexer)
    → AtLess l
    → contains stops b'<' ≡ false
    → next_token_with_stop F stops l ≡ ok (operator less, record l { buffer = [] })
unfolding next_token_with_stop
next_token_with_stop-AtLess F stops l (here, last) s =
    rw (eat_space-AtLess F stops l here)
      (rw (next_char-AtLess F stops l here) (token_from-AtLess F stops l here last s))
