-- ===== src/Expression/Lexer/Runs.antt =====
-- Runs of the lexer on short texts.
use ru_fsm.Common.{refl, ◌≡◌, [], ◌∷◌, Run, ok, ◌>>=◌, ℕ, List, zero, suc}
use ru_fsm.Common.Decimal.{is_ascii_digit, negative, parse_i64, show_int, show_nat}
use ru_fsm.Common.Float.{idle}
use ru_fsm.Common.Int.{pos, negsuc}
use ru_fsm.Common.Loop.{repeat}
use ru_fsm.Common.Str.{codes, contains, len, starts_with, str_beq}
use ru_fsm.Expression.Lexer.Operators.{read_operator, second_char, without_equals}
use ru_fsm.Expression.Syntax.{is_assignable, push, push_member}
use ru_fsm.Expression.Parser.Stack.{
  combine, first_of, fold_at, fold_best, fold_not, fold_operator, fold_stack_at, folded, negated,
  priority, replaced, select_member, stack_to_expression, visit, visit_all,
}
use ru_fsm.Expression.Lexer.Strings.{
  code_digits, code_escape, code_point, code_value, escaped, from_str_radix, from_u32, read_string,
  string_char, string_pass,
}
use ru_fsm.Expression.Lexer.Numbers.{
  at_digit, at_dot, at_exponent, at_minus, at_plus, number_end, number_pass, number_token,
  read_number,
}
use ru_fsm.Expression.Parser.{
  argument, flush, follow, is_end, is_nil, joined, lift, member_key, member_value, missing, parse,
  parsed, push_some, stack_added, then_parse,
}
use ru_fsm.Expression.Parser.Items.{
  act, applied, at_bracket, at_separator, open_group, open_list, pop, unexpected,
}
use ru_fsm.Expression.Token.{
  Token, number, identifier, operator, tstring, integer, less_equal, plus, eoe,
}
use ru_fsm.Expression.Lexer.{
  Lexer, eat_space, has_next, is_stop, is_string_delimiter, is_whitespace, new, next_char, space_at,
  space_pass, taken,
}
use ru_fsm.Expression.Lexer.Next.{
  at_stop, name_pass, next_number, next_token, next_token_with_stop, starts_number, symbol,
  token_from, word,
}

-- the first `n` tokens
abbrev tokens : ℕ → Lexer → Run (List Token)
tokens zero l = ok []
tokens (suc n) l = next_token idle l >>= λ r. tokens n r.1 >>= λ ts. ok (r.0 ∷ ts)

-- `a <= -12 'q\u0041'`, and `a-1+1`, where the minus belongs to the number
runs :
    (tokens 5 (new (codes "a <= -12 'q\\u0041'"))
      ≡ ok (
          identifier (codes "a")
          ∷ operator less_equal
          ∷ number (integer (negsuc 11))
          ∷ tstring (codes "qA")
          ∷ eoe
          ∷ []))
    × (tokens 4 (new (codes "a-1+1"))
        ≡ ok (
            identifier (codes "a")
            ∷ number (integer (negsuc 0))
            ∷ operator plus
            ∷ number (integer (pos 1))
            ∷ []))
unfolding act applied argument at_bracket at_digit at_dot at_exponent at_minus at_plus at_separator
    at_stop code_digits code_escape code_point code_value combine contains eat_space escaped
    first_of flush fold_at fold_best fold_not fold_operator fold_stack_at folded follow
    from_str_radix from_u32 has_next is_ascii_digit is_assignable is_end is_nil is_stop
    is_string_delimiter is_whitespace joined len lift member_key member_value missing name_pass
    negated negative next_char next_number next_token next_token_with_stop number_end number_pass
    number_token open_group open_list parse parse_i64 parsed pop priority push push_member push_some
    read_number read_operator read_string repeat replaced second_char select_member show_int
    show_nat space_at space_pass stack_added stack_to_expression starts_number starts_with str_beq
    string_char string_pass symbol taken then_parse token_from unexpected visit visit_all
    without_equals word
runs = (refl, refl)
