-- ===== src/Expression/Lexer/Next.antt =====
-- `next_token_with_stop` and its callers of src/expression_engine/lexer.rs.
use ru_fsm.Common.{
  Result, success, failure, ℕ, Bool, ◌||◌, true, false, [], ◌∷◌, if◌then◌else◌, ◌==◌, nat_eq, Run,
  ok, ◌>>=◌,
}
use ru_fsm.Common.Decimal.{is_ascii_digit}
use ru_fsm.Common.Loop.{Pass, again, finish, repeat}
use ru_fsm.Common.Str.{Str, codes, contains, str_beq}
use ru_fsm.Common.Float.{Float}
use ru_fsm.Expression.Token.{
  NumericToken, Token, number, identifier, boolean, bracket, separator, expression_separator, null,
  error, eoe,
}
use ru_fsm.Expression.Lexer.{
  Lexer, is_stop, is_string_delimiter, next_char, push_back, push, clear, fuel, eat_space,
}
use ru_fsm.Expression.Lexer.Numbers.{read_number}
use ru_fsm.Expression.Lexer.Operators.{read_operator}
use ru_fsm.Expression.Lexer.Strings.{read_string}

-- a pass of the loop of `next_token_with_stop` that fills the buffer
unfoldable pub name_pass : ℕ × Lexer → Pass (ℕ × Lexer) (ℕ × Lexer)
name_pass (c, l) = if is_stop c then finish (c, l) else again (next_char (push c l))

-- the token of a filled buffer
unfoldable pub word : Str → Token
word s =
    if str_beq s (codes "true")
    then boolean true
    else if str_beq s (codes "false")
    then boolean false
    else if str_beq s (codes "null")
    then null
    else identifier s

-- the token that starts with the stop `c`
unfoldable pub symbol : Str → ℕ → Lexer → Run (Token × Lexer)
symbol hard_stops c l =
    if is_string_delimiter c
    then read_string c l
    else if contains hard_stops c
    then ok (separator c, l)
    else if c == 0
    then ok (eoe, l)
    else if contains (codes "?+-*<>=%/:!&|") c
    then ok (read_operator c l)
    else if contains (codes "{}()[]") c
    then ok (bracket c, l)
    else if c == b';'
    then ok (expression_separator, l)
    else ok (separator c, l)

unfoldable pub at_stop : Str → ℕ → Lexer → Str → Run (Token × Lexer)
at_stop hard_stops c l [] = symbol hard_stops c l
at_stop hard_stops c l (d ∷ s) = ok (word (d ∷ s), if c == 0 then l else push_back l)

unfoldable pub starts_number : ℕ → Bool
starts_number c = is_ascii_digit c || c == b'-' || c == b'+' || c == b'.'

-- the token from its first character on
unfoldable pub token_from : Float → Str → ℕ × Lexer → Run (Token × Lexer)
token_from F hard_stops (c, l) =
    let name = repeat name_pass (fuel l) (c, l) >>= λ s. at_stop hard_stops s.0 s.1 s.1.buffer in
    if starts_number c then read_number F c l else name

unfoldable pub next_token_with_stop : Float → Str → Lexer → Run (Token × Lexer)
next_token_with_stop F hard_stops l = do
  start ← eat_space l
  token_from F hard_stops (next_char (clear start))

unfoldable pub next_token : Float → Lexer → Run (Token × Lexer)
next_token F = next_token_with_stop F []

number_of : Token → Result NumericToken
number_of (number e) = success e
number_of (error s) = failure s
number_of t = failure []

unfoldable pub next_number : Float → Lexer → Run (Result NumericToken × Lexer)
unfolding number_of
next_number F l = do r ← next_token F l; ok (number_of r.0, r.1)
