-- ===== src/Expression/Lexer/Numbers.antt =====
-- `read_number` of src/expression_engine/lexer.rs.
use ru_fsm.Common.{ℕ, ◌||◌, Option, none, some, if◌then◌else◌, ◌==◌, nat_eq, Run, ok, ◌>>=◌}
use ru_fsm.Common.Str.{Str, codes, len}
use ru_fsm.Common.Decimal.{is_ascii_digit, ParsedInt, parsed, refused, parse_i64}
use ru_fsm.Common.Loop.{Pass, again, finish, repeat}
use ru_fsm.Common.Float.{Float}
use ru_fsm.Expression.Token.{
  plus, minus, integer, double, Token, number, operator, separator, error,
}
use ru_fsm.Expression.Lexer.{Lexer, next_char, push_back, push, fuel}

-- The states of `read_number`, from 0 on.
pub data NumberState : Type 0 where
  init in_fix_point in_fraction after_exponent in_exponent after_minus after_sign : NumberState

-- How the loop of `read_number` ends: with a token at once, or by `break` in a state.
pub data NumberEnd : Type 0 where
  returned : Token → Lexer → NumberEnd
  broke : NumberState → Lexer → NumberEnd

abbrev pub NumberPass : Type 0
NumberPass = Pass (NumberState × ℕ × Lexer) NumberEnd

abbrev stay : NumberState → ℕ → Lexer → NumberPass
stay state c l = let m = next_char (push c l) in again (state, m.0, m.1)

abbrev leave : NumberState → Lexer → NumberPass
leave state l = finish (broke state (push_back l))

unfoldable pub at_dot : NumberState → ℕ → Lexer → NumberPass
at_dot init c l = stay in_fraction c l
at_dot in_fix_point c l = stay in_fraction c l
at_dot after_minus c l = stay in_fraction c l
at_dot s c l = leave s l

unfoldable pub at_digit : NumberState → ℕ → Lexer → NumberPass
at_digit init c l = stay in_fix_point c l
at_digit after_minus c l = stay in_fix_point c l
at_digit after_exponent c l = stay in_exponent c l
at_digit after_sign c l = stay in_exponent c l
at_digit s c l = stay s c l

unfoldable pub at_plus : NumberState → ℕ → Lexer → NumberPass
at_plus init c l = finish (returned (operator plus) l)
at_plus after_minus c l = finish (returned (operator minus) (push_back l))
at_plus after_exponent c l = stay after_sign c l
at_plus s c l = leave s l

unfoldable pub at_minus : NumberState → ℕ → Lexer → NumberPass
at_minus init c l = stay after_minus c l
at_minus after_exponent c l = stay after_sign c l
at_minus after_minus c l = finish (returned (operator minus) (push_back l))
at_minus s c l = leave s l

unfoldable pub at_exponent : NumberState → ℕ → Lexer → NumberPass
at_exponent in_fix_point c l = stay after_exponent c l
at_exponent in_fraction c l = stay after_exponent c l
at_exponent after_minus c l = finish (returned (operator minus) l)
at_exponent s c l = leave s l

-- a pass of the loop of `read_number`: the state, the character, the lexer behind it
unfoldable pub number_pass : NumberState × ℕ × Lexer → NumberPass
number_pass (state, c, l) =
    if c == b'.'
    then at_dot state c l
    else if is_ascii_digit c
    then at_digit state c l
    else if c == b'+'
    then at_plus state c l
    else if c == b'-'
    then at_minus state c l
    else if c == b'E' || c == b'e'
    then at_exponent state c l
    else if c == 0
    then finish (broke state l)
    else leave state l

int_token : ParsedInt → Token
int_token (parsed v) = number (integer v)
int_token (refused why) = error why

double_token : Option ℕ → Token
double_token none = error (codes "invalid float literal")
double_token (some v) = number (double v)

fraction_token : Float → Str → Token
unfolding double_token
fraction_token F s = if len s == 1 then separator b'.' else double_token (F.parse s)

-- the token of the state in which the loop breaks and of the buffer
unfoldable pub number_token : Float → NumberState → Str → Token
unfolding int_token fraction_token
number_token F in_fix_point s = int_token (parse_i64 s)
number_token F in_fraction s = fraction_token F s
number_token F in_exponent s = fraction_token F s
number_token F after_exponent s = error (codes "missing exponent in number")
number_token F after_sign s = error (codes "missing exponent in number")
number_token F after_minus s = operator minus
number_token F state s = error (codes "internal error")

unfoldable pub number_end : Float → NumberEnd → Token × Lexer
number_end F (returned t l) = (t, l)
number_end F (broke state l) = (number_token F state l.buffer, l)

unfoldable pub read_number : Float → ℕ → Lexer → Run (Token × Lexer)
read_number F c l = do end ← repeat number_pass (fuel l) (init, c, l); ok (number_end F end)
