-- ===== src/Expression/Lexer/Operators.antt =====
-- `read_operator` of src/expression_engine/lexer.rs.
use ru_fsm.Common.{ℕ, ◌||◌, if◌then◌else◌, ◌==◌, nat_eq}
use ru_fsm.Common.Str.{codes}
use ru_fsm.Expression.Token.{
  multiply, divide, plus, minus, less, less_equal, greater, greater_equal, assign, assign_undefined,
  equal, not_equal, and, or, modulus, not, Token, operator, error,
}
use ru_fsm.Expression.Lexer.{Lexer, next_char, push_back}

internal_error : Token
internal_error = error (codes "Internal Error")

-- the operator of two characters that ends in `=`
with_equals : ℕ → Token
unfolding internal_error
with_equals first =
    if first == b'?'
    then operator assign_undefined
    else if first == b'<'
    then operator less_equal
    else if first == b'>'
    then operator greater_equal
    else if first == b'='
    then operator equal
    else if first == b'!'
    then operator not_equal
    else internal_error

unfoldable pub without_equals : ℕ → Token
unfolding internal_error
without_equals first =
    if first == b'<'
    then operator less
    else if first == b'>'
    then operator greater
    else if first == b'='
    then operator assign
    else if first == b'!'
    then operator not
    else internal_error

-- on the second character and the lexer behind it
unfoldable pub second_char : ℕ → ℕ → Lexer → Token × Lexer
unfolding with_equals without_equals
second_char first second l =
    if second == b'=' then (with_equals first, l) else (without_equals first, push_back l)

unfoldable pub read_operator : ℕ → Lexer → Token × Lexer
unfolding second_char
read_operator first l =
    if first == b'-'
    then (operator minus, l)
    else if first == b'+'
    then (operator plus, l)
    else if first == b'*'
    then (operator multiply, l)
    else if first == b':' || first == b'/'
    then (operator divide, l)
    else if first == b'&'
    then (operator and, l)
    else if first == b'|'
    then (operator or, l)
    else if first == b'%'
    then (operator modulus, l)
    else second_char first (next_char l).0 (next_char l).1
