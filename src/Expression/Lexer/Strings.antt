-- ===== src/Expression/Lexer/Strings.antt =====
-- `read_string` of src/expression_engine/lexer.rs.
use ru_fsm.Common.{
  ℕ, suc, zero, ◌+◌, ◌-◌, ◌*◌, ◌^◌, Bool, true, false, ◌&&◌, ◌||◌, Option, none, some, [], ◌∷◌,
  ◌++◌, ltb, leb, if◌then◌else◌, ◌==◌, nat_eq, Run,
}
use ru_fsm.Common.Str.{Str, codes}
use ru_fsm.Common.Decimal.{is_ascii_digit, show_nat}
use ru_fsm.Common.Loop.{Pass, again, finish, repeat}
use ru_fsm.Expression.Token.{Token, tstring, error}
use ru_fsm.Expression.Lexer.{Lexer, next_char, push, fuel}

digit16 : ℕ → Option ℕ
digit16 c =
    if is_ascii_digit c
    then some (c - b'0')
    else if leb b'a' c && leb c b'f'
    then some (c - b'a' + 10)
    else if leb b'A' c && leb c b'F'
    then some (c - b'A' + 10)
    else none

-- a further digit behind the value so far, in 32 bits
shifted : Option ℕ → ℕ → Option ℕ
shifted none n = none
shifted (some d) n = if ltb (n * 16 + d) (2 ^ 32) then some (n * 16 + d) else none

hex_scan : Str → ℕ → Option ℕ
unfolding digit16 shifted
hex_scan [] n = some n
hex_scan (c ∷ s) n = elim (shifted (digit16 c) n) [ none ↦ none | some m ↦ hex_scan s m ]

-- `u32::from_str_radix(_, 16)`
unfoldable pub from_str_radix : Str → Option ℕ
unfolding hex_scan
from_str_radix [] = none
from_str_radix (c ∷ s) = hex_scan (c ∷ s) 0

-- `char::from_u32`
unfoldable pub from_u32 : ℕ → Option ℕ
from_u32 n = if ltb n 0xd800 || (leb 0xe000 n && ltb n 0x11_0000) then some n else none

-- the loop over the 4 digits behind `\u`; `none` for another character
unfoldable pub code_digits : ℕ → Str → Lexer → Option Str × Lexer
code_digits zero s l = (some s, l)
code_digits (suc n) s l =
    let c = (next_char l).0 in
    let rest = code_digits n (s ++ c ∷ []) (next_char l).1 in
    if is_ascii_digit c then rest else (none, (next_char l).1)

abbrev StringPass : Type 0
StringPass = Pass (Bool × Lexer) (Token × Lexer)

abbrev fail_string : Str → Lexer → StringPass
fail_string why l = finish (error why, l)

-- in order: the number of the code point, its digits
unfoldable pub code_point : Option ℕ → ℕ → Str → Lexer → StringPass
code_point none cpv s l =
    fail_string (codes "Illegal codepoint " ++ show_nat cpv ++ codes " in \\u sequence " ++ s) l
code_point (some c) cpv s l = again (false, push c l)

unfoldable pub code_value : Option ℕ → Str → Lexer → StringPass
unfolding code_point
code_value none s l = fail_string (codes "Illegal \\u sequence " ++ s) l
code_value (some cpv) s l = code_point (from_u32 cpv) cpv s l

unfoldable pub code_escape : Option Str × Lexer → StringPass
unfolding code_value
code_escape (none, l) = fail_string (codes "Illegal \\u sequence in String") l
code_escape (some s, l) = code_value (from_str_radix s) s l

-- the character behind a backslash
unfoldable pub escaped : ℕ → Lexer → StringPass
escaped c l =
    if c == b'"' || c == b'\\' || c == b'/'
    then again (false, push c l)
    else if c == b'b'
    then again (false, push 0x8 l)
    else if c == b'f'
    then again (false, push 0xc l)
    else if c == b'n'
    then again (false, push b'\n' l)
    else if c == b'r'
    then again (false, push b'\r' l)
    else if c == b't'
    then again (false, push b'\t' l)
    else if c == b'u'
    then code_escape (code_digits 4 [] l)
    else fail_string (codes "Illegal escape sequence in String") l

-- a pass of the loop of `read_string`, on the character it takes
unfoldable pub string_char : ℕ → Bool → ℕ → Lexer → StringPass
string_char delimiter escape c l =
    if c == 0
    then fail_string (codes "Missing string delimiter") l
    else if escape
    then escaped c l
    else if c == b'\\'
    then again (true, l)
    else if c == delimiter
    then finish (tstring l.buffer, l)
    else again (false, push c l)

unfoldable pub string_pass : ℕ → Bool × Lexer → StringPass
string_pass delimiter (escape, l) = string_char delimiter escape (next_char l).0 (next_char l).1

unfoldable pub read_string : ℕ → Lexer → Run (Token × Lexer)
read_string delimiter l = repeat (string_pass delimiter) (fuel l) (false, l)
