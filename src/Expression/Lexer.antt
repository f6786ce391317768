-- ===== src/Expression/Lexer.antt =====
-- The state of the lexer of src/expression_engine/lexer.rs: the text, the position in it and the buffer; the classes
-- of characters and the moves on the text.
pub mod Strings
pub mod Operators
pub mod Numbers
pub mod Next
pub mod Moves
pub mod Progress
pub mod Open
mod Runs
use ru_fsm.Common.{
  ℕ, ◌+◌, ◌-◌, Bool, true, false, ◌||◌, Option, none, some, [], ◌∷◌, ◌++◌, get_elem?, ltb, length,
  if◌then◌else◌, ◌==◌, nat_eq, Run,
}
use ru_fsm.Common.Str.{Str, codes, contains}
use ru_fsm.Common.Loop.{Pass, again, finish, repeat}

pub record Lexer : Type 0 where
  pub text : Str
  pub pos : ℕ
  pub buffer : Str

-- `ExpressionLexer::new`
abbrev pub new : Str → Lexer
new text = record { text = text; pos = 0; buffer = [] }

unfoldable pub is_whitespace : ℕ → Bool
is_whitespace c = c == b' ' || c == b'\n' || c == b'\r' || c == b'\t'

unfoldable pub is_stop : ℕ → Bool
is_stop c = is_whitespace c || contains (0 ∷ codes ".!,\\-+/:*&|<>=%?[](){}\"';") c

unfoldable pub is_string_delimiter : ℕ → Bool
is_string_delimiter c = c == b'\'' || c == b'"'

-- the character at the position, and the lexer behind it
unfoldable pub taken : Option ℕ → Lexer → ℕ × Lexer
taken none l = (0, l)
taken (some c) l = (c, record l { pos = l.pos + 1 })

unfoldable pub next_char : Lexer → ℕ × Lexer
unfolding taken
next_char l = taken (get_elem? l.text l.pos) l

abbrev pub push_back : Lexer → Lexer
push_back l = record l { pos = l.pos - 1 }

-- `buffer.push` and `buffer.clear`
abbrev pub push : ℕ → Lexer → Lexer
push c l = record l { buffer = l.buffer ++ c ∷ [] }

abbrev pub clear : Lexer → Lexer
clear l = record l { buffer = [] }

unfoldable pub has_next : Lexer → Bool
has_next l = ltb l.pos (length l.text)

-- A loop of the lexer takes a character in each pass, but the last.
abbrev pub fuel : Lexer → ℕ
fuel l = length l.text + 2

unfoldable pub space_at : Option ℕ → Lexer → Pass Lexer Lexer
space_at none l = finish l
space_at (some c) l = if is_whitespace c then again (record l { pos = l.pos + 1 }) else finish l

-- one pass of the loop of `eat_space`
unfoldable pub space_pass : Lexer → Pass Lexer Lexer
unfolding space_at
space_pass l = space_at (get_elem? l.text l.pos) l

unfoldable pub eat_space : Lexer → Run Lexer
eat_space l = repeat space_pass (fuel l) l
