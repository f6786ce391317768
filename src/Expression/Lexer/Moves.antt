-- ===== src/Expression/Lexer/Moves.antt =====
-- Where the position of the lexer of src/expression_engine/lexer.rs stands after its moves.
use ru_fsm.Common.{
  ℕ, zero, suc, ◌+◌, ◌-◌, ◌≤◌, ◌<◌, ◌≡◌, sym, ap, arith, Option, none, some, List, [], ◌∷◌,
  get_elem?, length, nat_eq,
}
use ru_fsm.Common.Loop.{Advances, Returns, repeat-Returns}
use ru_fsm.Common.Str.{Str}
use ru_fsm.Expression.Lexer.{Lexer, taken, next_char, space_at, space_pass, eat_space, fuel}

-- The lexer is in the text, at `low` or behind it.
abbrev pub In : Str → ℕ → Lexer → Type 0
In text low l = (l.text ≡ text) × (low ≤ l.pos) × (l.pos ≤ length text)

pub lt-get_elem? {ℓ} :
    {A : Type ℓ} (xs : List A) (i : ℕ) {x : A} → get_elem? xs i ≡ some x → i < length xs
lt-get_elem? [] i h = cc
lt-get_elem? (y ∷ xs) zero h = omega arith
lt-get_elem? (y ∷ xs) (suc i) h = omega (arith, lt-get_elem? xs i h)

pub le-get_elem? {ℓ} : {A : Type ℓ} (xs : List A) (i : ℕ) → get_elem? xs i ≡ none → length xs ≤ i
le-get_elem? [] i h = omega arith
le-get_elem? (y ∷ xs) zero h = cc
le-get_elem? (y ∷ xs) (suc i) h = omega (arith, le-get_elem? xs i h)

-- What a move to the next character gives: nothing at the end, or the character, which the lexer is behind.
pub data Taken (text : Str) (l : Lexer) : ℕ × Lexer → Type 0 where
  at_end : l.pos ≡ length text → Taken text l (0, l)
  behind :
      (c : ℕ)
      → get_elem? text l.pos ≡ some c
      → l.pos < length text
      → Taken text l (c, record l { pos = l.pos + 1 })

taken-Taken :
    (text : Str) (l : Lexer) (o : Option ℕ)
    → l.text ≡ text
    → l.pos ≤ length text
    → get_elem? text l.pos ≡ o
    → Taken text l (taken o l)
unfolding taken
taken-Taken text l none same k e = at_end (omega (arith, le-get_elem? text l.pos e))
taken-Taken text l (some c) same k e = behind c e (lt-get_elem? text l.pos e)

pub next_char-Taken :
    (text : Str) (low : ℕ) (l : Lexer) → In text low l → Taken text l (next_char l)
unfolding next_char
next_char-Taken text low l (same, h, k) =
    taken-Taken text l (get_elem? l.text l.pos) same k
      (ap (λ (s : Str). get_elem? s l.pos) (sym same))

Taken-In :
    (text : Str) (low : ℕ) (l : Lexer) {r : ℕ × Lexer}
    → In text low l
    → Taken text l r
    → In text low r.1
Taken-In text low l i (at_end e) = i
Taken-In text low l i (behind c e less) = (i.0, omega (arith, i.1), omega arith)

-- The next character is taken in the text.
pub next_char-In : (text : Str) (low : ℕ) (l : Lexer) → In text low l → In text low (next_char l).1
next_char-In text low l i = Taken-In text low l i (next_char-Taken text low l i)

space_at-Advances :
    (text : Str) (low : ℕ) (l : Lexer) (o : Option ℕ)
    → In text low l
    → get_elem? text l.pos ≡ o
    → Advances (In text low) (λ m. length text - m.pos) (In text low) l (space_at o l)
unfolding space_at
space_at-Advances text low l none i e = (i, tt)
space_at-Advances text low l (some c) (same, h, k) e =
    let less = lt-get_elem? text l.pos e in ground arith

-- `eat_space` ends, at the position it starts from or behind it.
pub eat_space-Returns :
    (text : Str) (low : ℕ) (l : Lexer) → In text low l → Returns (In text low) (eat_space l)
unfolding eat_space space_pass
eat_space-Returns text low l i =
    repeat-Returns (In text low) (λ m. length text - m.pos) (In text low) space_pass
      (λ m j.
        space_at-Advances text low m (get_elem? m.text m.pos) j
          (ap (λ (s : Str). get_elem? s m.pos) (sym j.0)))
      (fuel l) l i (rw i.0 (omega arith))
