-- ===== src/Expression/Lexer/Progress.antt =====
-- The progress of `next_token_with_stop` of src/expression_engine/lexer.rs.
mod Strings
mod Numbers
use ru_fsm.Common.{
  ℕ, zero, suc, ◌+◌, ◌-◌, ◌≤◌, ◌<◌, ◌≡◌, ◌≢◌, refl, sym, ap, subst, arith, ◌⊎◌, inl, inr, Bool,
  true, false, Bool-cases, Option, none, some, [], ◌∷◌, ◌++◌, get_elem?, length, if◌then◌else◌,
  ◌==◌, nat_eq, Run, ok, ◌>>=◌,
}
use ru_fsm.Common.Decimal.{is_ascii_digit}
use ru_fsm.Common.Loop.{
  Pass, again, finish, repeat, Advances, Returns, repeat-Returns, ok-Returns, if-Returns,
  bind-Returns, weaken-Returns,
}
use ru_fsm.Common.Str.{Str, codes, contains}
use ru_fsm.Common.Float.{Float}
use ru_fsm.Expression.Lexer.{
  Lexer, is_stop, is_string_delimiter, next_char, push, push_back, clear, fuel, eat_space,
}
use ru_fsm.Expression.Lexer.Moves.{
  In, Taken, at_end, behind, next_char-Taken, next_char-In, eat_space-Returns,
}
use ru_fsm.Expression.Lexer.Next.{
  name_pass, symbol, word, at_stop, starts_number, token_from, next_token_with_stop,
}
use ru_fsm.Expression.Lexer.Operators.{read_operator, second_char}
use ru_fsm.Expression.Lexer.Progress.Numbers.{read_number-Returns}
use ru_fsm.Expression.Lexer.Progress.Strings.{read_string-Returns}
use ru_fsm.Expression.Token.{Token, bracket, expression_separator, separator, eoe}

-- The text ends in a character that `=` may follow.
abbrev pub EndsOpen : Str → Type 0
EndsOpen text =
    (c : ℕ) × (get_elem? text (length text - 1) ≡ some c) × (contains (codes "?<>=!") c ≡ true)

-- What the text's end gives: `eoe`, or `'\0'` if that is a stop.
abbrev pub IsEnd : Str → Token → Type 0
IsEnd stops t = (t ≡ eoe) ⊎ ((t ≡ separator 0) × (contains stops 0 ≡ true))

-- The lexer is in the text, and behind `at` unless there are no more tokens or the text ends open.
abbrev pub Moved : Str → Str → ℕ → Token × Lexer → Type 0
Moved stops text at r = In text at r.1 × (IsEnd stops r.0 ⊎ ((at < r.1.pos) ⊎ EndsOpen text))

module _ (stops text : Str) (at : ℕ) where
  passed : (r : Token × Lexer) → In text (suc at) r.1 → Moved stops text at r
  passed r i = ((i.0, omega (arith, i.1), i.2), inr (inl (omega (arith, i.1))))

  second_char-Moved :
      (first : ℕ) (l : Lexer) {r : ℕ × Lexer}
      → In text (suc at) l
      → get_elem? text (l.pos - 1) ≡ some first
      → contains (codes "?<>=!") first ≡ true
      → Taken text l r
      → Moved stops text at (second_char first r.0 r.1)
  unfolding second_char
  second_char-Moved first l i e o (at_end q) = (
    (i.0, omega (arith, i.1), omega (arith, i.2)),
    inr (inr (first, subst (λ n. get_elem? text (n - 1) ≡ some first) q e, o)),
  )
  second_char-Moved first l i e o (behind c q less) = ground (arith, i)

  read_operator-Moved :
      (c : ℕ) (l : Lexer)
      → In text (suc at) l
      → get_elem? text (l.pos - 1) ≡ some c
      → contains (codes "?+-*<>=%/:!&|") c ≡ true
      → Moved stops text at (read_operator c l)
  unfolding read_operator contains
  read_operator-Moved c l i e op = elim (Bool-cases (contains (codes "?<>=!") c)) [
    | inl o ↦ ground (arith, i, second_char-Moved c l i e o (next_char-Taken text (suc at) l i))
    | inr n ↦ ground (arith, i)
  ]

  abbrev First : ℕ → Lexer → Type 0
  First c l =
      In text at l × ((c ≡ 0) ⊎ (In text (suc at) l × (get_elem? text (l.pos - 1) ≡ some c)))

  First-In : (c : ℕ) (l : Lexer) → First c l → In text at l
  First-In c l f = f.0

  beyond :
      (c : ℕ) (l : Lexer)
      → First c l
      → (c == 0) ≡ false
      → In text (suc at) l × (get_elem? text (l.pos - 1) ≡ some c)
  beyond c l (i, inl z) n = absurd (ground arith)
  beyond c l (i, inr b) n = b

  delimiter-ne-0 : (c : ℕ) → is_string_delimiter c ≡ true → (c == 0) ≡ false
  unfolding is_string_delimiter
  delimiter-ne-0 c d = ground arith

  separator-Moved :
      (c : ℕ) (l : Lexer)
      → First c l
      → contains stops c ≡ true
      → Moved stops text at (separator c, l)
  separator-Moved c l (i, inl z) y =
      (i, inl (inr (ap separator z, subst (λ d. contains stops d ≡ true) z y)))
  separator-Moved c l (i, inr (j, e)) y = passed (separator c, l) j

  symbol-Moved : (c : ℕ) (l : Lexer) → First c l → Returns (Moved stops text at) (symbol stops c l)
  unfolding symbol
  symbol-Moved c l f =
      if-Returns (is_string_delimiter c)
        (λ d.
          weaken-Returns
            (read_string-Returns text (suc at) c l (beyond c l f (delimiter-ne-0 c d)).0) passed)
        (λ _.
          if-Returns (contains stops c) (λ y. ok-Returns _ (separator-Moved c l f y))
            (λ _.
              if-Returns (c == 0) (λ z. ok-Returns _ (First-In c l f, inl (inl refl)))
                (λ n.
                  let i = beyond c l f n in
                  if-Returns (contains (codes "?+-*<>=%/:!&|") c)
                    (λ o. ok-Returns _ (read_operator-Moved c l i.0 i.1 o))
                    (λ _.
                      if-Returns (contains (codes "{}()[]") c)
                        (λ _. ok-Returns _ (passed (bracket c, l) i.0))
                        (λ _.
                          if-Returns (c == b';')
                            (λ _. ok-Returns _ (passed (expression_separator, l) i.0))
                            (λ _. ok-Returns _ (passed (separator c, l) i.0)))))))

  -- Behind a filled buffer there is a character before the one taken.
  abbrev Filled : Str → ℕ → Lexer → Type 0
  Filled buffer c l = buffer ≢ [] → In text (suc at) l × (c ≢ 0 → suc (suc at) ≤ l.pos)

  at_stop-Moved :
      (c : ℕ) (l : Lexer) (buffer : Str)
      → First c l
      → Filled buffer c l
      → Returns (Moved stops text at) (at_stop stops c l buffer)
  unfolding at_stop
  at_stop-Moved c l [] f fill = symbol-Moved c l f
  at_stop-Moved c l (d ∷ s) f fill =
      let (i, later) = fill (cc) in
      ok-Returns _
        (passed (word (d ∷ s), if c == 0 then l else push_back l) (ground (arith, i, later)))

  abbrev Naming : ℕ × Lexer → Type 0
  Naming (c, l) = First c l × Filled l.buffer c l

  abbrev NameAdvances : ℕ × Lexer → Pass (ℕ × Lexer) (ℕ × Lexer) → Type 0
  NameAdvances =
      Advances Naming (λ (c, l). (length text - l.pos) + (if c == 0 then 0 else 1)) Naming

  pushed-Advances :
      (c : ℕ) (l : Lexer) {r : ℕ × Lexer}
      → Naming (c, l)
      → is_stop c ≡ false
      → Taken text (push c l) r
      → NameAdvances (c, l) (again r)
  unfolding is_stop contains
  pushed-Advances c l (f, fill) n (at_end q) =
      let i = (beyond c l f (ground arith)).0 in
      (((f.0, inl refl), λ _. (i, λ z. absurd (z refl))), ground arith, tt)
  pushed-Advances c l (f, fill) n (behind d e less) =
      let (same, low, high) = (beyond c l f (ground arith)).0 in
      let i : In text (suc at) (record (push c l) { pos = l.pos + 1 }) =
        (same, omega arith, omega arith) in
      (
        (
          (
            (same, omega arith, omega arith),
            inr (i, subst (λ k. get_elem? text k ≡ some d) (omega arith) e),
          ),
          λ _. (i, λ _. omega arith),
        ),
        ground arith,
        tt,
      )

  name_pass-Advances : (s : ℕ × Lexer) → Naming s → NameAdvances s (name_pass s)
  unfolding name_pass
  name_pass-Advances (c, l) m = elim (Bool-cases (is_stop c)) [
    | inl y ↦ rw y (m, tt)
    | inr n ↦ rw n (pushed-Advances c l m n (next_char-Taken text at (push c l) m.0.0))
  ]

  named-Moved :
      (c : ℕ) (l : Lexer)
      → Naming (c, l)
      → Returns
          (Moved stops text at)
          (repeat name_pass (fuel l) (c, l) >>= λ s. at_stop stops s.0 s.1 s.1.buffer)
  named-Moved c l m =
      bind-Returns _
        (repeat-Returns Naming (λ (c, l). (length text - l.pos) + (if c == 0 then 0 else 1)) Naming
          name_pass name_pass-Advances (fuel l) (c, l) m (rw m.0.0.0 (ground arith)))
        λ s k. at_stop-Moved s.0 s.1 s.1.buffer k.0 k.1

  started-ne-0 : (c : ℕ) → starts_number c ≡ true → (c == 0) ≡ false
  unfolding starts_number is_ascii_digit
  started-ne-0 c start = ground arith

  First-Moved :
      (F : Float) (c : ℕ) (l : Lexer)
      → First c l
      → l.buffer ≡ []
      → Returns (Moved stops text at) (token_from F stops (c, l))
  unfolding token_from
  First-Moved F c l f empty =
      if-Returns (starts_number c)
        (λ start.
          weaken-Returns
            (read_number-Returns text (suc at) F c l (beyond c l f (started-ne-0 c start)).0 start)
            passed)
        (λ _. named-Moved c l (f, λ full. absurd (full empty)))

  token_from-Moved :
      (F : Float) (l : Lexer) {r : ℕ × Lexer}
      → In text at l
      → l.buffer ≡ []
      → Taken text l r
      → Returns (Moved stops text at) (token_from F stops r)
  token_from-Moved F l i empty (at_end q) = First-Moved F 0 l (i, inl refl) empty
  token_from-Moved F l (same, low, high) empty (behind c e less) =
      let i : In text (suc at) (record l { pos = l.pos + 1 }) = (same, omega arith, omega arith) in
      First-Moved F c (record l { pos = l.pos + 1 })
        (
          (same, omega arith, omega arith),
          inr (i, subst (λ k. get_elem? text k ≡ some c) (omega arith) e),
        )
        empty

-- From every position in a text a token is read, without a panic and within the fuel of the loops. The lexer is in the
-- text then, not before where it was, and behind it unless the token is the end, or the stop `'\0'`, or the text ends
-- in one of `?`, `<`, `>`, `=` and `!`.
pub next_token_with_stop-Moved :
    (F : Float) (stops : Str) (l : Lexer)
    → l.pos ≤ length l.text
    → Returns (Moved stops l.text l.pos) (next_token_with_stop F stops l)
unfolding next_token_with_stop
next_token_with_stop-Moved F stops l h =
    bind-Returns _ (eat_space-Returns l.text l.pos l (refl, omega arith, h)) λ start i.
      token_from-Moved stops l.text l.pos F (clear start) i refl
        (next_char-Taken l.text l.pos (clear start) i)
