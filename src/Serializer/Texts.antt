-- ===== src/Serializer/Texts.antt =====
-- `read_string` and `read_option_string` behind `write_str` and `write_option_string`.
use ru_fsm.Common.{
  append-appended, ℕ, zero, suc, ◌+◌, ◌-◌, ◌<◌, ◌≤◌, true, List, [], ◌∷◌, ◌++◌, ok, if◌then◌else◌,
  nat_eq, ◌≡◌, ◌⊎◌, inl, inr, refl, sym, ◌∙◌, ap, arith, Bool-cases, Option, none, some, length,
  All, append_assoc, ltb, take, drop, length-append, ◌*◌, ◌/◌, ◌%◌, ◌^◌,
}
use ru_fsm.Common.Str.{Str, len, char_len}
use ru_fsm.Serializer.Protocol.{opt_string_none, string_length_4bit, string_length_12bit}
use ru_fsm.Serializer.Writer.{
  Writer, put_u8, write_bytes, write_type_and_value, is_char_boundary, write_str,
  write_option_string,
}
use ru_fsm.Serializer.Reader.{
  Reader, read_text, read_typed, read_type_and_size, verify_string_type, read_string,
  read_option_string,
}
use ru_fsm.Serializer.Digits.{digits}
use ru_fsm.Serializer.Numbers.{read_type_and_size_step, write_typed-digits}

-- The end of a text is a boundary of its characters.
pub boundary-len : (s : Str) → is_char_boundary (len s) s ≡ true
unfolding is_char_boundary len
boundary-len [] = refl
boundary-len (c ∷ s) =
    let e : char_len c + len s - char_len c ≡ len s = omega arith in
    ground (arith, e, boundary-len s)

take-length_append {ℓ} :
    {A : Type ℓ} (n : ℕ) (xs ys : List A) → length xs ≡ n → take n (xs ++ ys) ≡ xs
take-length_append zero [] ys h = refl
take-length_append zero (x ∷ xs) ys h = absurd (omega arith)
take-length_append (suc n) [] ys h = absurd (omega arith)
take-length_append (suc n) (x ∷ xs) ys h = rw (take-length_append n xs ys (omega arith))

drop-length_append {ℓ} :
    {A : Type ℓ} (n : ℕ) (xs ys : List A) → length xs ≡ n → drop n (xs ++ ys) ≡ ys
drop-length_append zero [] ys h = refl
drop-length_append zero (x ∷ xs) ys h = absurd (omega arith)
drop-length_append (suc n) [] ys h = absurd (omega arith)
drop-length_append (suc n) (x ∷ xs) ys h = drop-length_append n xs ys (omega arith)

pub take_all {ℓ} : {A : Type ℓ} (n : ℕ) (xs : List A) → length xs ≤ n → take n xs ≡ xs
take_all zero [] h = refl
take_all zero (x ∷ xs) h = absurd (omega arith)
take_all (suc n) [] h = refl
take_all (suc n) (x ∷ xs) h = rw (take_all n xs (omega arith))

-- The code points are Unicode scalar values, as they are in every `String`.
abbrev pub IsText : Str → Type 0
IsText s = All (λ c. (c < 0xd800) ⊎ ((0xe000 ≤ c) × (c < 0x11_0000))) s

module _ (as_bytes : Str → List ℕ) (from_utf8 : List ℕ → Option Str)
    (length-as_bytes : (s : Str) → length (as_bytes s) ≡ len s)
    (from_utf8-as_bytes : (s : Str) → IsText s → from_utf8 (as_bytes s) ≡ some s) where
  -- The header of a text of fewer than 4096 bytes.
  abbrev pub header : Str → List ℕ
  header s =
      if ltb (len s) (2 ^ 4)
      then (string_length_4bit + len s) ∷ []
      else (string_length_12bit + len s / 2 ^ 8) ∷ (len s % 256) ∷ []

  pub write_str-header :
      (s : Str) (w : Writer)
      → len s < 2 ^ 12
      → w.ok ≡ true
      → len s + 2 ≤ w.room
      → (room : ℕ) × (w.room ≤ room + (len s + 2))
        × (write_str as_bytes s w
            ≡ ok (record w { written = w.written ++ (header s ++ as_bytes s); room = room }))
  unfolding write_str write_bytes digits
  write_str-header s w h good fits = elim (Bool-cases (ltb (len s) (2 ^ 4))) [
    | inl short ↦
        let head = string_length_4bit + len s in
        let w1 = record w { written = w.written ++ (head ∷ []); room = w.room - 1 } in
        let low : string_length_4bit + len s / 2 ^ 0 % 256 % 16 ≡ head = ground arith in
        let e : write_type_and_value string_length_4bit (len s) 4 w ≡ w1 =
          write_typed-digits string_length_4bit 0 (len s) w good (omega arith)
          ∙ ap (λ (b : ℕ). record w { written = w.written ++ (b ∷ []); room = w.room - 1 }) low in
        (
          w.room - 1 - length (as_bytes s),
          omega (arith, length-as_bytes s),
          ground (
            arith,
            e,
            boundary-len s,
            take_all (len s) (as_bytes s) (omega (arith, length-as_bytes s)),
            take_all (w.room - 1) (as_bytes s) (omega (arith, length-as_bytes s)),
            append_assoc w.written (head ∷ []) (as_bytes s),
          ),
        )
    | inr long ↦
        let head = string_length_12bit + len s / 2 ^ 8 in
        let low = len s % 256 in
        let w1 = record w { written = w.written ++ (head ∷ low ∷ []); room = w.room - 2 } in
        let top : string_length_12bit + len s / 2 ^ 8 % 256 % 16 ≡ head = ground arith in
        let e : write_type_and_value string_length_12bit (len s) 12 w ≡ w1 =
          write_typed-digits string_length_12bit 1 (len s) w good (omega arith) ∙ ground arith in
        (
          w.room - 2 - length (as_bytes s),
          omega (arith, length-as_bytes s),
          ground (
            arith,
            e,
            boundary-len s,
            take_all (len s) (as_bytes s) (omega (arith, length-as_bytes s)),
            take_all (w.room - 2) (as_bytes s) (omega (arith, length-as_bytes s)),
            append_assoc w.written (head ∷ low ∷ []) (as_bytes s),
          ),
        )
  ]

  read_text-as_bytes :
      (s : Str) (us : ℕ) (r : Reader) (rest : List ℕ)
      → IsText s
      → us ≡ len s
      → r.input ≡ as_bytes s ++ rest
      → read_text from_utf8 us r ≡ record r { input = rest; string = s }
  unfolding read_text
  read_text-as_bytes s us r rest text u e = ground (
    arith,
    length-as_bytes s,
    from_utf8-as_bytes s text,
    length-append (as_bytes s) rest,
    take-length_append us (as_bytes s) rest (length-as_bytes s ∙ sym u),
    drop-length_append us (as_bytes s) rest (length-as_bytes s ∙ sym u),
  )

  -- The type that the header of the text has.
  abbrev pub text_type : Str → ℕ
  text_type s = if ltb (len s) (2 ^ 4) then string_length_4bit else string_length_12bit

  pub read_type_and_size-header :
      (s : Str) (r : Reader) (rest : List ℕ)
      → IsText s
      → len s < 2 ^ 12
      → r.ok ≡ true
      → r.input ≡ (header s ++ as_bytes s) ++ rest
      → read_type_and_size from_utf8 r
        ≡ record r { input = rest; type_id = text_type s; number = 0; string = s }
  unfolding read_typed
  read_type_and_size-header s r rest text h good e = elim (Bool-cases (ltb (len s) (2 ^ 4))) [
    | inl short ↦
        let val = string_length_4bit + len s in
        let s0 = record r { input = as_bytes s ++ rest; string = [] } in
        let s1 = record s0 { type_id = string_length_4bit; number = 0 } in
        let start : r.input ≡ val ∷ (as_bytes s ++ rest) = rw short at e in
        read_type_and_size_step from_utf8 r val (as_bytes s ++ rest) good start
        ∙ ground (arith, read_text-as_bytes s (val % 16) s1 rest text (ground arith) refl)
    | inr long ↦
        let val = string_length_12bit + len s / 2 ^ 8 in
        let low = len s % 256 in
        let s0 = record r { input = low ∷ (as_bytes s ++ rest); string = [] } in
        let s1 = record s0 {
          input = as_bytes s ++ rest;
          type_id = string_length_12bit;
          number = 0;
        } in
        let start : r.input ≡ val ∷ low ∷ (as_bytes s ++ rest) = rw long at e in
        read_type_and_size_step from_utf8 r val (low ∷ (as_bytes s ++ rest)) good start
        ∙ ground
            (arith, read_text-as_bytes s (val % 16 * 256 + low) s1 rest text (ground arith) refl)
  ]

  pub read_string-write_str :
      (s : Str) (w : Writer)
      → IsText s
      → len s < 2 ^ 12
      → w.ok ≡ true
      → len s + 2 ≤ w.room
      → (bytes : List ℕ) × (w' : Writer) × (write_str as_bytes s w ≡ ok w')
        × (w'.written ≡ w.written ++ bytes)
        × (w'.ok ≡ true)
        × ((r : Reader) (rest : List ℕ)
            → r.ok ≡ true
            → r.input ≡ bytes ++ rest
            → ((read_string from_utf8 r).0 ≡ s)
              × ((read_string from_utf8 r).1.input ≡ rest)
              × ((read_string from_utf8 r).1.ok ≡ true))
  unfolding read_string verify_string_type
  read_string-write_str s w text h good fits =
      let (room, _, done) = write_str-header s w h good fits in
      let w' = record w { written = w.written ++ (header s ++ as_bytes s); room = room } in
      (
        header s ++ as_bytes s,
        w',
        done,
        refl,
        good,
        λ r rest fine e.
            let back = read_type_and_size-header s r rest text h fine e in
            elim (Bool-cases (ltb (len s) (2 ^ 4))) [
              | inl short ↦ (ground arith, ground arith, ground arith)
              | inr long ↦ (ground arith, ground arith, ground arith)
            ],
      )

  pub read_option_string-write_option_string :
      (o : Option Str) (w : Writer)
      → ((s : Str) → o ≡ some s → IsText s)
      → ((s : Str) → o ≡ some s → len s < 2 ^ 12)
      → w.ok ≡ true
      → ((s : Str) → o ≡ some s → len s + 2 ≤ w.room)
      → 1 ≤ w.room
      → (bytes : List ℕ) × (w' : Writer) × (write_option_string as_bytes o w ≡ ok w')
        × (w'.written ≡ w.written ++ bytes)
        × (w'.ok ≡ true)
        × ((r : Reader) (rest : List ℕ)
            → r.ok ≡ true
            → r.input ≡ bytes ++ rest
            → ((read_option_string from_utf8 r).0 ≡ o)
              × ((read_option_string from_utf8 r).1.input ≡ rest)
              × ((read_option_string from_utf8 r).1.ok ≡ true))
  unfolding write_option_string read_option_string
  read_option_string-write_option_string (some s) w text h good fits one =
      let (room, _, done) = write_str-header s w (h s refl) good (fits s refl) in
      (
        header s ++ as_bytes s,
        record w { written = w.written ++ (header s ++ as_bytes s); room = room },
        done,
        refl,
        good,
        λ r rest fine e.
            let back = read_type_and_size-header s r rest (text s refl) (h s refl) fine e in
            elim (Bool-cases (ltb (len s) (2 ^ 4))) [
              | inl short ↦ (ground arith, ground arith, ground arith)
              | inr long ↦ (ground arith, ground arith, ground arith)
            ],
      )
  read_option_string-write_option_string none w text h good fits one = (
    opt_string_none ∷ [],
    record w { written = w.written ++ (opt_string_none ∷ []); room = w.room - 1 },
    unfold put_u8 in ground arith,
    refl,
    good,
    λ r rest fine e.
        let back = read_type_and_size_step from_utf8 r opt_string_none rest fine e in
        unfold read_typed in (ground arith, ground arith, ground arith),
  )

  -- With room for it, `write_str` writes a text of fewer than 4096 bytes, without a panic or an error.
  pub write_str_returns :
      (s : Str) (w : Writer)
      → IsText s
      → len s < 2 ^ 12
      → w.ok ≡ true
      → len s + 2 ≤ w.room
      → (w' : Writer) × (write_str as_bytes s w ≡ ok w') × (w'.ok ≡ true)
  write_str_returns s w text h good fits =
      let (_, w', p, _, q, _) = read_string-write_str s w text h good fits in (w', p, q)

  -- For an encoding `as_bytes` with the length of UTF-8 and its inverse `from_utf8`: if `write_str` has had the
  -- room for a text of fewer than 4096 bytes, and the input of a reader is what it has appended and then
  -- `rest`, `read_string` returns the text, without an error, and leaves `rest`.
  pub read_string_of_written :
      (s : Str) (w w' : Writer) (r : Reader) (rest : List ℕ)
      → IsText s
      → len s < 2 ^ 12
      → w.ok ≡ true
      → len s + 2 ≤ w.room
      → write_str as_bytes s w ≡ ok w'
      → r.ok ≡ true
      → w.written ++ r.input ≡ w'.written ++ rest
      → ((read_string from_utf8 r).0 ≡ s)
        × ((read_string from_utf8 r).1.input ≡ rest)
        × ((read_string from_utf8 r).1.ok ≡ true)
  read_string_of_written s w w' r rest text h good fits done fine e =
      let (bytes, u, p, q, _, back) = read_string-write_str s w text h good fits in
      let same : u ≡ w' = ground arith in
      back r rest fine (
        append-appended w.written r.input bytes rest w'.written
          (ap (λ (x : Writer). x.written) (sym same) ∙ q) e)

  -- With room for it, `write_option_string` writes no text, or one of fewer than 4096 bytes, without a panic or
  -- an error.
  pub write_option_string_returns :
      (o : Option Str) (w : Writer)
      → ((s : Str) → o ≡ some s → IsText s)
      → ((s : Str) → o ≡ some s → len s < 2 ^ 12)
      → w.ok ≡ true
      → ((s : Str) → o ≡ some s → len s + 2 ≤ w.room)
      → 1 ≤ w.room
      → (w' : Writer) × (write_option_string as_bytes o w ≡ ok w') × (w'.ok ≡ true)
  write_option_string_returns o w text h good fits one =
      let (_, w', p, _, q, _) = read_option_string-write_option_string o w text h good fits one in
      (w', p, q)

  -- For an encoding `as_bytes` with the length of UTF-8 and its inverse `from_utf8`: if `write_option_string` has
  -- had the room for no text, or one of fewer than 4096 bytes, and the input of a reader is what it has
  -- appended and then `rest`, `read_option_string` returns the optional text, without an error, and leaves
  -- `rest`.
  pub read_option_string_of_written :
      (o : Option Str) (w w' : Writer) (r : Reader) (rest : List ℕ)
      → ((s : Str) → o ≡ some s → IsText s)
      → ((s : Str) → o ≡ some s → len s < 2 ^ 12)
      → w.ok ≡ true
      → ((s : Str) → o ≡ some s → len s + 2 ≤ w.room)
      → 1 ≤ w.room
      → write_option_string as_bytes o w ≡ ok w'
      → r.ok ≡ true
      → w.written ++ r.input ≡ w'.written ++ rest
      → ((read_option_string from_utf8 r).0 ≡ o)
        × ((read_option_string from_utf8 r).1.input ≡ rest)
        × ((read_option_string from_utf8 r).1.ok ≡ true)
  read_option_string_of_written o w w' r rest text h good fits one done fine e =
      let (bytes, u, p, q, _, back) =
        read_option_string-write_option_string o w text h good fits one in
      let same : u ≡ w' = ground arith in
      back r rest fine (
        append-appended w.written r.input bytes rest w'.written
          (ap (λ (x : Writer). x.written) (sym same) ∙ q) e)
