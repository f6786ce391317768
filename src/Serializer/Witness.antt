-- ===== src/Serializer/Witness.antt =====
-- The theorems about the serializer at concrete numbers and texts.
use ru_fsm.Common.{
  ℕ, ◌+◌, true, List, [], ◌∷◌, ◌++◌, ok, nat_eq, ◌≡◌, inl, refl, sym, ap, subst, arith, some, ◌*◌,
  ◌/◌, ◌%◌, ◌^◌,
}
use ru_fsm.Common.Str.{Str, len}
use ru_fsm.Serializer.Example.{zeros, example_bytes, example_text}
use ru_fsm.Serializer.Protocol.{string_length_4bit}
use ru_fsm.Serializer.Writer.{
  write_boolean, Writer, write_uint, write_str, write_option_string, write_type_and_value,
  write_bytes, put_u8, put_rest, eval_result, is_char_boundary,
}
use ru_fsm.Serializer.Reader.{Reader, read_uint}
use ru_fsm.Serializer.Wide.{read_uint_of_written_wide}
use ru_fsm.Serializer.Texts.{IsText}

-- A writer with a byte behind it, and readers of what it appends.
abbrev start : Writer
start = record { written = 9 ∷ []; room = 20; ok = true }

abbrev reader : List ℕ → Reader
reader bytes = record { input = bytes; ok = true; type_id = 0; number = 0; string = [] }

abbrev hi : Str
hi = b'h' ∷ b'i' ∷ []

hi-IsText : IsText hi
hi-IsText = (inl (omega arith), (inl (omega arith), tt))

abbrev hi_bytes : List ℕ
hi_bytes = (string_length_4bit + 2) ∷ b'h' ∷ b'i' ∷ []

abbrev wide : ℕ
wide = 0x1234_5678_9abc_def0

write_uint-300 : (write_uint 300 start).written ≡ 9 ∷ 0x41 ∷ 0x2c ∷ []
unfolding write_uint write_type_and_value put_u8 put_rest eval_result
write_uint-300 = refl

write_uint-wide :
    (write_uint wide start).written
    ≡ 9 ∷ 0xb1 ∷ 0x23 ∷ 0x45 ∷ 0x67 ∷ 0x89 ∷ 0xab ∷ 0xcd ∷ 0xef ∷ 0xf0 ∷ []
unfolding write_uint write_type_and_value put_u8 put_rest eval_result
write_uint-wide = refl

write_str-hi :
    write_str example_bytes hi start ≡ ok (record { written = 9 ∷ hi_bytes; room = 17; ok = true })
unfolding write_str write_bytes write_type_and_value put_u8 put_rest eval_result is_char_boundary
    len example_bytes zeros
write_str-hi = refl

write_option_string-hi :
    write_option_string example_bytes (some hi) start
    ≡ ok (record { written = 9 ∷ hi_bytes; room = 17; ok = true })
unfolding write_option_string
write_option_string-hi = write_str-hi

abbrev wide_reader : Reader
wide_reader = reader (0xb1 ∷ 0x23 ∷ 0x45 ∷ 0x67 ∷ 0x89 ∷ 0xab ∷ 0xcd ∷ 0xef ∷ 0xf0 ∷ [])

read_uint_of_written_wide_example :
    ((write_uint wide start).ok ≡ true)
    × ((read_uint example_text wide_reader).0 ≡ wide / 16 * 256 % 2 ^ 64 + wide % 256)
    × ((read_uint example_text wide_reader).1.ok ≡ true)
read_uint_of_written_wide_example =
    read_uint_of_written_wide example_text wide start wide_reader [] (omega arith) (omega arith)
      refl (omega arith) refl (ap (λ l. l ++ []) (sym write_uint-wide))

abbrev hi_reader : Reader
hi_reader = reader (hi_bytes ++ (7 ∷ []))

abbrev hi_written : Writer
hi_written = record { written = 9 ∷ hi_bytes; room = 17; ok = true }

some-hi : (P : Str → Type 0) → P hi → (s : Str) → some hi ≡ some s → P s
some-hi P p s h = let e : hi ≡ s = ground arith in subst P e p

write_boolean-true : (write_boolean true start).written ≡ 9 ∷ 0x1f ∷ []
unfolding write_boolean put_u8 eval_result
write_boolean-true = refl
