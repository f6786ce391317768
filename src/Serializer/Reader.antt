-- ===== src/Serializer/Reader.antt =====
-- `DefaultProtocolReader` of src/serializer/default_protocol_reader.rs, on the standard library's reader over a
-- slice of bytes, which fails at its end. `from_utf8` is `std::str::from_utf8`. A call returns the new
-- state, or its value with the new state. Shifts and masks are written as in `Writer`.
use ru_fsm.Common.{
  ℕ, zero, suc, ◌+◌, Bool, true, false, not, ◌&&◌, ◌||◌, List, [], ◌∷◌, if◌then◌else◌, nat_eq, ◌==◌,
  Option, none, some, length, leb, take, drop, ◌*◌, ◌/◌, ◌%◌, ◌^◌,
}
use ru_fsm.Common.Str.{Str, str_beq}
use ru_fsm.Serializer.Protocol.{
  protocol_version, opt_string_none, boolean_true, boolean_false, int_type, string_length_4bit,
  string_length_12bit,
}

-- `type_id`, `number` and `string` are the fields of `type_and_value`.
pub record Reader : Type 0 where
  pub input : List ℕ
  pub ok : Bool
  pub type_id : ℕ
  pub number : ℕ
  pub string : Str

-- `error`: the first error clears the value.
unfoldable pub error : Reader → Reader
error r = if r.ok then record r { ok = false; type_id = 0; number = 0; string = [] } else r

-- `ReadBytesExt::read_u8`
abbrev pub next_byte : Reader → Option (ℕ × Reader)
next_byte r = elim r.input [ [] ↦ none | b ∷ rest ↦ some (b, record r { input = rest }) ]

unfoldable pub read_additional_number_bytes : ℕ → Reader → Reader
unfolding error
read_additional_number_bytes zero r = r
read_additional_number_bytes (suc length) r =
    let r' : Reader = elim (next_byte r) [
      | some (value, s) ↦ record s { number = s.number * 256 % 2 ^ 64 + value }
      | none ↦ error r
    ] in
    let rest = read_additional_number_bytes length r' in if r.ok then rest else r

-- A number of `k` more bytes, the first bits of which are the low ones of `val`.
unfoldable pub read_number : ℕ → ℕ → Reader → Reader
unfolding read_additional_number_bytes
read_number k val r =
    read_additional_number_bytes k (record r { type_id = int_type k; number = val % 16 })

module _ (from_utf8 : List ℕ → Option Str) where
  -- `read_exact` of `us` bytes, and what is done with them.
  unfoldable pub read_text : ℕ → Reader → Reader
  unfolding error
  read_text us r =
      let r' = record r { input = drop us r.input } in
      let text : Reader = elim (from_utf8 (take us r.input)) [
        | some s ↦ record r' { string = s }
        | none ↦ error r'
      ] in
      if leb us (length r.input) then text else error (record r { input = [] })

  -- What `read_type_and_size` does with the first byte; an unknown type changes nothing.
  unfoldable pub read_typed : ℕ → Reader → Reader
  unfolding error
  read_typed val r =
      if val / 16 == 1
      then record r { type_id = val }
      else if val / 16 == 3
      then read_number 0 val r
      else if val / 16 == 4
      then read_number 1 val r
      else if val / 16 == 5
      then read_number 2 val r
      else if val / 16 == 6
      then read_number 3 val r
      else if val / 16 == 7
      then read_number 4 val r
      else if val / 16 == 8
      then read_number 5 val r
      else if val / 16 == 9
      then read_number 6 val r
      else if val / 16 == 10
      then read_number 7 val r
      else if val / 16 == 11
      then read_number 8 val r
      else if val / 16 == 12
      then read_text (val % 16) (record r { type_id = string_length_4bit; number = 0 })
      else if val / 16 == 13
      then (let r0 = record r { type_id = string_length_12bit; number = 0 } in
          elim (next_byte r0) [
            | some (value, s) ↦ read_text (val % 16 * 256 + value) s
            | none ↦ error r0
          ])
      else r

  unfoldable pub read_type_and_size : Reader → Reader
  unfolding error
  read_type_and_size r =
      let r0 = record r { string = [] } in
      let next : Reader = elim (next_byte r0) [
        | some (val, s) ↦ read_typed val s
        | none ↦ error r0
      ] in
      if r.ok then next else r

  -- INT_4BIT to INT_68BIT
  unfoldable pub is_number_type : ℕ → Bool
  is_number_type t = t % 16 == 0 && leb 3 (t / 16) && leb (t / 16) 11

  unfoldable pub verify_number_type : Reader → Reader × Bool
  unfolding is_number_type error
  verify_number_type r =
      if r.ok
      then (if is_number_type r.type_id then (r, true) else (error r, false))
      else (r, false)

  unfoldable pub verify_string_type : Reader → Reader × Bool
  unfolding error
  verify_string_type r =
      if r.ok
      then (if r.type_id == string_length_4bit || r.type_id == string_length_12bit
          then (r, true)
          else (error r, false))
      else (r, false)

  -- `read_uint`, which is `read_usize` too.
  unfoldable pub read_uint : Reader → ℕ × Reader
  read_uint r =
      let (s, numeric) = verify_number_type (read_type_and_size r) in
      if numeric then (s.number, s) else (0, s)

  -- `read_u8`, `read_u16` and `read_u32`: the low bits of the number.
  unfoldable pub read_bits : ℕ → Reader → ℕ × Reader
  read_bits bits r = let (u, s) = read_uint r in (u % 2 ^ bits, s)

  unfoldable pub read_string : Reader → Str × Reader
  read_string r =
      let (s, text) = verify_string_type (read_type_and_size r) in
      if text then (s.string, s) else ([], s)

  unfoldable pub read_option_string : Reader → Option Str × Reader
  unfolding error
  read_option_string r =
      let s = read_type_and_size r in
      if r.ok
      then (if s.type_id == opt_string_none
          then (none, s)
          else if s.type_id == string_length_12bit || s.type_id == string_length_4bit
          then (some s.string, s)
          else (none, error s))
      else (none, r)

  unfoldable pub verify_version : Reader → Reader
  unfolding error
  verify_version r =
      let (vs, s) = read_string r in if not (str_beq vs protocol_version) then error s else s

unfoldable pub read_boolean : Reader → Bool × Reader
unfolding error
read_boolean r =
    let next : Bool × Reader = elim (next_byte r) [
      | some (b, s) ↦
          if b == boolean_true
          then (true, s)
          else if b == boolean_false
          then (false, s)
          else (false, error s)
      | none ↦ (false, error r)
    ] in
    if r.ok then next else (false, r)

unfoldable pub has_error : Reader → Bool
has_error r = not r.ok
