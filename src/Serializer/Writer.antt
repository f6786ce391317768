-- ===== src/Serializer/Writer.antt =====
-- `DefaultProtocolWriter` of src/serializer/default_protocol_writer.rs, on the standard library's writer over
-- a slice of memory: `written` bytes stand in it and `room` are free. A `Vec<u8>` is the case in which
-- the room does not run out. `as_bytes` is `str::as_bytes`.
-- Shifts and masks are written as arithmetic: `x >> k` is `x / 2 ^ k`, `x & 0x0F` is `x % 16`, and `a | b` is
-- `a + b` where no bit is set in both, as in a type id, whose low four bits are 0, with a nibble.
use ru_fsm.Common.{
  ℕ, zero, suc, ◌+◌, ◌-◌, Bool, true, false, not, List, [], ◌∷◌, ◌++◌, Run, ok, panic,
  if◌then◌else◌, nat_eq, ◌==◌, Option, none, some, length, ltb, take, ◌/◌, ◌%◌, ◌^◌,
}
use ru_fsm.Common.Str.{Str, len, char_len}
use ru_fsm.Serializer.Protocol.{
  protocol_version, opt_string_none, boolean_true, boolean_false, int_type, string_length_4bit,
  string_length_12bit,
}

pub record Writer : Type 0 where
  pub written : List ℕ
  pub room : ℕ
  pub ok : Bool

-- `WriteBytesExt::write_u8`, with whether it succeeded.
unfoldable pub put_u8 : ℕ → Writer → Writer × Bool
put_u8 b w =
    if w.room == 0
    then (w, false)
    else (record w { written = w.written ++ (b ∷ []); room = w.room - 1 }, true)

-- `Write::write`: as many of the bytes as there is room for.
unfoldable pub write_bytes : List ℕ → Writer → Writer
write_bytes bytes w = record w {
  written = w.written ++ take w.room bytes;
  room = w.room - length bytes;
}

unfoldable pub eval_result : Writer × Bool → Writer
eval_result (w, success) = if success then w else record w { ok = false }

-- `while size > 0 && r.is_ok()`: the loop has `(size + 7) / 8` rounds, the first argument; `-` stops at 0 as
-- `saturating_sub` does.
unfoldable pub put_rest : ℕ → ℕ → ℕ → Writer → Writer × Bool
unfolding put_u8
put_rest zero size value w = (w, true)
put_rest (suc rounds) size value w =
    let (w', success) = put_u8 (value / 2 ^ (size - 8) % 256) w in
    let rest : Writer × Bool = put_rest rounds (size - 8) value w' in
    if success then rest else (w', false)

unfoldable pub write_type_and_value : ℕ → ℕ → ℕ → Writer → Writer
write_type_and_value type_id value size w =
    let shift = size - 4 in
    let (w', success) = put_u8 (type_id + value / 2 ^ shift % 256 % 16) w in
    let rest : Writer × Bool = put_rest ((shift + 7) / 8) shift value w' in
    if w.ok then eval_result (if success then rest else (w', false)) else w

-- `write_uint`, which is `write_usize` and `write_u8` too.
unfoldable pub write_uint : ℕ → Writer → Writer
write_uint value w =
    if ltb value (2 ^ 4)
    then write_type_and_value (int_type 0) value 4 w
    else if ltb value (2 ^ 12)
    then write_type_and_value (int_type 1) value 12 w
    else if ltb value (2 ^ 20)
    then write_type_and_value (int_type 2) value 20 w
    else if ltb value (2 ^ 28)
    then write_type_and_value (int_type 3) value 28 w
    else if ltb value (2 ^ 36)
    then write_type_and_value (int_type 4) value 36 w
    else if ltb value (2 ^ 44)
    then write_type_and_value (int_type 5) value 44 w
    else if ltb value (2 ^ 52)
    then write_type_and_value (int_type 6) value 52 w
    else if ltb value (2 ^ 60)
    then write_type_and_value (int_type 7) value 60 w
    else write_type_and_value (int_type 8) value 64 w

unfoldable pub write_boolean : Bool → Writer → Writer
unfolding put_u8 eval_result
write_boolean value w =
    if w.ok then eval_result (put_u8 (if value then boolean_true else boolean_false) w) else w

-- `str::is_char_boundary` at `i` bytes, for the slice `value[0..i]`.
unfoldable pub is_char_boundary : ℕ → Str → Bool
is_char_boundary i [] = i == 0
is_char_boundary i (c ∷ s) =
    let rest = is_char_boundary (i - char_len c) s in
    if i == 0 then true else if ltb i (char_len c) then false else rest

module _ (as_bytes : Str → List ℕ) where
  -- The slice panics off a character boundary. The count that `write` returns is not looked at.
  unfoldable pub write_str : Str → Writer → Run Writer
  write_str value w =
      let full = len value in
      let short = ltb full (2 ^ 4) in
      let used = if short then full else full % 2 ^ 12 in
      let w' =
        if short
        then write_type_and_value string_length_4bit full 4 w
        else write_type_and_value string_length_12bit full 12 w in
      let text : Run Writer =
        if is_char_boundary used value
        then ok (write_bytes (take used (as_bytes value)) w')
        else panic in
      if w.ok then text else ok w

  unfoldable pub write_version : Writer → Run Writer
  write_version w = write_str protocol_version w

  unfoldable pub write_option_string : Option Str → Writer → Run Writer
  unfolding eval_result
  write_option_string (some s) w = write_str s w
  write_option_string none w = ok (if w.ok then eval_result (put_u8 opt_string_none w) else w)

unfoldable pub has_error : Writer → Bool
has_error w = not w.ok
