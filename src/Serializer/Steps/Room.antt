-- ===== src/Serializer/Steps/Room.antt =====
-- No call of the protocol's writer gives room back.
use ru_fsm.Common.{
  ℕ, zero, suc, ◌+◌, ◌-◌, ◌<◌, ◌≤◌, Bool, true, List, ok, nat_eq, ◌≡◌, inl, inr, refl, arith,
  Bool-cases, none, length, ltb, ◌/◌, ◌%◌, ◌^◌,
}
use ru_fsm.Common.Str.{Str, len}
use ru_fsm.Serializer.Protocol.{int_type, string_length_4bit, string_length_12bit}
use ru_fsm.Serializer.Texts.{boundary-len, take_all}
use ru_fsm.Serializer.Writer.{
  Writer, put_u8, put_rest, eval_result, write_bytes, write_type_and_value, write_uint,
  write_boolean, write_str, write_option_string,
}

put_u8-room : (b : ℕ) (w : Writer) → (put_u8 b w).0.room ≤ w.room
unfolding put_u8
put_u8-room b w = ground arith

eval_result-room : (w : Writer) (b : Bool) → (eval_result (w, b)).room ≤ w.room
unfolding eval_result
eval_result-room w b = ground arith

put_rest-room : (n s v : ℕ) (w : Writer) → (put_rest n s v w).0.room ≤ w.room
unfolding put_rest
put_rest-room zero s v w = omega arith
put_rest-room (suc n) s v w =
    let b = v / 2 ^ (s - 8) % 256 in
    ground (arith, put_u8-room b w, put_rest-room n (s - 8) v (put_u8 b w).0)

write_type_and_value-room : (t v s : ℕ) (w : Writer) → (write_type_and_value t v s w).room ≤ w.room
unfolding write_type_and_value eval_result
write_type_and_value-room t v s w =
    let b = t + v / 2 ^ (s - 4) % 256 % 16 in
    ground (arith, put_u8-room b w, put_rest-room ((s - 4 + 7) / 8) (s - 4) v (put_u8 b w).0)

pub write_uint-room : (v : ℕ) (w : Writer) → (write_uint v w).room ≤ w.room
unfolding write_uint
write_uint-room v w =
    let t = λ (k n : ℕ). write_type_and_value-room (int_type k) v n w in
    ground (arith, t 0 4, t 1 12, t 2 20, t 3 28, t 4 36, t 5 44, t 6 52, t 7 60, t 8 64)

pub write_boolean-room : (b : Bool) (w : Writer) → (write_boolean b w).room ≤ w.room
unfolding write_boolean put_u8 eval_result
write_boolean-room b w = ground arith

module _ (as_bytes : Str → List ℕ) (length-as_bytes : (s : Str) → length (as_bytes s) ≡ len s) where
  -- A text of fewer than 4096 bytes is written without a panic. If that leaves a byte, there was room for all.
  pub write_str-room :
      (s : Str) (w : Writer)
      → len s < 2 ^ 12
      → (w' : Writer) × (write_str as_bytes s w ≡ ok w')
        × (w'.room ≤ w.room)
        × (w.ok ≡ true → 8 ≤ w'.room → w'.room + len s ≤ w.room)
  unfolding write_str write_bytes
  write_str-room s w h =
      let short = write_type_and_value-room string_length_4bit (len s) 4 w in
      let long = write_type_and_value-room string_length_12bit (len s) 12 w in
      let whole = take_all (len s) (as_bytes s) (omega (arith, length-as_bytes s)) in
      elim (Bool-cases w.ok) [
        | inl good ↦ elim (Bool-cases (ltb (len s) (2 ^ 4))) [
          | inl few ↦ (
            write_bytes (as_bytes s) (write_type_and_value string_length_4bit (len s) 4 w),
            ground (arith, boundary-len s, whole),
            omega arith,
            λ _ left. omega (arith, length-as_bytes s),
          )
          | inr many ↦ (
            write_bytes (as_bytes s) (write_type_and_value string_length_12bit (len s) 12 w),
            ground (arith, boundary-len s, whole),
            omega arith,
            λ _ left. omega (arith, length-as_bytes s),
          )
        ]
        | inr bad ↦ (w, ground arith, omega arith, λ good. absurd (cc))
      ]

  pub write_no_str-room :
      (w : Writer)
      → (w' : Writer) × (write_option_string as_bytes none w ≡ ok w') × (w'.room ≤ w.room)
  unfolding write_option_string put_u8 eval_result
  write_no_str-room w = (_, refl, ground arith)
