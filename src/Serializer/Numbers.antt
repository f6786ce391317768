-- ===== src/Serializer/Numbers.antt =====
-- `read_uint` behind `write_uint`, for the numbers below 2 ^ 60 and for the others.
use ru_fsm.Common.{
  append-appended, ℕ, suc, ◌+◌, ◌-◌, ◌<◌, ◌≤◌, true, List, [], ◌∷◌, ◌++◌, if◌then◌else◌, nat_eq,
  ◌≡◌, refl, ◌∙◌, ap, arith, Option, append_assoc, ltb, ◌*◌, ◌/◌, ◌%◌, ◌^◌,
}
use ru_fsm.Common.Str.{Str}
use ru_fsm.Serializer.Protocol.{int_type}
use ru_fsm.Serializer.Writer.{Writer, eval_result, write_type_and_value, write_uint}
use ru_fsm.Serializer.Reader.{
  Reader, read_number, read_typed, read_type_and_size, verify_number_type, is_number_type,
  read_uint,
}
use ru_fsm.Serializer.Digits.{digits, put_u8_room, put_rest-digits, read_additional-digits}
use native.Mathlib.Nat.{div-add-mod'}

-- The number of bytes behind the first one for a number below 2 ^ 60.
pub width : ℕ → ℕ
width v =
    if ltb v (2 ^ 4)
    then 0
    else if ltb v (2 ^ 12)
    then 1
    else if ltb v (2 ^ 20)
    then 2
    else if ltb v (2 ^ 28)
    then 3
    else if ltb v (2 ^ 36)
    then 4
    else if ltb v (2 ^ 44)
    then 5
    else if ltb v (2 ^ 52)
    then 6
    else 7

-- What is written for it.
pub encoding : ℕ → List ℕ
encoding v = (int_type (width v) + v / 2 ^ (8 * width v)) ∷ digits (width v) v

pub width_fits : (v : ℕ) → v < 2 ^ 60 → (width v ≤ 7) × (v / 2 ^ (8 * width v) < 16)
unfolding width
width_fits v h = ground arith

write_uint-width :
    (v : ℕ) (w : Writer)
    → v < 2 ^ 60
    → write_uint v w ≡ write_type_and_value (int_type (width v)) v (8 * width v + 4) w
unfolding write_uint width
write_uint-width v w h = ground arith

pub write_typed-digits :
    (tid k v : ℕ) (w : Writer)
    → w.ok ≡ true
    → suc k ≤ w.room
    → write_type_and_value tid v (8 * k + 4) w ≡ record w {
      written = w.written ++ ((tid + v / 2 ^ (8 * k) % 256 % 16) ∷ digits k v);
      room = w.room - suc k;
    }
unfolding write_type_and_value eval_result
write_typed-digits tid k v w h room =
    let shift : 8 * k + 4 - 4 ≡ 8 * k = omega arith in
    let rounds : (8 * k + 7) / 8 ≡ k = omega arith in
    let first = tid + v / 2 ^ (8 * k) % 256 % 16 in
    let w' = record w { written = w.written ++ (first ∷ []); room = w.room - 1 } in
    rw (shift, rounds, put_u8_room first w (omega arith))
      (rw (put_rest-digits k v w' (omega arith), h)
        (ground (arith, append_assoc w.written (first ∷ []) (digits k v))))

pub read_typed-number :
    (from_utf8 : List ℕ → Option Str) (k x : ℕ) (r : Reader)
    → k ≤ 8
    → x < 16
    → read_typed from_utf8 (int_type k + x) r ≡ read_number k (int_type k + x) r
unfolding read_typed
read_typed-number from_utf8 k x r hk hx = ground arith

-- With room for it, `write_uint` appends the encoding of a number below 2 ^ 60.
pub write_uint-encoding :
    (v : ℕ) (w : Writer)
    → v < 2 ^ 60
    → w.ok ≡ true
    → 8 ≤ w.room
    → write_uint v w ≡ record w { written = w.written ++ encoding v; room = w.room - suc (width v) }
unfolding encoding
write_uint-encoding v w h good room =
    let (narrow, top) = width_fits v h in
    let first : int_type (width v) + v / 2 ^ (8 * width v) % 256 % 16
        ≡ int_type (width v) + v / 2 ^ (8 * width v) =
      omega arith in
    write_uint-width v w h
    ∙ write_typed-digits (int_type (width v)) (width v) v w good (omega arith)
    ∙ ap
        (λ (b : ℕ). record w {
          written = w.written ++ (b ∷ digits (width v) v);
          room = w.room - suc (width v);
        })
        first

module _ (from_utf8 : List ℕ → Option Str) where
  pub read_type_and_size_step :
      (r : Reader) (b : ℕ) (t : List ℕ)
      → r.ok ≡ true
      → r.input ≡ b ∷ t
      → read_type_and_size from_utf8 r
        ≡ read_typed from_utf8 b (record r { input = t; string = [] })
  unfolding read_type_and_size
  read_type_and_size_step r b t good e = ground arith

  -- What `read_type_and_size` leaves of an encoded number.
  pub read_type_and_size-encoding :
      (v : ℕ) (r : Reader) (rest : List ℕ)
      → v < 2 ^ 60
      → r.ok ≡ true
      → r.input ≡ encoding v ++ rest
      → read_type_and_size from_utf8 r
        ≡ record r { input = rest; type_id = int_type (width v); number = v; string = [] }
  unfolding encoding read_number
  read_type_and_size-encoding v r rest h good e =
      let (narrow, top) = width_fits v h in
      let k = width v in
      let x = v / 2 ^ (8 * k) in
      let s = record r { input = digits k v ++ rest; string = [] } in
      let start = record s { type_id = int_type k; number = (int_type k + x) % 16 } in
      let low : (int_type k + x) % 16 ≡ x = omega arith in
      let whole : (int_type k + x) % 16 * 2 ^ (8 * k) + v % 2 ^ (8 * k) ≡ v =
        rw low (div-add-mod' v (2 ^ (8 * k))) in
      read_type_and_size_step r _ (digits k v ++ rest) good e
      ∙ (read_typed-number from_utf8 k x s (omega arith) top
          ∙ read_additional-digits k v start rest good refl (omega arith)
          ∙ ap (λ (m : ℕ). record start { input = rest; number = m }) whole)

  -- After a number, without an error, `read_uint` returns it.
  pub read_uint_lem :
      (r : Reader) (k v : ℕ) (rest : List ℕ)
      → k ≤ 8
      → r.ok ≡ true
      → read_type_and_size from_utf8 r
        ≡ record r { input = rest; type_id = int_type k; number = v; string = [] }
      → read_uint from_utf8 r
        ≡ (v, record r { input = rest; type_id = int_type k; number = v; string = [] })
  unfolding read_uint verify_number_type is_number_type
  read_uint_lem r k v rest h good e = ground arith

  pub read_uint-write_uint :
      (v : ℕ) (w : Writer)
      → v < 2 ^ 60
      → w.ok ≡ true
      → 8 ≤ w.room
      → (bytes : List ℕ) × ((write_uint v w).written ≡ w.written ++ bytes)
        × ((write_uint v w).ok ≡ true)
        × ((r : Reader) (rest : List ℕ)
            → r.ok ≡ true
            → r.input ≡ bytes ++ rest
            → ((read_uint from_utf8 r).0 ≡ v)
              × ((read_uint from_utf8 r).1.input ≡ rest)
              × ((read_uint from_utf8 r).1.ok ≡ true))
  read_uint-write_uint v w h good room =
      let done = write_uint-encoding v w h good room in
      (
        encoding v,
        ap (λ (u : Writer). u.written) done,
        ap (λ (u : Writer). u.ok) done ∙ good,
        λ r rest fine e.
            let back =
              read_uint_lem r (width v) v rest (omega (arith, (width_fits v h).0)) fine
                (read_type_and_size-encoding v r rest h fine e) in
            (
              ap (λ (p : ℕ × Reader). p.0) back,
              ap (λ (p : ℕ × Reader). p.1.input) back,
              ap (λ (p : ℕ × Reader). p.1.ok) back ∙ fine,
            ),
      )

  -- With room for it, `write_uint` writes a number below 2 ^ 60 without an error. If the input of a reader is
  -- what that call has appended and then `rest`, `read_uint` returns the number, without an error, and leaves
  -- `rest`.
  pub read_uint_of_written :
      (v : ℕ) (w : Writer) (r : Reader) (rest : List ℕ)
      → v < 2 ^ 60
      → w.ok ≡ true
      → 8 ≤ w.room
      → r.ok ≡ true
      → w.written ++ r.input ≡ (write_uint v w).written ++ rest
      → ((write_uint v w).ok ≡ true)
        × ((read_uint from_utf8 r).0 ≡ v)
        × ((read_uint from_utf8 r).1.input ≡ rest)
        × ((read_uint from_utf8 r).1.ok ≡ true)
  read_uint_of_written v w r rest h good room fine e =
      let (bytes, p, q, back) = read_uint-write_uint v w h good room in
      let (value, left, unharmed) =
        back r rest fine (append-appended w.written r.input bytes rest _ p e) in
      (q, value, left, unharmed)
