-- ===== src/Serializer/Wide.antt =====
-- `read_uint` behind `write_uint` for numbers of 61 to 64 bits: the writer shifts by 60, 52, …, 4 and then by 0,
-- so that its last two bytes overlap in four bits, and the reader takes them one behind the other.
use ru_fsm.Common.{
  append-appended, ℕ, zero, suc, ◌+◌, ◌-◌, ◌<◌, ◌≤◌, true, List, [], ◌∷◌, ◌++◌, nat_eq, ◌≡◌, ◌≢◌,
  refl, sym, ◌∙◌, ap, arith, Option, append-nil, append_assoc, ◌*◌, ◌/◌, ◌%◌, ◌^◌,
}
use ru_fsm.Common.Str.{Str}
use ru_fsm.Serializer.Protocol.{int_type}
use ru_fsm.Serializer.Writer.{Writer, put_rest, eval_result, write_type_and_value, write_uint}
use ru_fsm.Serializer.Reader.{Reader, read_number, read_additional_number_bytes, read_uint}
use ru_fsm.Serializer.Digits.{put_u8_room}
use ru_fsm.Serializer.Numbers.{read_type_and_size_step, read_typed-number, read_uint_lem}

-- The bytes that the loop of `write_type_and_value` writes from `size` bits on.
abbrev shifts : ℕ → ℕ → ℕ → List ℕ
shifts zero size v = []
shifts (suc rounds) size v = (v / 2 ^ (size - 8) % 256) ∷ shifts rounds (size - 8) v

put_rest-shifts :
    (rounds size v : ℕ) (w : Writer)
    → rounds ≤ w.room
    → put_rest rounds size v w
      ≡ (record w { written = w.written ++ shifts rounds size v; room = w.room - rounds }, true)
unfolding put_rest
put_rest-shifts zero size v w h = ground (arith, append-nil w.written)
put_rest-shifts (suc rounds) size v w h =
    let d = v / 2 ^ (size - 8) % 256 in
    let w' = record w { written = w.written ++ (d ∷ []); room = w.room - 1 } in
    rw (put_u8_room d w (omega arith)) (
      put_rest-shifts rounds (size - 8) v w' (omega arith)
      ∙ ground (arith, append_assoc w.written (d ∷ []) (shifts rounds (size - 8) v)))

-- What is written for a number of more than 60 bits.
abbrev pub wide_encoding : ℕ → List ℕ
wide_encoding v = (int_type 8 + v / 2 ^ 60) ∷ shifts 8 60 v

write_uint-type :
    (v : ℕ) (w : Writer) → 2 ^ 60 ≤ v → write_uint v w ≡ write_type_and_value (int_type 8) v 64 w
unfolding write_uint
write_uint-type v w lo = ground arith

write_uint-wide_encoding :
    (v : ℕ) (w : Writer)
    → 2 ^ 60 ≤ v
    → v < 2 ^ 64
    → w.ok ≡ true
    → 9 ≤ w.room
    → write_uint v w ≡ record w { written = w.written ++ wide_encoding v; room = w.room - 9 }
unfolding write_type_and_value eval_result
write_uint-wide_encoding v w lo hi good room =
    let first = int_type 8 + v / 2 ^ 60 in
    let w' = record w { written = w.written ++ (first ∷ []); room = w.room - 1 } in
    let top : int_type 8 + v / 2 ^ 60 % 256 % 16 ≡ first = omega arith in
    write_uint-type v w lo
    ∙ rw (top, put_u8_room first w (omega arith))
        (rw (put_rest-shifts 8 60 v w' (omega arith), good)
          (ground (arith, append_assoc w.written (first ∷ []) (shifts 8 60 v))))

-- What the reader makes of it.
abbrev pub overlapped : ℕ → ℕ
overlapped v = v / 16 * 256 % 2 ^ 64 + v % 256

read_wide :
    (v : ℕ) (r : Reader) (rest : List ℕ)
    → v < 2 ^ 64
    → r.ok ≡ true
    → r.number ≡ v / 2 ^ 60
    → r.input ≡ shifts 8 60 v ++ rest
    → read_additional_number_bytes 8 r ≡ record r { input = rest; number = overlapped v }
unfolding read_additional_number_bytes
read_wide v r rest hi good n e = ground arith

overlapped-ne : (v : ℕ) → v < 2 ^ 64 → v / 2 ^ 60 ≢ v / 2 ^ 56 % 16 → overlapped v ≢ v
overlapped-ne v hi h e = h (omega arith)

pub read_uint-write_uint_wide :
    (from_utf8 : List ℕ → Option Str) (v : ℕ) (w : Writer)
    → 2 ^ 60 ≤ v
    → v < 2 ^ 64
    → w.ok ≡ true
    → 9 ≤ w.room
    → (bytes : List ℕ) × ((write_uint v w).written ≡ w.written ++ bytes)
      × ((write_uint v w).ok ≡ true)
      × ((r : Reader) (rest : List ℕ)
          → r.ok ≡ true
          → r.input ≡ bytes ++ rest
          → ((read_uint from_utf8 r).0 ≡ v / 16 * 256 % 2 ^ 64 + v % 256)
            × ((read_uint from_utf8 r).1.ok ≡ true)
            × (v / 2 ^ 60 ≢ v / 2 ^ 56 % 16 → (read_uint from_utf8 r).0 ≢ v))
unfolding read_number
read_uint-write_uint_wide from_utf8 v w lo hi good room =
    let done = write_uint-wide_encoding v w lo hi good room in
    (
      wide_encoding v,
      ap (λ (u : Writer). u.written) done,
      ap (λ (u : Writer). u.ok) done ∙ good,
      λ r rest fine e.
          let x = v / 2 ^ 60 in
          let s = record r { input = shifts 8 60 v ++ rest; string = [] } in
          let start = record s { type_id = int_type 8; number = (int_type 8 + x) % 16 } in
          let back = read_uint_lem from_utf8 r 8 (overlapped v) rest (omega arith) fine (
            read_type_and_size_step from_utf8 r (int_type 8 + x) (shifts 8 60 v ++ rest) fine e
            ∙ read_typed-number from_utf8 8 x s (omega arith) (omega arith)
            ∙ read_wide v start rest hi fine (omega arith) refl) in
          let value = ap (λ (p : ℕ × Reader). p.0) back in
          (
            value,
            ap (λ (p : ℕ × Reader). p.1.ok) back ∙ fine,
            λ top same. overlapped-ne v hi top (sym value ∙ same),
          ),
    )

-- With room for it, `write_uint` writes a number of 61 to 64 bits without an error. If the input of a reader is
-- what that call has appended and then `rest`, `read_uint` finds no error, but returns the number without its
-- top four bits and shifted up by four bits, its low byte in its place.
pub read_uint_of_written_wide :
    (from_utf8 : List ℕ → Option Str) (v : ℕ) (w : Writer) (r : Reader) (rest : List ℕ)
    → 2 ^ 60 ≤ v
    → v < 2 ^ 64
    → w.ok ≡ true
    → 9 ≤ w.room
    → r.ok ≡ true
    → w.written ++ r.input ≡ (write_uint v w).written ++ rest
    → ((write_uint v w).ok ≡ true)
      × ((read_uint from_utf8 r).0 ≡ v / 16 * 256 % 2 ^ 64 + v % 256)
      × ((read_uint from_utf8 r).1.ok ≡ true)
read_uint_of_written_wide from_utf8 v w r rest lo hi good room fine e =
    let (bytes, p, q, back) = read_uint-write_uint_wide from_utf8 v w lo hi good room in
    let (value, unharmed, _) =
      back r rest fine (append-appended w.written r.input bytes rest _ p e) in
    (q, value, unharmed)
