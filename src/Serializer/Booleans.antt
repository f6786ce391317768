-- ===== src/Serializer/Booleans.antt =====
-- `read_boolean` behind `write_boolean`, of src/serializer/default_protocol_*.rs.
use ru_fsm.Common.{
  append-appended, ℕ, ◌-◌, ◌≤◌, Bool, true, false, List, [], ◌∷◌, ◌++◌, if◌then◌else◌, nat_eq, ◌≡◌,
  ◌∙◌, ap, arith,
}
use ru_fsm.Serializer.Protocol.{boolean_true, boolean_false}
use ru_fsm.Serializer.Writer.{Writer, put_u8, eval_result, write_boolean}
use ru_fsm.Serializer.Reader.{Reader, read_boolean}

abbrev pub flag : Bool → ℕ
flag b = if b then boolean_true else boolean_false

pub write_boolean-flag :
    (b : Bool) (w : Writer)
    → w.ok ≡ true
    → 1 ≤ w.room
    → write_boolean b w ≡ record w { written = w.written ++ (flag b ∷ []); room = w.room - 1 }
unfolding write_boolean put_u8 eval_result
write_boolean-flag b w good room = ground arith

pub read_boolean-flag :
    (b : Bool) (r : Reader) (rest : List ℕ)
    → r.ok ≡ true
    → r.input ≡ flag b ∷ rest
    → read_boolean r ≡ (b, record r { input = rest })
unfolding read_boolean
read_boolean-flag true r rest good e = ground arith
read_boolean-flag false r rest good e = ground arith

-- With room for it, `write_boolean` writes a Boolean without an error. If the input of a reader is what that
-- call has appended and then `rest`, `read_boolean` returns the Boolean, without an error, and leaves `rest`.
pub read_boolean_of_written :
    (b : Bool) (w : Writer) (r : Reader) (rest : List ℕ)
    → w.ok ≡ true
    → 1 ≤ w.room
    → r.ok ≡ true
    → w.written ++ r.input ≡ (write_boolean b w).written ++ rest
    → ((write_boolean b w).ok ≡ true)
      × ((read_boolean r).0 ≡ b)
      × ((read_boolean r).1.input ≡ rest)
      × ((read_boolean r).1.ok ≡ true)
read_boolean_of_written b w r rest good room fine e =
    let done = write_boolean-flag b w good room in
    let appended =
      append-appended w.written r.input (flag b ∷ []) rest (write_boolean b w).written
        (ap (λ (x : Writer). x.written) done) e in
    let back = read_boolean-flag b r rest fine appended in
    (
      ap (λ (x : Writer). x.ok) done ∙ good,
      ap (λ (p : Bool × Reader). p.0) back,
      ap (λ (p : Bool × Reader). p.1.input) back,
      ap (λ (p : Bool × Reader). p.1.ok) back ∙ fine,
    )
