-- ===== src/Serializer/Digits.antt =====
-- The bytes of a number behind its first byte, highest first, and the loops that write and read them.
use ru_fsm.Common.{
  ℕ, zero, suc, ◌+◌, ◌-◌, ◌<◌, ◌≤◌, true, List, [], ◌∷◌, ◌++◌, nat_eq, ◌≡◌, refl, ◌∙◌, ap, arith,
  length, append-nil, append_assoc, ◌*◌, ◌/◌, ◌%◌, ◌^◌,
}
use ru_fsm.Serializer.Writer.{Writer, put_u8, put_rest}
use ru_fsm.Serializer.Reader.{Reader, read_additional_number_bytes}
use native.Mathlib.Nat.{mul_comm, div-div-eq-div-mul, mod-eq-sub-div-mul, div-add-mod}
use native.Mathlib.Numerals.{towards_suc}

unfoldable pub digits : ℕ → ℕ → List ℕ
digits zero v = []
digits (suc k) v = (v / 2 ^ (8 * k) % 256) ∷ digits k v

pub length-digits : (k v : ℕ) → length (digits k v) ≡ k
unfolding digits
length-digits zero v = refl
length-digits (suc k) v = ap suc (length-digits k v)

pub pow_eight : (k : ℕ) → 2 ^ (8 * suc k) ≡ 256 * 2 ^ (8 * k)
pow_eight k = let e : 8 * suc k ≡ 8 * k + 8 = omega arith in rw e (simp towards_suc (omega arith))

-- The lowest `k + 1` bytes: the top one, and the others.
digit_split : (v p : ℕ) → v % (256 * p) ≡ v / p % 256 * p + v % p
digit_split v p = rw (mul_comm 256 p) (
    omega (
      arith,
      div-div-eq-div-mul v p 256,
      mod-eq-sub-div-mul v (p * 256),
      ap (λ (q : ℕ). q * (p * 256)) (div-div-eq-div-mul v p 256),
      div-add-mod v p,
      ap (λ (q : ℕ). q * p) (div-add-mod (v / p) 256),
    ))

pow_pos : (k : ℕ) → 1 ≤ 2 ^ (8 * k)
pow_pos zero = omega arith
pow_pos (suc k) = omega (arith, pow_pos k, pow_eight k)

le-mul_pos : (x p : ℕ) → 1 ≤ p → x ≤ x * p
le-mul_pos x zero h = absurd (omega arith)
le-mul_pos x (suc q) h = omega arith

pub put_u8_room :
    (b : ℕ) (w : Writer)
    → 1 ≤ w.room
    → put_u8 b w ≡ (record w { written = w.written ++ (b ∷ []); room = w.room - 1 }, true)
unfolding put_u8
put_u8_room b w h = ground arith

-- With enough room the loop appends the bytes.
pub put_rest-digits :
    (k v : ℕ) (w : Writer)
    → k ≤ w.room
    → put_rest k (8 * k) v w
      ≡ (record w { written = w.written ++ digits k v; room = w.room - k }, true)
unfolding put_rest digits
put_rest-digits zero v w h = ground (arith, append-nil w.written)
put_rest-digits (suc k) v w h =
    let shift : 8 * suc k - 8 ≡ 8 * k = omega arith in
    let d = v / 2 ^ (8 * k) % 256 in
    let w' = record w { written = w.written ++ (d ∷ []); room = w.room - 1 } in
    rw (shift, put_u8_room d w (omega arith))
      (put_rest-digits k v w' (omega arith)
        ∙ ground (arith, append_assoc w.written (d ∷ []) (digits k v)))

pub read_additional_step :
    (k d : ℕ) (t : List ℕ) (r : Reader)
    → r.ok ≡ true
    → r.input ≡ d ∷ t
    → read_additional_number_bytes (suc k) r
      ≡ read_additional_number_bytes k
          (record r { input = t; number = r.number * 256 % 2 ^ 64 + d })
unfolding read_additional_number_bytes
read_additional_step k d t r h e = ground arith

-- The loop takes the bytes from the input and puts them behind the number read so far.
pub read_additional-digits :
    (k v : ℕ) (r : Reader) (rest : List ℕ)
    → r.ok ≡ true
    → r.input ≡ digits k v ++ rest
    → r.number * 2 ^ (8 * k) + v % 2 ^ (8 * k) < 2 ^ 64
    → read_additional_number_bytes k r
      ≡ record r { input = rest; number = r.number * 2 ^ (8 * k) + v % 2 ^ (8 * k) }
unfolding digits
read_additional-digits zero v r rest h e fits = unfold read_additional_number_bytes in ground arith
read_additional-digits (suc k) v r rest h e fits =
    let p = 2 ^ (8 * k) in
    let d = v / p % 256 in
    let a = r.number in
    let whole : a * 2 ^ (8 * suc k) ≡ a * 256 * p =
      omega (arith, ap (λ (q : ℕ). a * q) (pow_eight k)) in
    let split : v % 2 ^ (8 * suc k) ≡ d * p + v % p = rw (pow_eight k) (digit_split v p) in
    let unwrapped : a * 256 % 2 ^ 64 ≡ a * 256 =
      omega (arith, le-mul_pos (a * 256) p (pow_pos k)) in
    let total : (a * 256 + d) * p + v % p ≡ a * 2 ^ (8 * suc k) + v % 2 ^ (8 * suc k) =
      omega arith in
    let r' = record r { input = digits k v ++ rest; number = a * 256 + d } in
    read_additional_step k d (digits k v ++ rest) r h e
    ∙ ap
        (λ (m : ℕ).
          read_additional_number_bytes k (record r { input = digits k v ++ rest; number = m + d }))
        unwrapped
    ∙ read_additional-digits k v r' rest h refl (omega arith)
    ∙ ap (λ (m : ℕ). record r { input = rest; number = m }) total
