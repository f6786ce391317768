-- ===== src/Common/Int.antt =====
-- Signed integers over the native numbers: `negsuc n` is -(n + 1).
use Prim.Native.Nat.{ℕ, zero, suc, ◌+◌, ◌-◌, ◌*◌, ◌%◌, ◌^◌, ◌<◌}
use mathlib.Core.Bool.{Bool, false, ◌&&◌}
use ru_fsm.Common.Outcome.{Run, ok, panic}
use ru_fsm.Common.Tests.{leb, nat_beq, if◌then◌else◌}

pub data ℤ : Type 0 where
  pos : ℕ → ℤ
  negsuc : ℕ → ℤ

infixl 60 ◌+ℤ◌
infixl 70 ◌*ℤ◌
-- `m - n`
unfoldable pub difference : ℕ → ℕ → ℤ
difference m n = if leb n m then pos (m - n) else negsuc (n - m - 1)

unfoldable pub ◌+ℤ◌ : ℤ → ℤ → ℤ
unfolding difference
pos m +ℤ pos n = pos (m + n)
pos m +ℤ negsuc n = difference m (n + 1)
negsuc m +ℤ pos n = difference n (m + 1)
negsuc m +ℤ negsuc n = negsuc (m + n + 1)

unfoldable pub neg : ℤ → ℤ
neg (pos zero) = pos zero
neg (pos (suc n)) = negsuc n
neg (negsuc n) = pos (n + 1)

unfoldable pub ◌*ℤ◌ : ℤ → ℤ → ℤ
unfolding neg
pos m *ℤ pos n = pos (m * n)
pos m *ℤ negsuc n = neg (pos (m * (n + 1)))
negsuc m *ℤ pos n = neg (pos ((m + 1) * n))
negsuc m *ℤ negsuc n = pos ((m + 1) * (n + 1))

-- The nearest value of `i64`.
unfoldable pub saturate : ℤ → ℤ
saturate (pos n) = pos (if leb n (2 ^ 63 - 1) then n else 2 ^ 63 - 1)
saturate (negsuc n) = negsuc (if leb n (2 ^ 63 - 1) then n else 2 ^ 63 - 1)

-- The language's `saturating_add`, `saturating_sub` and `saturating_mul` of `i64`
unfoldable pub saturating_add : ℤ → ℤ → ℤ
saturating_add a b = saturate (a +ℤ b)

unfoldable pub saturating_sub : ℤ → ℤ → ℤ
saturating_sub a b = saturate (a +ℤ neg b)

unfoldable pub saturating_mul : ℤ → ℤ → ℤ
saturating_mul a b = saturate (a *ℤ b)

-- The size of a number, and its remainder with the sign of the dividend.
abbrev pub size : ℤ → ℕ
size (pos n) = n
size (negsuc n) = n + 1

unfoldable pub rem : ℤ → ℕ → ℤ
unfolding neg
rem (pos m) n = pos (m % n)
rem (negsuc m) n = neg (pos ((m + 1) % n))

abbrev pub is_min : ℤ → Bool
is_min (pos n) = false
is_min (negsuc n) = nat_beq n (2 ^ 63 - 1)

abbrev pub is_minus_one : ℤ → Bool
is_minus_one (pos n) = false
is_minus_one (negsuc n) = nat_beq n 0

-- The language's `%` on `i64`: it panics on a divisor 0, and where the quotient overflows
unfoldable pub checked_rem : ℤ → ℤ → Run ℤ
unfolding rem
checked_rem a b =
    if nat_beq (size b) 0
    then panic
    else if is_min a && is_minus_one b
    then panic
    else ok (rem a (size b))

-- The values of `i64`.
abbrev pub InRange : ℤ → Type 0
InRange (pos n) = n < 2 ^ 63
InRange (negsuc n) = n < 2 ^ 63
