-- ===== src/Common/Decimal.antt =====
-- `i64` and decimal notation as Rust's standard library has them: the bounds, `parse::<i64>()` and `to_string`.
use Prim.Native.Nat.{ℕ, zero, suc, ◌+◌, ◌-◌, ◌*◌, ◌/◌, ◌%◌, ◌^◌}
use mathlib.Core.Bool.{Bool, ◌&&◌}
use mathlib.Core.List.{[], ◌∷◌}
use ru_fsm.Common.Int.{ℤ, pos, negsuc}
use ru_fsm.Common.Str.{Str, codes}
use ru_fsm.Common.Tests.{ltb, leb, if◌then◌else◌, ◌==◌, nat_eq}

abbrev pub i64_max : ℕ
i64_max = 2 ^ 63 - 1

-- `char::is_ascii_digit`
unfoldable pub is_ascii_digit : ℕ → Bool
is_ascii_digit c = leb b'0' c && leb c b'9'

pub data ParsedInt : Type 0 where
  parsed : ℤ → ParsedInt
  refused : Str → ParsedInt

-- The digits behind the value `n`, whose absolute value is at most `limit`; `too` is the error beyond that.
scan : (ℕ → ℤ) → ℕ → Str → Str → ℕ → ParsedInt
scan sign limit too [] n = parsed (sign n)
scan sign limit too (c ∷ s) n =
    let m = n * 10 + (c - b'0') in
    let rest = scan sign limit too s m in
    if is_ascii_digit c
    then if leb m limit then rest else refused too
    else refused (codes "invalid digit found in string")

unfoldable pub negative : ℕ → ℤ
negative zero = pos zero
negative (suc n) = negsuc n

some_digits : (ℕ → ℤ) → ℕ → Str → Str → ParsedInt
some_digits sign limit too [] = refused (codes "invalid digit found in string")
some_digits sign limit too (c ∷ s) = scan sign limit too (c ∷ s) 0

unfoldable pub parse_i64 : Str → ParsedInt
unfolding scan some_digits
parse_i64 [] = refused (codes "cannot parse integer from empty string")
parse_i64 (c ∷ s) =
    let too_large = codes "number too large to fit in target type" in
    let too_small = codes "number too small to fit in target type" in
    if c == b'-'
    then some_digits negative (i64_max + 1) too_small s
    else if c == b'+'
    then some_digits pos i64_max too_large s
    else some_digits pos i64_max too_large (c ∷ s)

-- The digits of `n` before `acc`; each takes a unit of fuel.
digits : ℕ → ℕ → Str → Str
digits zero n acc = acc
digits (suc fuel) n acc =
    let d = b'0' + n % 10 in
    let more = digits fuel (n / 10) (d ∷ acc) in if ltb n 10 then d ∷ acc else more

unfoldable pub show_nat : ℕ → Str
unfolding digits
show_nat n = digits (suc n) n []

-- `i64::to_string`
unfoldable pub show_int : ℤ → Str
show_int (pos n) = show_nat n
show_int (negsuc n) = b'-' ∷ show_nat (n + 1)
