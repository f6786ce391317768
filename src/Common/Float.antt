-- ===== src/Common/Float.antt =====
-- What the expression language uses of the machine's `f64`: IEEE 754 arithmetic on bit patterns, the conversions and
-- the notation.
use Prim.Native.Nat.{ℕ}
use mathlib.Core.Bool.{Bool, false}
use mathlib.Core.Option.{Option, none}
use mathlib.Core.List.{[]}
use ru_fsm.Common.Int.{ℤ, pos}
use ru_fsm.Common.Str.{Str}

-- `of_int` and `of_nat` are `as f64`, `to_int` is `as i64`; `is_whole` is the test `fract().abs() < 0.001` together
-- with the bounds of `i64`.
pub record Float : Type 0 where
  pub parse : Str → Option ℕ
  pub show : ℕ → Str
  pub of_int : ℤ → ℕ
  pub of_nat : ℕ → ℕ
  pub to_int : ℕ → ℤ
  pub is_whole : ℕ → Bool
  pub is_nan : ℕ → Bool
  pub add : ℕ → ℕ → ℕ
  pub sub : ℕ → ℕ → ℕ
  pub mul : ℕ → ℕ → ℕ
  pub div : ℕ → ℕ → ℕ
  pub rem : ℕ → ℕ → ℕ
  pub eq : ℕ → ℕ → Bool
  pub lt : ℕ → ℕ → Bool
  pub le : ℕ → ℕ → Bool

-- The machine of the examples, which use no float.
abbrev pub idle : Float
idle = record {
  parse = λ s. none;
  show = λ n. [];
  of_int = λ i. 0;
  of_nat = λ n. 0;
  to_int = λ n. pos 0;
  is_whole = λ n. false;
  is_nan = λ n. false;
  add = λ a b. 0;
  sub = λ a b. 0;
  mul = λ a b. 0;
  div = λ a b. 0;
  rem = λ a b. 0;
  eq = λ a b. false;
  lt = λ a b. false;
  le = λ a b. false;
}
