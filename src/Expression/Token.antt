-- ===== src/Expression/Token.antt =====
-- `Operator`, `NumericToken` and `Token` of src/expression_engine/lexer.rs. A character is its code point, an `f64`
-- its bit pattern.
use ru_fsm.Common.{ℕ, Bool}
use ru_fsm.Common.Int.{ℤ}
use ru_fsm.Common.Str.{Str}

pub data Operator : Type 0 where
  multiply divide plus minus : Operator
  less less_equal greater greater_equal : Operator
  assign assign_undefined : Operator
  equal not_equal : Operator
  and or modulus not : Operator

pub data NumericToken : Type 0 where
  integer : ℤ → NumericToken
  double : ℕ → NumericToken

pub data Token : Type 0 where
  number : NumericToken → Token
  identifier : Str → Token
  tstring : Str → Token
  boolean : Bool → Token
  operator : Operator → Token
  bracket : ℕ → Token
  separator : ℕ → Token
  expression_separator : Token
  null : Token
  error : Str → Token
  eoe : Token
