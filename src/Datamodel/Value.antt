-- ===== src/Datamodel/Value.antt =====
-- `Data` and `DataArc` of src/datamodel/mod.rs with their sharing: a `DataArc` is the address of a cell on a heap,
-- and the flag of this reference to it.
use ru_fsm.Common.{ℕ, Bool, List}
use ru_fsm.Common.Int.{ℤ}
use ru_fsm.Common.Str.{Str}

-- `flags` has one bit, `DATA_FLAG_READONLY`.
pub record DataArc : Type 0 where
  pub arc : ℕ
  pub readonly : Bool

pub data Value : Type 0 where
  integer : ℤ → Value
  double : ℕ → Value
  string : Str → Value
  boolean : Bool → Value
  array : List DataArc → Value
  map : List (Str × DataArc) → Value
  null : Value
  error : Str → Value
  source : Str → ℕ → Value
  none : Value
