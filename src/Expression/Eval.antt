-- ===== src/Expression/Eval.antt =====
-- `execute` of the expressions of src/expression_engine/expressions.rs on the data of a session.
pub mod Access
pub mod Run
pub mod Keeps
pub mod Assign
use ru_fsm.Common.{Result, ℕ, Bool, List}
use ru_fsm.Common.Str.{Str}
use ru_fsm.Datamodel.Cells.{Fields, Heap}
use ru_fsm.Datamodel.Value.{Value}

-- What an expression works on of `GlobalData`: the `DataStore` and the cells.
pub record Context : Type 0 where
  pub data_ : Fields
  pub heap : Heap

-- The registered actions (`ActionWrapper::execute`): a name and the arguments give a value or an error, and may write to
-- cells.
abbrev pub Actions : Type 0
Actions = Str → List Value → Context → Result Value × Heap
