-- ===== src/Fsm/Content.antt =====
-- The parts of a document that the datamodel runs: `Parameter` and `CommonContent` of src/fsm.rs, and the kinds of
-- executable content of src/executable_content.rs.
use ru_fsm.Common.{ℕ, List, Option}
use ru_fsm.Common.Str.{Str}
use ru_fsm.Datamodel.Data.{Data}

-- `StateId`, `TransitionId`, `DocumentId` and `ExecutableContentId`: u32, where 0 means "none".
abbrev pub Id32 : Type 0
Id32 = ℕ

pub record Parameter : Type 0 where
  pub name : Str
  pub expr : Str
  pub location : Str

pub record CommonContent : Type 0 where
  pub content : Option Str
  pub content_expr : Option Str

pub record SendParameters : Type 0 where
  pub name_location : Str
  pub name : Str
  pub parent_state_name : Str
  pub event : Data
  pub event_expr : Data
  pub target : Data
  pub target_expr : Data
  pub type_value : Data
  pub type_expr : Data
  pub delay_ms : ℕ
  pub delay_expr : Data
  pub name_list : List Str
  pub params : Option (List Parameter)
  pub content : Option CommonContent

-- The types that implement the trait `ExecutableContent`, with their fields in the source's order.
pub data ExecutableContent : Type 0 where
  conditional : Data → Id32 → Id32 → ExecutableContent
  expression : Data → ExecutableContent
  script : List Id32 → ExecutableContent
  log : Str → Data → ExecutableContent
  for_each : Data → Str → Str → Id32 → ExecutableContent
  send : SendParameters → ExecutableContent
  raise : Str → ExecutableContent
  cancel : Str → Data → ExecutableContent
  assign : Data → Data → ExecutableContent
