-- ===== src/Fsm/Model.antt =====
-- The document model of src/fsm.rs: `State`, `Transition`, `Fsm` and the accessors by id. Left out of the
-- records are tracer, timer, file, version and table of names, which neither the algorithm nor the serializer
-- reads.
pub mod NameMatch
use ru_fsm.Common.{
  ℕ, zero, suc, Bool, true, false, List, Option, Run, panic, unwrap, get_elem?, nat_eq,
}
use ru_fsm.Common.Str.{Str}
use ru_fsm.Datamodel.Data.{Data, Fields}
pub use ru_fsm.Fsm.Content.{Id32, Parameter, CommonContent, ExecutableContent}
use ru_fsm.Fsm.Collections.HashTable.{HashTable, get}
use Prim.Native.Nat.{compare, Ordering}

pub data BindingType : Type 0 where
  early late : BindingType

pub data HistoryType : Type 0 where
  shallow deep none : HistoryType

pub data TransitionType : Type 0 where
  internal external : TransitionType

pub record Invoke : Type 0 where
  pub doc_id : Id32
  pub external_id_location : Str
  pub type_name : Data
  pub type_expr : Data
  pub name_list : List Str
  pub src : Data
  pub src_expr : Data
  pub autoforward : Bool
  pub finalize : Id32
  pub invoke_id : Str
  pub parent_state_name : Str
  pub params : Option (List Parameter)
  pub content : Option CommonContent

pub record DoneData : Type 0 where
  pub content : Option CommonContent
  pub params : Option (List Parameter)

pub record State : Type 0 where
  pub id : Id32
  pub doc_id : Id32
  pub name : Str
  pub initial : Id32
  pub states : List Id32
  pub is_parallel : Bool
  pub is_final : Bool
  pub history_type : HistoryType
  pub onentry : List Id32
  pub onexit : List Id32
  pub transitions : List Id32
  pub invoke : List Invoke
  pub history : List Id32
  pub data_values : Fields
  pub is_first_entry : Bool
  pub parent : Id32
  pub donedata : Option DoneData

pub record Transition : Type 0 where
  pub id : Id32
  pub doc_id : Id32
  pub events : List Str
  pub wildcard : Bool
  pub cond : Data
  pub source : Id32
  pub target : List Id32
  pub transition_type : TransitionType
  pub content : Id32

pub record Fsm : Type 0 where
  pub datamodel : Str
  pub binding : BindingType
  pub executable_content : HashTable Id32 (List ExecutableContent)
  pub name : Str
  pub pseudo_root : Id32
  pub states : List State
  pub transitions : HashTable Id32 Transition
  pub script : Id32

-- `states.get((state_id - 1) as usize).unwrap()`: the id 0 panics too, since `0 - 1` overflows.
unfoldable pub get_state_by_id : Fsm → Id32 → Run State
get_state_by_id f zero = panic
get_state_by_id f (suc i) = unwrap (get_elem? f.states i)

unfoldable pub get_transition_by_id : Fsm → Id32 → Run Transition
unfolding get
get_transition_by_id f tid = get f.transitions tid
