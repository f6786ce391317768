-- ===== src/Fsm/Environment.antt =====
-- What the event loop of src/fsm.rs calls beside the methods in `Datamodel`: the other methods of the datamodel, the
-- executor that starts sessions (src/fsm_executor.rs), and the counter for generated ids.
use ru_fsm.Common.{ℕ, List, Option}
use ru_fsm.Common.Str.{Str}
use ru_fsm.Datamodel.Data.{Data}
use ru_fsm.Fsm.Global.{Global, Session, Datamodel, Event, Keeps}

-- `none` stands for an error. `send_to_session` is the `send` of an event to the session of the id by the SCXML
-- processor, `send_to_child` the call of the session's channel; `to_string` the text of a value, and
-- `generated_id` the text of a name and the next number of the counter. The two functions `execute_…` start a
-- session with the given values, for the parent session and the invoke id.
pub record Environment (dm : Datamodel) : Type 0 where
  pub set_event : Event → Global dm.Own → Global dm.Own
  pub send_to_session : ℕ → Event → Global dm.Own → Global dm.Own
  pub send_to_child : Session → Event → Global dm.Own → Global dm.Own
  pub to_string : Data → Str
  pub expression_alternative_value : Data → Data → Global dm.Own → Option Data × Global dm.Own
  pub get_by_location : Str → Global dm.Own → Option Data × Global dm.Own
  pub set_location : Str → Data → Global dm.Own → Global dm.Own
  pub generated_id : Str → Global dm.Own → Str × Global dm.Own
  pub execute_with_data_from_xml :
      Str → List (Str × Data) → ℕ → Str → Global dm.Own → Option Session × Global dm.Own
  pub execute_with_data :
      Str → List (Str × Data) → ℕ → Str → Global dm.Own → Option Session × Global dm.Own

-- What the algorithm relies on: these calls, too, leave the configuration to src/fsm.rs.
pub record IsQuietEnvironment {dm : Datamodel} (env : Environment dm) : Type 0 where
  pub event_Keeps : (e : Event) (g : Global dm.Own) → Keeps g (env.set_event e g)
  pub session_Keeps :
      (id : ℕ) (e : Event) (g : Global dm.Own) → Keeps g (env.send_to_session id e g)
  pub child_Keeps :
      (s : Session) (e : Event) (g : Global dm.Own) → Keeps g (env.send_to_child s e g)
  pub alternative_Keeps :
      (a b : Data) (g : Global dm.Own) → Keeps g (env.expression_alternative_value a b g).1
  pub location_Keeps : (l : Str) (g : Global dm.Own) → Keeps g (env.get_by_location l g).1
  pub set_Keeps : (l : Str) (v : Data) (g : Global dm.Own) → Keeps g (env.set_location l v g)
  pub generated_Keeps : (s : Str) (g : Global dm.Own) → Keeps g (env.generated_id s g).1
  pub xml_Keeps :
      (s : Str) (vs : List (Str × Data)) (id : ℕ) (i : Str) (g : Global dm.Own)
      → Keeps g (env.execute_with_data_from_xml s vs id i g).1
  pub data_Keeps :
      (s : Str) (vs : List (Str × Data)) (id : ℕ) (i : Str) (g : Global dm.Own)
      → Keeps g (env.execute_with_data s vs id i g).1
