-- ===== src/Fsm/Global.antt =====
-- The global data of src/fsm.rs and the interface to the datamodel, which owns it.
use ru_fsm.Common.{
  ℕ, Bool, List, [], ◌∷◌, ◌++◌, nat_eq, ◌≡◌, refl, sym, ◌∙◌, ap, Option, none, append-nil,
  append_assoc,
}
use ru_fsm.Common.Str.{Str}
use ru_fsm.Datamodel.Data.{Data}
use ru_fsm.Fsm.Collections.OrderedSet.{OrderedSet}
use ru_fsm.Fsm.Collections.Queue.{enqueue}
use ru_fsm.Fsm.Model.{Id32, Fsm, Parameter, CommonContent}
use ru_fsm.Fsm.Domain.{HistoryTable}

pub data EventType : Type 0 where
  platform internal external : EventType

pub record Event : Type 0 where
  pub name : Str
  pub etype : EventType
  pub sendid : Option Str
  pub origin : Option Str
  pub origin_type : Option Str
  pub invoke_id : Option Str
  pub param_values : Option (List (Str × Data))
  pub content : Option Data

-- `Event::new`: the prefix and the name make the event's name.
unfoldable pub new_event : Str → Str → Option (List (Str × Data)) → Option Data → EventType → Event
new_event prefix name params content etype = record {
  name = prefix ++ name;
  etype = etype;
  sendid = none;
  origin = none;
  origin_type = none;
  invoke_id = none;
  param_values = params;
  content = content;
}

-- "error.execution"
abbrev error_execution_name : Str
error_execution_name =
    101 ∷ 114 ∷ 114 ∷ 111 ∷ 114 ∷ 46 ∷ 101 ∷ 120 ∷ 101 ∷ 99 ∷ 117 ∷ 116 ∷ 105 ∷ 111 ∷ 110 ∷ []

-- `Event::error_execution(&None, &None)`
unfoldable pub error_execution : Event
unfolding new_event
error_execution = new_event [] error_execution_name none none EventType.platform

-- `ScxmlSession`: the started session, and the `invoke` that started it.
pub record Session : Type 0 where
  pub session_id : ℕ
  pub invoke_doc_id : Id32
  pub state_id : Option Id32

-- `GlobalData`, with the fields that the algorithm of this model reads or writes; `own` stands for the
-- others and for the datamodel's own variables.
pub record Global (Own : Type 0) : Type 0 where
  pub configuration : OrderedSet Id32
  pub states_to_invoke : OrderedSet Id32
  pub history_value : HistoryTable
  pub running : Bool
  pub internal_queue : List Event
  pub child_sessions : List (Str × Session)
  pub caller_invoke_id : Option Str
  pub parent_session_id : Option ℕ
  pub session_id : ℕ
  pub final_configuration : Option (List Str)
  pub own : Own

-- Executable content and expressions may put events into the internal queue, and change what is `own`;
-- the rest of the global data is written by src/fsm.rs alone.
pub record Keeps {Own : Type 0} (g g' : Global Own) : Type 0 where
  pub same_configuration : g'.configuration ≡ g.configuration
  pub same_states_to_invoke : g'.states_to_invoke ≡ g.states_to_invoke
  pub same_history_value : g'.history_value ≡ g.history_value
  pub same_running : g'.running ≡ g.running
  pub queue_grows : (more : List Event) × (g'.internal_queue ≡ g.internal_queue ++ more)

-- The methods of the trait `Datamodel` that the algorithm calls, as functions on the global data.
-- `execute_condition` returns `none` for an error. `send_cancel` is the `send` of the cancel event to the
-- session of the given id.
pub record Datamodel : Type 1 where
  pub Own : Type 0
  pub execute_condition : Data → Global Own → Option Bool × Global Own
  pub execute_content : Fsm → Id32 → Global Own → Global Own
  pub initialize_data_model : Fsm → Id32 → Bool → Global Own → Global Own
  pub evaluate_params : Option (List Parameter) → Global Own → List (Str × Data) × Global Own
  pub evaluate_content : Option CommonContent → Global Own → Option Data × Global Own
  pub send_cancel : ℕ → Global Own → Global Own

-- What the algorithm relies on.
pub record IsQuiet (dm : Datamodel) : Type 0 where
  pub condition_Keeps : (c : Data) (g : Global dm.Own) → Keeps g (dm.execute_condition c g).1
  pub content_Keeps :
      (f : Fsm) (id : Id32) (g : Global dm.Own) → Keeps g (dm.execute_content f id g)
  pub initialize_Keeps :
      (f : Fsm) (id : Id32) (b : Bool) (g : Global dm.Own)
      → Keeps g (dm.initialize_data_model f id b g)
  pub params_Keeps :
      (p : Option (List Parameter)) (g : Global dm.Own) → Keeps g (dm.evaluate_params p g).1
  pub done_content_Keeps :
      (c : Option CommonContent) (g : Global dm.Own) → Keeps g (dm.evaluate_content c g).1
  pub cancel_Keeps : (id : ℕ) (g : Global dm.Own) → Keeps g (dm.send_cancel id g)

pub Keeps-refl : {Own : Type 0} (g : Global Own) → Keeps g g
Keeps-refl g = record {
  same_configuration = refl;
  same_states_to_invoke = refl;
  same_history_value = refl;
  same_running = refl;
  queue_grows = ([], sym (append-nil _));
}

pub Keeps-trans : {Own : Type 0} {g h k : Global Own} → Keeps g h → Keeps h k → Keeps g k
Keeps-trans {g = g} p q = record {
  same_configuration = q.same_configuration ∙ p.same_configuration;
  same_states_to_invoke = q.same_states_to_invoke ∙ p.same_states_to_invoke;
  same_history_value = q.same_history_value ∙ p.same_history_value;
  same_running = q.same_running ∙ p.same_running;
  queue_grows =
      let (a, x) = p.queue_grows in
      let (b, y) = q.queue_grows in
      (a ++ b, y ∙ ap (λ (l : List Event). l ++ b) x ∙ append_assoc g.internal_queue a b);
}

-- `enqueue_internal`
unfoldable pub enqueue_internal : {Own : Type 0} → Event → Global Own → Global Own
unfolding enqueue
enqueue_internal e g = record g { internal_queue = enqueue g.internal_queue e }

pub enqueue_internal-Keeps :
    {Own : Type 0} (e : Event) (g : Global Own) → Keeps g (enqueue_internal e g)
unfolding enqueue_internal
enqueue_internal-Keeps e g = record {
  same_configuration = refl;
  same_states_to_invoke = refl;
  same_history_value = refl;
  same_running = refl;
  queue_grows = (e ∷ [], refl);
}
