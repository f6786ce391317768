-- ===== src/Fsm/Finish.antt =====
-- `exitInterpreter` and `returnDoneEvent` of src/fsm.rs.
pub mod Empty
use ru_fsm.Common.{
  ℕ, zero, suc, ◌+◌, ◌-◌, ◌<◌, ◌≤◌, Bool, true, false, not, ◌&&◌, ◌||◌, List, [], ◌∷◌, ◌++◌, Run,
  ok, panic, stuck, ◌>>=◌, if◌then◌else◌, PartialEq, nat_eq, ◌==◌, ◌≡◌, ◌≢◌, ◌⊎◌, ◌↔◌, inl, inr,
  refl, sym, ◌∙◌, ap, subst, arith, Bool-cases, >>=-eq-ok, nat_beq_iff, Option, none, some,
  Option-cases, length, get_elem?, All, append-nil, append_assoc, map, ltb, leb, unwrap, take, drop,
  length-append, ◌*◌, ◌/◌, ◌%◌, ◌^◌, min, ltb→lt, lt→ltb,
}
use ru_fsm.Common.Str.{Str}
use ru_fsm.Fsm.Collections.Sorting.{sort}
use ru_fsm.Fsm.Collections.OrderedSet.{OrderedSet, delete}
use ru_fsm.Fsm.Model.{Id32, State, Fsm, get_state_by_id}
use ru_fsm.Fsm.Tree.{is_scxml_element, is_final_state}
use ru_fsm.Fsm.Global.{Global, Session, Datamodel, Event, EventType, new_event}
use ru_fsm.Fsm.Environment.{Environment}
use ru_fsm.Fsm.Select.{state_exit_order}
use ru_fsm.Fsm.Step.{execute_contents, set_to_state_list}

-- EVENT_DONE_INVOKE_PREFIX
abbrev pub done_invoke_prefix : Str
done_invoke_prefix =
    b'd' ∷ b'o' ∷ b'n' ∷ b'e' ∷ b'.' ∷ b'i' ∷ b'n' ∷ b'v' ∷ b'o' ∷ b'k' ∷ b'e' ∷ b'.' ∷ []

unfoldable pub done_invoke : Str → Event
unfolding new_event
done_invoke invoke_id =
    record (new_event done_invoke_prefix invoke_id none none EventType.external) {
      invoke_id = some invoke_id;
    }

module _ (dm : Datamodel) (env : Environment dm) where
  unfoldable pub return_done_event : Global dm.Own → Run (Global dm.Own)
  unfolding done_invoke
  return_done_event g = elim g.parent_session_id [
    | none ↦ ok g
    | some session_id ↦ elim g.caller_invoke_id [
      | none ↦ panic
      | some invoke_id ↦ ok (env.send_to_session session_id (done_invoke invoke_id) g)
    ]
  ]

  -- `send` of the cancel event to the sessions.
  unfoldable pub cancel_all : List (Str × Session) → Global dm.Own → Global dm.Own
  cancel_all [] g = g
  cancel_all ((k, session) ∷ l) g = cancel_all l (dm.send_cancel session.session_id g)

  unfoldable pub leave_state : Fsm → Id32 → Global dm.Own → Run (Global dm.Own)
  unfolding return_done_event execute_contents
  leave_state f sid g = get_state_by_id f sid >>= λ s.
      let g1 = execute_contents dm f s.onexit g in
      let g2 = record g1 { configuration = delete g1.configuration sid } in
      let done = return_done_event g2 in
      if is_final_state s && is_scxml_element f s.parent then done else ok g2

  unfoldable pub leave_each : Fsm → List Id32 → Global dm.Own → Run (Global dm.Own)
  unfolding leave_state
  leave_each f [] g = ok g
  leave_each f (sid ∷ sids) g = leave_state f sid g >>= λ g1. leave_each f sids g1

  -- The names of the active states, where the field was set before.
  unfoldable pub keep_names : Fsm → Global dm.Own → Run (Global dm.Own)
  unfolding set_to_state_list
  keep_names f g = elim g.final_configuration [
    | some _ ↦ set_to_state_list f g.configuration >>= λ states.
        ok (record g { final_configuration = some (map (λ (s : State). s.name) states) })
    | none ↦ ok g
  ]

  unfoldable pub exit_interpreter : Fsm → Global dm.Own → Run (Global dm.Own)
  unfolding keep_names leave_each cancel_all
  exit_interpreter f g = keep_names f g >>= λ g1.
      leave_each f (sort (state_exit_order f) g1.configuration) (cancel_all g1.child_sessions g1)
