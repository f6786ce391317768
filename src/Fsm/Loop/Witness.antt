-- ===== src/Fsm/Loop/Witness.antt =====
-- The theorems about the event loop on the small document.
use ru_fsm.Common.{ℕ, false, [], ◌∷◌, ok, nat_eq, ◌≡◌, ◌↔◌, refl, none}
use ru_fsm.Common.Str.{Str, len, starts_with, str_beq}
use ru_fsm.Fsm.Model.NameMatch.{any_match, name_match, descriptor_match}
use ru_fsm.Fsm.Collections.Queue
use ru_fsm.Datamodel.Data.{Data}
use ru_fsm.Fsm.Collections.Sorting.{insert_sorted, sort}
use ru_fsm.Fsm.Invoke.{
  insert_session, invoke, invoke_id_of, invoke_with, is_supported, name_values, start_session,
}
use ru_fsm.Fsm.Collections.HashTable.{get, has, lookup, put, put_all}
use ru_fsm.Fsm.Collections.Queue.{dequeue, enqueue}
use ru_fsm.Fsm.Conflict.{
  conflicts, delete_all, filter_loop, filter_step, remove_conflicting_transitions, scan_filtered,
}
use ru_fsm.Fsm.Domain.{
  compute_exit_set, effective_loop, exit_loop, exit_of, get_effective_target_states,
  get_transition_domain, stays_inside,
}
use ru_fsm.Fsm.Tree.{
  climb, collect, find_lcca, first_common, get_child_states, get_proper_ancestors, is_atomic_state,
  is_atomic_state_id, is_compound_state, is_compound_state_or_scxml_element, is_descendant,
  is_final_state, is_final_state_id, is_history_state, is_parallel_state, is_scxml_element,
  list_is_empty,
}
use ru_fsm.Fsm.Select.{
  candidates, condition_match, doc_id_of, eventless, first_match, no_events, select,
  select_eventless_transitions, select_loop, select_transitions, state_document_order,
  state_exit_order, to_transition_list, transition_document_order, triggered_by,
}
use ru_fsm.Fsm.Step.{
  cancel_each, cancel_invoke, cancel_sessions, clear_first_entry, clear_flag, delete_each,
  done_event, done_state, enter_begin, enter_each, enter_final, enter_last, enter_one, enter_states,
  enters_late, entry_contents, execute_content, execute_contents, execute_transition_content,
  exit_each, exit_state, exit_states, finish_parallel, has_finished, is_in_final_state, microstep,
  record_all, record_histories, recorded, sessions_of, set_to_state_list, state_list_to_id_set,
}
use ru_fsm.Fsm.Collections.Sequence.{
  append, contains, every, every_run, filter_by, filter_run, head, push, some_by, some_run, tail,
}
use ru_fsm.Fsm.Entry.{
  add_ancestor_states_to_enter, add_descendant_body, add_descendant_states_to_enter,
  compute_entry_set, enter, enter_ancestor, enter_default, enter_history, enter_initial,
  enter_state, enter_targets, enter_transition, fill_child, fill_children, for_each,
  nothing_to_enter, put_content,
}
use ru_fsm.Fsm.Collections.OrderedSet.{
  add, add_all, delete, has_intersection, is_empty, is_member, to_set, union,
}
use ru_fsm.Fsm.Model.{get_state_by_id, get_transition_by_id}
use ru_fsm.Fsm.Global.{
  Event, EventType, Global, Keeps-refl, enqueue_internal, error_execution, new_event,
}
use ru_fsm.Fsm.Environment.{Environment, IsQuietEnvironment}
use ru_fsm.Fsm.Example.{example_fsm, example_datamodel, example-IsQuiet, example_global}
use ru_fsm.Fsm.Finish.{
  cancel_all, done_invoke, exit_interpreter, keep_names, leave_each, leave_state, return_done_event,
}
use ru_fsm.Fsm.Finish.Empty.{exit_interpreter_empties}
use ru_fsm.Fsm.Loop.{
  accepts, after_round, between_macrosteps, concerned, concerned_by, finish_round, forget_session,
  forward_each, inner_body, inner_round, invoke_all, invoke_document_order, invoke_each,
  is_cancel_event, macrostep, main_event_loop, next_internal, outer_body, outer_round,
  process_external, receive, remove_session, session_of, stopped, take_enabled, take_eventless,
  take_internal, unless_done, unless_stopped,
}
use ru_fsm.Fsm.Loop.Macro.{Macrostep, macrostep_iff_Macrostep}
use ru_fsm.Fsm.Loop.Ends.{main_event_loop-IsOver}

-- Nothing can be called, and no session starts.
abbrev still_environment : Environment example_datamodel
still_environment = record {
  set_event = λ e g. g;
  send_to_session = λ id e g. g;
  send_to_child = λ s e g. g;
  to_string = λ v. [];
  expression_alternative_value = λ a b g. (none, g);
  get_by_location = λ l g. (none, g);
  set_location = λ l v g. g;
  generated_id = λ s g. (s, g);
  execute_with_data_from_xml = λ s vs id i g. (none, g);
  execute_with_data = λ s vs id i g. (none, g);
}

still-IsQuietEnvironment : IsQuietEnvironment still_environment
still-IsQuietEnvironment = record {
  event_Keeps = λ e g. Keeps-refl g;
  session_Keeps = λ id e g. Keeps-refl g;
  child_Keeps = λ s e g. Keeps-refl g;
  alternative_Keeps = λ a b g. Keeps-refl g;
  location_Keeps = λ l g. Keeps-refl g;
  set_Keeps = λ l v g. Keeps-refl g;
  generated_Keeps = λ s g. Keeps-refl g;
  xml_Keeps = λ s vs id i g. Keeps-refl g;
  data_Keeps = λ s vs id i g. Keeps-refl g;
}

abbrev named : Str → Event
named name = record {
  name = name;
  etype = EventType.external;
  sendid = none;
  origin = none;
  origin_type = none;
  invoke_id = none;
  param_values = none;
  content = none;
}

-- An event that triggers transition 1, and the one that ends the loop.
abbrev event_a : Event
event_a = named (b'a' ∷ [])

abbrev cancel : Event
cancel = named (
    b'e' ∷ b'r' ∷ b'r' ∷ b'o' ∷ b'r' ∷ b'.' ∷ b'p' ∷ b'l' ∷ b'a' ∷ b't' ∷ b'f' ∷ b'o' ∷ b'r' ∷ b'm'
    ∷ b'.' ∷ b'c' ∷ b'a' ∷ b'n' ∷ b'c' ∷ b'e' ∷ b'l' ∷ [])

abbrev start : Global Unit
start = record example_global { internal_queue = event_a ∷ [] }

-- Transition 1 is taken, and then transition 5, which has no event.
abbrev rest : Global Unit
rest = record example_global { states_to_invoke = 3 ∷ [] }

abbrev over : Global Unit
over = record example_global { configuration = []; running = false }

abbrev left : Global Unit
left = record example_global { configuration = [] }

runs :
    (macrostep example_datamodel still_environment 9 9 9 example_fsm start ≡ ok (example_fsm, rest))
    × (main_event_loop example_datamodel still_environment 9 9 9 9 [] example_fsm start
          (event_a ∷ cancel ∷ [])
        ≡ ok (stopped example_fsm over))
    × (exit_interpreter example_datamodel still_environment example_fsm example_global ≡ ok left)
unfolding accepts add add_all add_ancestor_states_to_enter add_descendant_body
    add_descendant_states_to_enter after_round append between_macrosteps cancel_all cancel_each
    cancel_invoke cancel_sessions candidates clear_first_entry clear_flag climb collect
    compute_entry_set compute_exit_set concerned concerned_by condition_match conflicts contains
    delete delete_all delete_each dequeue doc_id_of done_event done_invoke done_state effective_loop
    enqueue enqueue_internal enter enter_ancestor enter_begin enter_default enter_each enter_final
    enter_history enter_initial enter_last enter_one enter_state enter_states enter_targets
    enter_transition enters_late entry_contents error_execution eventless every every_run
    execute_content execute_contents execute_transition_content exit_each exit_interpreter exit_loop
    exit_of exit_state exit_states fill_child fill_children filter_by filter_loop filter_run
    filter_step find_lcca finish_parallel finish_round first_common first_match for_each
    forget_session forward_each get get_child_states get_effective_target_states
    get_proper_ancestors get_state_by_id get_transition_by_id get_transition_domain has has_finished
    has_intersection head inner_body inner_round insert_session insert_sorted invoke invoke_all
    invoke_document_order invoke_each invoke_id_of invoke_with is_atomic_state is_atomic_state_id
    is_cancel_event is_compound_state is_compound_state_or_scxml_element is_descendant is_empty
    is_final_state is_final_state_id is_history_state is_in_final_state is_member is_parallel_state
    is_scxml_element is_supported keep_names leave_each leave_state list_is_empty lookup macrostep
    main_event_loop microstep name_values new_event next_internal no_events nothing_to_enter
    outer_body outer_round process_external push put put_all put_content receive record_all
    record_histories recorded remove_conflicting_transitions remove_session return_done_event
    scan_filtered select select_eventless_transitions select_loop select_transitions session_of
    sessions_of set_to_state_list some_by some_run sort start_session state_document_order
    state_exit_order state_list_to_id_set stays_inside tail take_enabled take_eventless
    take_internal to_set to_transition_list transition_document_order triggered_by union unless_done
    unless_stopped any_match name_match descriptor_match starts_with len str_beq
    ru_fsm.Datamodel.Data.is_empty ru_fsm.Fsm.Collections.Queue.is_empty
runs = (refl, refl, refl)

macrostep_iff_Macrostep_example :
    ((k : ℕ) × (macrostep example_datamodel still_environment 9 9 k example_fsm start
        ≡ ok (example_fsm, rest)))
    ↔ Macrostep example_datamodel still_environment 9 9 example_fsm start example_fsm rest
macrostep_iff_Macrostep_example =
    macrostep_iff_Macrostep example_datamodel still_environment 9 9 example_fsm example_fsm start
      rest

-- It is one of the macrosteps.
taken : Macrostep example_datamodel still_environment 9 9 example_fsm start example_fsm rest
taken =
    (macrostep_iff_Macrostep example_datamodel still_environment 9 9 example_fsm example_fsm start
        rest).0
      (9, runs.0)

main_event_loop-IsOver_example : over.configuration ≡ []
main_event_loop-IsOver_example =
    main_event_loop-IsOver example_datamodel still_environment 9 9 example-IsQuiet
      still-IsQuietEnvironment 9 9 [] example_fsm start (event_a ∷ cancel ∷ [])
      (stopped example_fsm over) runs.1

exit_interpreter_empties_example : left.configuration ≡ []
exit_interpreter_empties_example =
    exit_interpreter_empties example_datamodel still_environment example-IsQuiet
      still-IsQuietEnvironment example_fsm example_global left runs.2
