-- ===== src/Fsm/Witness.antt =====
-- The theorems about src/fsm.rs at the small document.
use ru_fsm.Common.{
  true, false, not, ◌&&◌, ◌||◌, List, [], ◌∷◌, ok, nat_eq, ◌==◌, ◌≡◌, ◌≢◌, ◌⊎◌, ◌↔◌, inl, inr, refl,
  subst, arith, Bool-cases, nat_beq_iff, none,
}
use ru_fsm.Common.Str.{len, starts_with}
use ru_fsm.Fsm.Collections.Sorting.{insert_sorted, sort}
use ru_fsm.Fsm.Collections.HashTable.{get, has, lookup, put, put_all}
use ru_fsm.Fsm.Select.{
  candidates, condition_match, doc_id_of, eventless, first_match, no_events, select,
  select_eventless_transitions, select_loop, select_transitions, state_document_order,
  state_exit_order, to_transition_list, transition_document_order, triggered_by,
}
use ru_fsm.Fsm.Collections.Queue.{dequeue, enqueue}
use ru_fsm.Fsm.Collections.Sequence.{
  append, contains, every, every_run, filter_by, filter_run, head, push, some_by, some_run, tail,
}
use ru_fsm.Fsm.Collections.OrderedSet.{
  OrderedSet, add, add_all, delete, has_intersection, is_empty, is_member, to_set, union,
}
use ru_fsm.Fsm.Collections.OrderedSet.Laws.{Unique}
use ru_fsm.Fsm.Model.{Fsm, Id32, get_state_by_id, get_transition_by_id}
use ru_fsm.Fsm.Model.NameMatch.{
  name_match, any_match, descriptor_match, TokenPrefix, Any, name_match-TokenPrefix,
  descriptor_match_misses,
}
use ru_fsm.Fsm.Tree.{
  climb, collect, find_lcca, first_common, get_child_states, get_proper_ancestors, is_atomic_state,
  is_atomic_state_id, is_compound_state, is_compound_state_or_scxml_element, is_descendant,
  is_final_state, is_final_state_id, is_history_state, is_parallel_state, is_scxml_element,
  list_is_empty,
}
use ru_fsm.Fsm.Tree.Ancestry.{Ancestor, Exists, is_descendant_correct}
use ru_fsm.Fsm.Tree.ProperAncestors.{Proper, get_proper_ancestors-Proper}
use ru_fsm.Fsm.Tree.Lcca.{CommonAncestor, find_lcca_returns, find_lcca_least}
use ru_fsm.Fsm.Domain.{
  compute_exit_set, effective_loop, exit_loop, exit_of, get_effective_target_states,
  get_transition_domain, stays_inside,
}
use ru_fsm.Fsm.Domain.ExitSet.{Exits, compute_exit_set_members}
use ru_fsm.Fsm.Domain.Covers.{get_transition_domain_covers}
use ru_fsm.Fsm.Conflict.{
  conflicts, delete_all, filter_loop, filter_step, remove_conflicting_transitions, scan_filtered,
}
use ru_fsm.Fsm.Conflict.Free.{remove_conflicting_transitions_free}
use ru_fsm.Fsm.Conflict.Preempted.{
  remove_conflicting_transitions_drops, remove_conflicting_transitions_leaves,
}
use ru_fsm.Fsm.Global.{Global, enqueue_internal, error_execution, new_event}
use ru_fsm.Fsm.Entry.{
  Entry, add_ancestor_states_to_enter, add_descendant_body, add_descendant_states_to_enter,
  compute_entry_set, enter, enter_ancestor, enter_default, enter_history, enter_initial,
  enter_state, enter_targets, enter_transition, fill_child, fill_children, for_each,
  nothing_to_enter, put_content,
}
use ru_fsm.Fsm.Entry.Contents.{compute_entry_set_default, compute_entry_set_targets}
use ru_fsm.Fsm.Step.{
  cancel_each, cancel_invoke, cancel_sessions, clear_first_entry, clear_flag, delete_each,
  done_event, done_state, enter_begin, enter_each, enter_final, enter_last, enter_one, enter_states,
  enters_late, entry_contents, execute_content, execute_contents, execute_transition_content,
  exit_each, exit_state, exit_states, finish_parallel, has_finished, is_in_final_state, microstep,
  record_all, record_histories, recorded, sessions_of, set_to_state_list, state_list_to_id_set,
}
use ru_fsm.Fsm.Step.Exit.{exit_states_removes}
use ru_fsm.Fsm.Step.Enter.{enter_states_adds}
use ru_fsm.Fsm.Step.Micro.{microstep_configuration, microstep-Unique}
use ru_fsm.Fsm.Global.{Event, EventType, new_event}
use ru_fsm.Fsm.Select.Chosen.{Chosen}
use ru_fsm.Fsm.Select.Sound.{select_transitions-Chosen, select_eventless_transitions-Chosen}
use ru_fsm.Fsm.Select.{triggered_by, eventless, select_transitions, select_eventless_transitions}
use ru_fsm.Fsm.Tree.{is_atomic_state_id}
use ru_fsm.Fsm.Example.{
  arrow, node, example_fsm, example-IsTree, Exists-1, Exists-2, Exists-3, Exists-4, root_above_3,
  root_above_4, example_datamodel, example-IsQuiet, example_global,
}

-- The global data once the states 2 and 3 are exited, and after transition 2, which leads to state 5.
abbrev exited : Global Unit
exited = record example_global { configuration = 1 ∷ [] }

abbrev after : Global Unit
after = record example_global { configuration = 1 ∷ 5 ∷ []; states_to_invoke = 5 ∷ [] }

abbrev into_2 : Entry
into_2 = record { to_enter = 2 ∷ []; default_entry = 2 ∷ []; history_content = [] }

-- What the functions compute on the document.
runs :
    (microstep example_datamodel 5 5 example_fsm (2 ∷ []) example_global ≡ ok (example_fsm, after))
    × (exit_states example_datamodel 5 example_fsm (2 ∷ []) example_global ≡ ok exited)
    × (enter_states example_datamodel 5 5 example_fsm (2 ∷ []) exited ≡ ok (example_fsm, after))
    × (compute_exit_set 5 example_fsm (1 ∷ 2 ∷ 3 ∷ []) [] (2 ∷ []) ≡ ok (2 ∷ 3 ∷ []))
    × (remove_conflicting_transitions 5 example_fsm (1 ∷ 2 ∷ 3 ∷ []) [] (1 ∷ 2 ∷ 3 ∷ [])
        ≡ ok (1 ∷ 3 ∷ []))
    × (compute_entry_set 5 5 example_fsm [] (4 ∷ []) ≡ ok into_2)
    × (get_transition_domain 5 example_fsm [] (arrow 1 3 (4 ∷ [])) ≡ ok 2)
    × (get_effective_target_states 5 example_fsm [] (arrow 1 3 (4 ∷ [])) ≡ ok (4 ∷ []))
    × (find_lcca 5 example_fsm (3 ∷ 4 ∷ []) ≡ ok 2)
unfolding add add_all add_ancestor_states_to_enter add_descendant_body
    add_descendant_states_to_enter append cancel_each cancel_invoke cancel_sessions
    clear_first_entry clear_flag climb collect compute_entry_set compute_exit_set conflicts contains
    delete delete_all delete_each dequeue doc_id_of done_event done_state effective_loop enqueue
    enqueue_internal enter enter_ancestor enter_begin enter_default enter_each enter_final
    enter_history enter_initial enter_last enter_one enter_state enter_states enter_targets
    enter_transition enters_late entry_contents error_execution eventless every every_run
    execute_content execute_contents execute_transition_content exit_each exit_loop exit_of
    exit_state exit_states fill_child fill_children filter_by filter_loop filter_run filter_step
    find_lcca finish_parallel first_common for_each get get_child_states get_effective_target_states
    get_proper_ancestors get_state_by_id get_transition_by_id get_transition_domain has has_finished
    has_intersection head insert_sorted is_atomic_state is_atomic_state_id is_compound_state
    is_compound_state_or_scxml_element is_descendant is_empty is_final_state is_final_state_id
    is_history_state is_in_final_state is_member is_parallel_state is_scxml_element list_is_empty
    lookup microstep new_event nothing_to_enter push put put_all put_content record_all
    record_histories recorded remove_conflicting_transitions scan_filtered
    select_eventless_transitions select_transitions sessions_of set_to_state_list some_by some_run
    sort state_document_order state_exit_order state_list_to_id_set stays_inside tail to_set
    to_transition_list transition_document_order triggered_by union
runs = (refl, refl, refl, refl, refl, refl, refl, refl, refl)

abbrev F : Fsm
F = example_fsm

abbrev active : OrderedSet Id32
active = 1 ∷ 2 ∷ 3 ∷ []

active-Exists : (a : Id32) → contains active a ≡ true → Exists F a
unfolding contains
active-Exists a h = elim (Bool-cases (1 == a)) [
  | inl x ↦ subst (Exists F) ((nat_beq_iff 1 a).0 x) Exists-1
  | inr x ↦ elim (Bool-cases (2 == a)) [
    | inl y ↦ subst (Exists F) ((nat_beq_iff 2 a).0 y) Exists-2
    | inr y ↦ subst (Exists F) ((nat_beq_iff 3 a).0 (ground arith)) Exists-3
  ]
]

-- Enabled transitions, and those that are left.
abbrev enabled : OrderedSet Id32
enabled = 1 ∷ 2 ∷ 3 ∷ []

abbrev left : OrderedSet Id32
left = 1 ∷ 3 ∷ []

abbrev exits : OrderedSet Id32
exits = 2 ∷ 3 ∷ []

abbrev only_2 : OrderedSet Id32
only_2 = 2 ∷ []

abbrev state_2 : Id32
state_2 = 2

-- The event "a", and the global data with state 4 active in place of state 3.
abbrev event_a : Event
event_a = record {
  name = b'a' ∷ [];
  etype = EventType.external;
  sendid = none;
  origin = none;
  origin_type = none;
  invoke_id = none;
  param_values = none;
  content = none;
}

abbrev in_4 : Global Unit
in_4 = record example_global { configuration = 1 ∷ 2 ∷ 4 ∷ [] }

selected :
    (select_transitions example_datamodel 5 F event_a example_global ≡ ok (1 ∷ [], example_global))
    × (select_eventless_transitions example_datamodel 5 F in_4 ≡ ok (5 ∷ [], in_4))
unfolding add add_all add_ancestor_states_to_enter add_descendant_body
    add_descendant_states_to_enter append cancel_each cancel_invoke cancel_sessions candidates
    clear_first_entry clear_flag climb collect compute_entry_set compute_exit_set condition_match
    conflicts contains delete delete_all delete_each dequeue doc_id_of done_event done_state
    effective_loop enqueue enqueue_internal enter enter_ancestor enter_begin enter_default
    enter_each enter_final enter_history enter_initial enter_last enter_one enter_state enter_states
    enter_targets enter_transition enters_late entry_contents error_execution eventless every
    every_run execute_content execute_contents execute_transition_content exit_each exit_loop
    exit_of exit_state exit_states fill_child fill_children filter_by filter_loop filter_run
    filter_step find_lcca finish_parallel first_common first_match for_each get get_child_states
    get_effective_target_states get_proper_ancestors get_state_by_id get_transition_by_id
    get_transition_domain has has_finished has_intersection head insert_sorted is_atomic_state
    is_atomic_state_id is_compound_state is_compound_state_or_scxml_element is_descendant is_empty
    is_final_state is_final_state_id is_history_state is_in_final_state is_member is_parallel_state
    is_scxml_element list_is_empty lookup microstep new_event no_events nothing_to_enter push put
    put_all put_content record_all record_histories recorded remove_conflicting_transitions
    scan_filtered select select_eventless_transitions select_loop select_transitions sessions_of
    set_to_state_list some_by some_run sort state_document_order state_exit_order
    state_list_to_id_set stays_inside tail to_set to_transition_list transition_document_order
    triggered_by union descriptor_match any_match name_match len starts_with
    ru_fsm.Datamodel.Data.is_empty
selected = (refl, refl)

select_transitions-Chosen_example :
    (s : Id32) × (contains active s ≡ true)
    × (is_atomic_state_id F s ≡ ok true)
    × Chosen example_datamodel F
        (λ t. (t.events ≢ []) × (name_match t event_a.name ≡ true))
        example_global
        example_global
        s
        1
select_transitions-Chosen_example =
    select_transitions-Chosen example_datamodel 5 F event_a (1 ∷ []) example_global example_global 1
      selected.0 (unfold contains in refl)

select_eventless_transitions-Chosen_example :
    (s : Id32) × (contains in_4.configuration s ≡ true)
    × (is_atomic_state_id F s ≡ ok true)
    × Chosen example_datamodel F (λ t. t.events ≡ []) in_4 in_4 s 5
select_eventless_transitions-Chosen_example =
    select_eventless_transitions-Chosen example_datamodel 5 F (5 ∷ []) in_4 in_4 5 selected.1
      (unfold contains in refl)

microstep_configuration_example :
    (l : OrderedSet Id32) × (e : Entry) × (compute_exit_set 5 F active [] only_2 ≡ ok l)
    × (compute_entry_set 5 5 F [] (2 ∷ []) ≡ ok e)
    × ((s : Id32)
        → contains after.configuration s
          ≡ (contains active s && not (contains l s) || contains e.to_enter s))
    × ((s : Id32)
        → contains after.states_to_invoke s
          ≡ (contains [] s && not (contains l s) || contains e.to_enter s))
microstep_configuration_example =
    microstep_configuration example_datamodel example-IsQuiet 5 5 F F (2 ∷ []) example_global after
      runs.0

microstep-Unique_example : Unique after.configuration
microstep-Unique_example =
    microstep-Unique example_datamodel example-IsQuiet 5 5 F F (2 ∷ []) example_global after runs.0
      (unfold contains in (refl, (refl, (refl, tt))))

exit_states_removes_example :
    (l : OrderedSet Id32) × (compute_exit_set 5 F active [] only_2 ≡ ok l)
    × ((s : Id32) → contains exited.configuration s ≡ (contains active s && not (contains l s)))
    × ((s : Id32) → contains exited.states_to_invoke s ≡ (contains [] s && not (contains l s)))
    × (exited.running ≡ example_global.running)
exit_states_removes_example =
    exit_states_removes example_datamodel example-IsQuiet 5 F (2 ∷ []) example_global exited runs.1

enter_states_adds_example :
    (e : Entry) × (compute_entry_set 5 5 F [] (2 ∷ []) ≡ ok e)
    × ((s : Id32)
        → contains after.configuration s
          ≡ (contains exited.configuration s || contains e.to_enter s))
    × ((s : Id32) → contains after.states_to_invoke s ≡ (contains [] s || contains e.to_enter s))
    × (after.history_value ≡ exited.history_value)
enter_states_adds_example =
    enter_states_adds example_datamodel example-IsQuiet 5 5 F F (2 ∷ []) exited after runs.2

compute_exit_set_members_example :
    (contains exits 3 ≡ true)
    ↔ ((tid : Id32) × (contains only_2 tid ≡ true) × Exits 5 F active [] tid 3)
compute_exit_set_members_example =
    compute_exit_set_members 5 F active [] (2 ∷ []) (2 ∷ 3 ∷ []) 3 example-IsTree active-Exists
      runs.3

remove_conflicting_transitions_free_example : conflicts 5 F active [] 1 3 ≡ ok false
remove_conflicting_transitions_free_example =
    remove_conflicting_transitions_free 5 F active [] enabled left 1 3 runs.4
      (unfold contains in refl) (unfold contains in refl) (λ h. cc)

remove_conflicting_transitions_drops_example :
    (u : Id32) × (contains enabled u ≡ true) × (u ≢ 2) × (conflicts 5 F active [] 2 u ≡ ok true)
remove_conflicting_transitions_drops_example =
    remove_conflicting_transitions_drops 5 F active [] enabled left 2
      (unfold contains in (refl, (refl, (refl, tt)))) runs.4 (unfold contains in refl)
      (unfold contains in refl)

remove_conflicting_transitions_leaves_example : (b : Id32) × (contains left b ≡ true)
remove_conflicting_transitions_leaves_example =
    remove_conflicting_transitions_leaves 5 F active [] enabled left 2
      (unfold contains in (refl, (refl, (refl, tt)))) runs.4 (unfold contains in refl)

is_descendant_correct_example : (is_descendant 5 F 3 1 ≡ ok true) ↔ Ancestor F 1 3
is_descendant_correct_example = is_descendant_correct 5 F 3 1 example-IsTree Exists-3

get_proper_ancestors-Proper_example :
    (l : List Id32) × (get_proper_ancestors 5 F 3 1 ≡ ok l) × Proper F 3 1 (node 3 2 [] (1 ∷ [])) l
get_proper_ancestors-Proper_example =
    get_proper_ancestors-Proper 5 F 3 1 (node 3 2 [] (1 ∷ [])) example-IsTree
      (unfold get_state_by_id in refl) (inr Exists-1)

find_lcca_returns_example :
    (r : Id32) × (find_lcca 5 F (3 ∷ 4 ∷ []) ≡ ok r)
    × (is_compound_state_or_scxml_element F r ≡ ok true)
    × CommonAncestor F r (3 ∷ 4 ∷ [])
find_lcca_returns_example =
    find_lcca_returns 5 F 3 (4 ∷ []) example-IsTree (Exists-3, (Exists-4, tt))
      (root_above_3, (root_above_4, tt))

find_lcca_least_example : (1 ≡ state_2) ⊎ Ancestor F 1 2
find_lcca_least_example =
    find_lcca_least 5 F 3 (4 ∷ []) 2 1 example-IsTree (Exists-3, (Exists-4, tt))
      (root_above_3, (root_above_4, tt)) runs.8 (unfold is_compound_state_or_scxml_element in refl)
      (root_above_3, (root_above_4, tt))

get_transition_domain_covers_example :
    (is_compound_state_or_scxml_element F 2 ≡ ok true)
    × CommonAncestor F 2 (4 ∷ [])
    × ((3 ≡ state_2) ⊎ Ancestor F 2 3)
get_transition_domain_covers_example =
    get_transition_domain_covers 5 F [] (arrow 1 3 (4 ∷ [])) (4 ∷ []) 2 example-IsTree runs.7
      (unfold is_empty in refl) (Exists-3, (Exists-4, tt)) (root_above_3, (root_above_4, tt)) runs.6

compute_entry_set_default_example :
    (contains into_2.to_enter 2 ≡ true) × (is_compound_state F 2 ≡ ok true)
compute_entry_set_default_example =
    compute_entry_set_default 5 F [] 5 (4 ∷ []) into_2 2 runs.5 (unfold contains in refl)

compute_entry_set_targets_example : contains into_2.to_enter 2 ≡ true
compute_entry_set_targets_example =
    compute_entry_set_targets 5 F [] 5 (4 ∷ []) 4 (arrow 4 5 (2 ∷ [])) 2 into_2 runs.5
      (unfold contains in refl) (unfold get_transition_by_id get lookup in refl)
      (unfold contains in refl) (unfold is_history_state get_state_by_id in refl)

-- "a" and "a.b"
name_match-TokenPrefix_example : (name_match (arrow 1 3 []) (b'a' ∷ b'.' ∷ b'b' ∷ []) ≡ true) ↔ (
    ((arrow 1 3 []).wildcard ≡ true)
    ⊎ Any (λ e. TokenPrefix e (b'a' ∷ b'.' ∷ b'b' ∷ [])) (arrow 1 3 []).events)
name_match-TokenPrefix_example =
    name_match-TokenPrefix (arrow 1 3 []) (b'a' ∷ b'.' ∷ b'b' ∷ []) ((omega arith, tt), tt)

-- A descriptor of two letters, of two bytes each, and the name with ".a" behind it.
descriptor_match_misses_example :
    TokenPrefix (0xe4 ∷ 0xf6 ∷ []) (0xe4 ∷ 0xf6 ∷ b'.' ∷ b'a' ∷ [])
    × (descriptor_match (0xe4 ∷ 0xf6 ∷ b'.' ∷ b'a' ∷ []) (0xe4 ∷ 0xf6 ∷ []) ≡ false)
descriptor_match_misses_example =
    descriptor_match_misses (0xe4 ∷ 0xf6 ∷ []) (b'a' ∷ []) (unfold len in omega arith)
