-- ===== src/Fsm/Select.antt =====
-- `conditionMatch`, `selectEventlessTransitions` and `selectTransitions` of src/fsm.rs.
pub mod Trace
pub mod Holders
pub mod Chosen
pub mod Sound
use ru_fsm.Common.{
  ℕ, zero, suc, ◌+◌, ◌-◌, ◌<◌, ◌≤◌, Bool, true, false, not, ◌&&◌, ◌||◌, List, [], ◌∷◌, ◌++◌, Run,
  ok, panic, stuck, ◌>>=◌, if◌then◌else◌, PartialEq, nat_eq, ◌==◌, ◌≡◌, ◌≢◌, ◌⊎◌, ◌↔◌, inl, inr,
  refl, sym, ◌∙◌, ap, subst, arith, Bool-cases, >>=-eq-ok, nat_beq_iff, Option, none, some,
  Option-cases, length, get_elem?, All, append-nil, append_assoc, map, ltb, leb, unwrap, take, drop,
  length-append, ◌*◌, ◌/◌, ◌%◌, ◌^◌, min, ltb→lt, lt→ltb,
}
use ru_fsm.Common.Str.{Str}
use ru_fsm.Datamodel.Data
use ru_fsm.Fsm.Collections.Sequence.{filter_by, filter_run}
use ru_fsm.Fsm.Collections.Sorting.{sort}
use ru_fsm.Fsm.Collections.OrderedSet.{OrderedSet, add}
use ru_fsm.Fsm.Model.{Id32, State, Transition, Fsm, get_state_by_id, get_transition_by_id}
use ru_fsm.Fsm.Model.NameMatch.{name_match}
use ru_fsm.Fsm.Tree.{get_proper_ancestors, is_atomic_state_id}
use ru_fsm.Fsm.Conflict.{remove_conflicting_transitions}
use ru_fsm.Fsm.Global.{Global, Datamodel, Event, error_execution, enqueue_internal}
use Prim.Native.Nat.{compare, Ordering}

-- The number of a state in the document. The lists that are sorted by it hold ids that were looked up
-- before, so the 0 is never seen.
unfoldable pub doc_id_of : Fsm → Id32 → ℕ
doc_id_of f sid = elim (get_state_by_id f sid) [ ok s ↦ s.doc_id | panic ↦ 0 | stuck ↦ 0 ]

-- `state_document_order`, which is `state_entry_order` too.
unfoldable pub state_document_order : Fsm → Id32 → Id32 → Ordering
unfolding doc_id_of
state_document_order f s1 s2 = compare (doc_id_of f s1) (doc_id_of f s2)

unfoldable pub state_exit_order : Fsm → Id32 → Id32 → Ordering
unfolding state_document_order
state_exit_order f s1 s2 = state_document_order f s2 s1

unfoldable pub transition_document_order : Transition → Transition → Ordering
transition_document_order t1 t2 = compare t1.doc_id t2.doc_id

unfoldable pub to_transition_list : Fsm → List Id32 → Run (List Transition)
to_transition_list f [] = ok []
to_transition_list f (tid ∷ tids) = do
  t ← get_transition_by_id f tid
  ts ← to_transition_list f tids
  ok (t ∷ ts)

unfoldable pub no_events : Transition → Bool
no_events t = elim t.events [ [] ↦ true | _ ∷ _ ↦ false ]

-- The tests of the two functions: without an event, and with the name of one.
unfoldable pub eventless : Transition → Bool
unfolding no_events
eventless t = no_events t

unfoldable pub triggered_by : Str → Transition → Bool
unfolding no_events
triggered_by name t = not (no_events t) && name_match t name

-- `condT`: the transitions of the states that pass the test, in the order of the states, and by document
-- order within one.
unfoldable pub candidates : Fsm → (Transition → Bool) → List Id32 → Run (List Id32)
candidates f test [] = ok []
candidates f test (s ∷ states) = do
  state ← get_state_by_id f s
  ts ← to_transition_list f state.transitions
  rest ← candidates f test states
  ok (map (λ t. t.id) (filter_by test (sort transition_document_order ts)) ++ rest)

module _ (dm : Datamodel) (n : ℕ) (f : Fsm) where
  -- An error counts as false, and puts "error.execution" into the internal queue.
  unfoldable pub condition_match : Id32 → Global dm.Own → Run (Bool × Global dm.Own)
  condition_match tid g = do
    t ← get_transition_by_id f tid
    let (answer, g') = dm.execute_condition t.cond g
    ok (
        if Data.is_empty t.cond
        then (true, g)
        else elim answer [ some v ↦ (v, g') | none ↦ (false, enqueue_internal error_execution g') ])

  -- `for ct in condT { if conditionMatch(ct) { enabledTransitions.add(ct); break; } }`
  unfoldable pub first_match :
      List Id32 → OrderedSet Id32 → Global dm.Own → Run (OrderedSet Id32 × Global dm.Own)
  first_match [] enabled g = ok (enabled, g)
  first_match (ct ∷ cts) enabled g = condition_match ct g >>= λ (holds, g'). elim holds [
    | true ↦ ok (add enabled ct, g')
    | false ↦ first_match cts enabled g'
  ]

  unfoldable pub select_loop :
      (Transition → Bool)
      → List Id32
      → OrderedSet Id32
      → Global dm.Own
      → Run (OrderedSet Id32 × Global dm.Own)
  select_loop test [] enabled g = ok (enabled, g)
  select_loop test (sid ∷ sids) enabled g = do
    ancestors ← get_proper_ancestors n f sid 0
    cts ← candidates f test (sid ∷ ancestors)
    (enabled', g') ← first_match cts enabled g
    select_loop test sids enabled' g'

  unfoldable pub select :
      (Transition → Bool) → Global dm.Own → Run (OrderedSet Id32 × Global dm.Own)
  unfolding candidates condition_match first_match select_loop
  select test g = do
    atomic ← filter_run (is_atomic_state_id f) g.configuration
    (enabled, g') ← select_loop test (sort (state_document_order f) atomic) [] g
    filtered ← remove_conflicting_transitions n f g'.configuration g'.history_value enabled
    ok (filtered, g')

  unfoldable pub select_eventless_transitions :
      Global dm.Own → Run (OrderedSet Id32 × Global dm.Own)
  unfolding select
  select_eventless_transitions g = select eventless g

  unfoldable pub select_transitions : Event → Global dm.Own → Run (OrderedSet Id32 × Global dm.Own)
  unfolding select
  select_transitions event g = select (triggered_by event.name) g
