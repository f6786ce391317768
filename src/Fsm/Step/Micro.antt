-- ===== src/Fsm/Step/Micro.antt =====
-- `microstep` of src/fsm.rs as a whole.
use ru_fsm.Common.{ℕ, not, ◌&&◌, ◌||◌, List, ok, nat_eq, ◌≡◌, sym, ◌∙◌, ap, subst, >>=-eq-ok}
use ru_fsm.Fsm.Collections.Sequence.{contains}
use ru_fsm.Fsm.Collections.OrderedSet.{OrderedSet}
use ru_fsm.Fsm.Collections.OrderedSet.Laws.{Unique}
use ru_fsm.Fsm.Model.{Id32, Fsm}
use ru_fsm.Fsm.Domain.{compute_exit_set}
use ru_fsm.Fsm.Global.{Global, Datamodel, IsQuiet}
use ru_fsm.Fsm.Entry.{Entry, compute_entry_set}
use ru_fsm.Fsm.Step.{exit_states, execute_transition_content, microstep}
use ru_fsm.Fsm.Step.Quiet.{execute_transition_content-Keeps}
use ru_fsm.Fsm.Step.Exit.{exit_states_removes, exit_states-Unique}
use ru_fsm.Fsm.Step.Enter.{enter_states_adds, enter_states-Unique}

module _ (dm : Datamodel) (quiet : IsQuiet dm) where
  -- Where the datamodel keeps to its part of the global data and `microstep` returns: the configuration
  -- after it has the states of the configuration before that are not in the exit set, and the states of
  -- the entry set, and no others; the states to invoke change in the same way; the exit set is the one of
  -- the old configuration and history values, the entry set the one of the new history values.
  pub microstep_configuration :
      (n d : ℕ) (f f' : Fsm) (transitions : List Id32) (g g' : Global dm.Own)
      → microstep dm n d f transitions g ≡ ok (f', g')
      → (l : OrderedSet Id32) × (e : Entry) × (compute_exit_set n f g.configuration g.history_value
            transitions
          ≡ ok l)
        × (compute_entry_set d n f g'.history_value transitions ≡ ok e)
        × ((s : Id32)
            → contains g'.configuration s
              ≡ (contains g.configuration s && not (contains l s) || contains e.to_enter s))
        × ((s : Id32)
            → contains g'.states_to_invoke s
              ≡ (contains g.states_to_invoke s && not (contains l s) || contains e.to_enter s))
  unfolding microstep
  microstep_configuration n d f f' transitions g g' h =
      let (g1, p, h1) = >>=-eq-ok (exit_states dm n f transitions g) _ h in
      let (g2, q, r) = >>=-eq-ok (execute_transition_content dm f transitions g1) _ h1 in
      let (l, is_exit, exited, no_invoke, _) =
        exit_states_removes dm quiet n f transitions g g1 p in
      let k = execute_transition_content-Keeps dm quiet f transitions g1 g2 q in
      let (e, is_entry, entered, invoke, history) =
        enter_states_adds dm quiet n d f f' transitions g2 g' r in
      (
        l,
        e,
        is_exit,
        ap (λ t. compute_entry_set d n f t transitions) history ∙ is_entry,
        λ s.
            entered s
            ∙ ap (λ c. contains c s || contains e.to_enter s) k.same_configuration
            ∙ ap (λ b. b || contains e.to_enter s) (exited s),
        λ s.
            invoke s
            ∙ ap (λ c. contains c s || contains e.to_enter s) k.same_states_to_invoke
            ∙ ap (λ b. b || contains e.to_enter s) (no_invoke s),
      )

  -- Where the datamodel keeps to its part of the global data and `microstep` returns, no state is twice in
  -- the configuration, if none was before.
  pub microstep-Unique :
      (n d : ℕ) (f f' : Fsm) (transitions : List Id32) (g g' : Global dm.Own)
      → microstep dm n d f transitions g ≡ ok (f', g')
      → Unique g.configuration
      → Unique g'.configuration
  unfolding microstep
  microstep-Unique n d f f' transitions g g' h u =
      let (g1, p, h1) = >>=-eq-ok (exit_states dm n f transitions g) _ h in
      let (g2, q, r) = >>=-eq-ok (execute_transition_content dm f transitions g1) _ h1 in
      let k = execute_transition_content-Keeps dm quiet f transitions g1 g2 q in
      let u1 = exit_states-Unique dm quiet n f transitions g g1 p u in
      enter_states-Unique dm quiet n d f f' transitions g2 g' r
        (subst Unique (sym k.same_configuration) u1)
