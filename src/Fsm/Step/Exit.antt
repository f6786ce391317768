-- ===== src/Fsm/Step/Exit.antt =====
-- The configuration and the states to invoke under `exitStates` of src/fsm.rs.
use ru_fsm.Common.{
  ℕ, not, ◌&&◌, List, [], ◌∷◌, ok, nat_eq, ◌≡◌, refl, sym, ◌∙◌, ap, subst, arith, >>=-eq-ok,
  nat_beq_iff,
}
use ru_fsm.Fsm.Collections.Sequence.{contains}
use ru_fsm.Fsm.Collections.OrderedSet.{OrderedSet, delete}
use ru_fsm.Fsm.Collections.OrderedSet.Laws.{Unique, contains-delete, Unique-delete}
use ru_fsm.Fsm.Collections.Sorting.{sort}
use ru_fsm.Fsm.Collections.Sorting.Order.{contains-sort}
use ru_fsm.Fsm.Model.{Id32, Fsm, get_state_by_id}
use ru_fsm.Fsm.Domain.{compute_exit_set}
use ru_fsm.Fsm.Global.{Global, Datamodel, IsQuiet, Keeps-trans}
use ru_fsm.Fsm.Select.{state_exit_order}
use ru_fsm.Fsm.Step.{
  delete_each, exit_state, exit_each, exit_states, execute_contents, cancel_sessions,
  set_to_state_list, record_all,
}
use ru_fsm.Fsm.Step.Quiet.{execute_contents-Keeps, cancel_sessions-Keeps}

pub contains-delete_each :
    (l : List Id32) (set : OrderedSet Id32) (a : Id32)
    → contains (delete_each set l) a ≡ (contains set a && not (contains l a))
unfolding delete_each contains
contains-delete_each [] set a = ground arith
contains-delete_each (x ∷ l) set a = ground (
  arith,
  contains-delete_each l (delete set x) a,
  contains-delete set x a,
  nat_beq_iff x a,
  nat_beq_iff a x,
)

pub Unique-delete_each :
    (l : List Id32) (set : OrderedSet Id32) → Unique set → Unique (delete_each set l)
unfolding delete_each
Unique-delete_each [] set u = u
Unique-delete_each (x ∷ l) set u = Unique-delete_each l (delete set x) (Unique-delete set x u)

module _ (dm : Datamodel) (quiet : IsQuiet dm) where
  -- What exiting leaves of the global data, as equations.
  abbrev Exited : Global dm.Own → List Id32 → Global dm.Own → Type 0
  Exited g l g' =
      (g'.configuration ≡ delete_each g.configuration l)
      × (g'.states_to_invoke ≡ g.states_to_invoke)
      × (g'.history_value ≡ g.history_value)
      × (g'.running ≡ g.running)

  exit_state_lem :
      (f : Fsm) (s : Id32) (g g' : Global dm.Own)
      → exit_state dm f s g ≡ ok g'
      → Exited g (s ∷ []) g'
  unfolding exit_state delete_each
  exit_state_lem f s g g' h =
      let (st, p, q) = >>=-eq-ok (get_state_by_id f s) _ h in
      let k =
        Keeps-trans (cancel_sessions-Keeps dm quiet st g)
          (execute_contents-Keeps dm quiet f st.onexit (cancel_sessions dm st g)) in
      let last = execute_contents dm f st.onexit (cancel_sessions dm st g) in
      let same : record last { configuration = delete last.configuration s } ≡ g' = ground arith in
      subst (Exited g (s ∷ [])) same (
        ap (λ c. delete c s) k.same_configuration,
        k.same_states_to_invoke,
        k.same_history_value,
        k.same_running,
      )

  exit_each_lem :
      (f : Fsm) (l : List Id32) (g g' : Global dm.Own) → exit_each dm f l g ≡ ok g' → Exited g l g'
  unfolding exit_each delete_each
  exit_each_lem f [] g g' h =
      let same : g ≡ g' = ground arith in subst (Exited g []) same (refl, refl, refl, refl)
  exit_each_lem f (s ∷ l) g g' h =
      let (g1, p, q) = >>=-eq-ok (exit_state dm f s g) _ h in
      let (a, b, c, d) = exit_state_lem f s g g1 p in
      let (a', b', c', d') = exit_each_lem f l g1 g' q in
      (a' ∙ ap (λ set. delete_each set l) a, b' ∙ b, c' ∙ c, d' ∙ d)

  -- Where the datamodel keeps to its part of the global data and `exitStates` returns, the exit set is
  -- removed from the configuration and from the states to invoke, nothing else is removed and nothing
  -- added, and the interpreter goes on running as it did.
  pub exit_states_removes :
      (n : ℕ) (f : Fsm) (transitions : List Id32) (g g' : Global dm.Own)
      → exit_states dm n f transitions g ≡ ok g'
      → (l : OrderedSet Id32) × (compute_exit_set n f g.configuration g.history_value transitions
          ≡ ok l)
        × ((s : Id32)
            → contains g'.configuration s ≡ (contains g.configuration s && not (contains l s)))
        × ((s : Id32)
            → contains g'.states_to_invoke s
              ≡ (contains g.states_to_invoke s && not (contains l s)))
        × (g'.running ≡ g.running)
  unfolding exit_states
  exit_states_removes n f transitions g g' h =
      let (l, p, h1) =
        >>=-eq-ok (compute_exit_set n f g.configuration g.history_value transitions) _ h in
      let (states, p2, h2) = >>=-eq-ok (set_to_state_list f g.configuration) _ h1 in
      let (table, p3, h3) =
        >>=-eq-ok (record_all n f g.configuration states (sort (state_exit_order f) l) []) _ h2 in
      let (a, b, c, d) = exit_each_lem f (sort (state_exit_order f) l) _ g' h3 in
      (
        l,
        p,
        λ s.
            ap (λ set. contains set s) a
            ∙ contains-delete_each (sort (state_exit_order f) l) g.configuration s
            ∙ ap (λ b. contains g.configuration s && not b)
                (contains-sort (state_exit_order f) l s),
        λ s. ap (λ set. contains set s) b ∙ contains-delete_each l g.states_to_invoke s,
        d,
      )

  -- Under the same conditions no state is twice in the configuration, if none was.
  pub exit_states-Unique :
      (n : ℕ) (f : Fsm) (transitions : List Id32) (g g' : Global dm.Own)
      → exit_states dm n f transitions g ≡ ok g'
      → Unique g.configuration
      → Unique g'.configuration
  unfolding exit_states
  exit_states-Unique n f transitions g g' h u =
      let (l, p, h1) =
        >>=-eq-ok (compute_exit_set n f g.configuration g.history_value transitions) _ h in
      let (states, p2, h2) = >>=-eq-ok (set_to_state_list f g.configuration) _ h1 in
      let (table, p3, h3) =
        >>=-eq-ok (record_all n f g.configuration states (sort (state_exit_order f) l) []) _ h2 in
      let (a, b, c, d) = exit_each_lem f (sort (state_exit_order f) l) _ g' h3 in
      subst Unique (sym a) (Unique-delete_each (sort (state_exit_order f) l) g.configuration u)
