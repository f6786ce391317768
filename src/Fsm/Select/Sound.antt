-- ===== src/Fsm/Select/Sound.antt =====
-- The transitions that `selectTransitions` and `selectEventlessTransitions` of src/fsm.rs return.
use ru_fsm.Common.{
  refl, ℕ, Bool, true, false, List, [], ◌∷◌, ok, nat_eq, ◌≡◌, ◌≢◌, inl, inr, sym, ◌∙◌, ap, subst,
  arith, >>=-eq-ok,
}
use ru_fsm.Common.Str.{Str}
use ru_fsm.Fsm.Collections.Sequence.{contains, filter_run}
use ru_fsm.Fsm.Collections.Sequence.Fallible.{contains-filter_run}
use ru_fsm.Fsm.Collections.Sorting.{sort}
use ru_fsm.Fsm.Collections.Sorting.Order.{contains-sort}
use ru_fsm.Fsm.Collections.OrderedSet.{OrderedSet}
use ru_fsm.Fsm.Model.{Id32, Transition, Fsm}
use ru_fsm.Fsm.Tree.{is_atomic_state_id}
use ru_fsm.Fsm.Conflict.{conflicts, remove_conflicting_transitions}
use ru_fsm.Fsm.Conflict.Free.{remove_conflicting_transitions_free}
use ru_fsm.Fsm.Conflict.Preempted.{remove_conflicting_transitions_enabled}
use ru_fsm.Fsm.Global.{Event, Global, Datamodel}
use ru_fsm.Fsm.Model.NameMatch.{name_match}
use ru_fsm.Fsm.Select.Chosen.{Chosen, Chosen-fires, select_loop_lem}
use ru_fsm.Fsm.Select.{
  no_events, state_document_order, eventless, triggered_by, select_transitions,
  select_eventless_transitions, select_loop, select,
}

no_events-eq-true : (t : Transition) → no_events t ≡ true → t.events ≡ []
unfolding no_events
no_events-eq-true t h = empty t.events h
  where
    empty : (l : List Str) → (elim l [ [] ↦ true | _ ∷ _ ↦ false ]) ≡ true → l ≡ []
    empty [] h = refl
    empty (e ∷ l) h = cc

eventless-eq-true : (t : Transition) → eventless t ≡ true → t.events ≡ []
unfolding eventless
eventless-eq-true t h = no_events-eq-true t h

no_events-eq-false : (t : Transition) → no_events t ≡ false → t.events ≢ []
unfolding no_events
no_events-eq-false t h e = cc (rw e at h)

triggered_by-eq-true :
    (name : Str) (t : Transition)
    → triggered_by name t ≡ true
    → (t.events ≢ []) × (name_match t name ≡ true)
unfolding triggered_by
triggered_by-eq-true name t h = (no_events-eq-false t (ground arith), ground arith)

module _ (dm : Datamodel) (n : ℕ) (f : Fsm) where
  select_lem :
      (test : Transition → Bool) (out : OrderedSet Id32) (g g' : Global dm.Own) (tid : Id32)
      → select dm n f test g ≡ ok (out, g')
      → contains out tid ≡ true
      → (s : Id32) × (contains g.configuration s ≡ true)
        × (is_atomic_state_id f s ≡ ok true)
        × Chosen dm f (λ t. test t ≡ true) g g' s tid
  unfolding select
  select_lem test out g g' tid h m =
      let (atomic, p1, h1) = >>=-eq-ok (filter_run (is_atomic_state_id f) g.configuration) _ h in
      let sorted = sort (state_document_order f) atomic in
      let ((enabled, g1), p2, h2) = >>=-eq-ok (select_loop dm n f test sorted [] g) _ h1 in
      let (kept, p3, h3) =
        >>=-eq-ok (remove_conflicting_transitions n f g1.configuration g1.history_value enabled) _
          h2 in
      let same : kept ≡ out = ground arith in
      let later : g1 ≡ g' = ground arith in
      let (unique, why) = select_loop_lem dm n f test sorted [] enabled g g1 p2 tt in
      let is_enabled =
        remove_conflicting_transitions_enabled n f g1.configuration g1.history_value enabled out tid
          unique (p3 ∙ ap ok same) m in
      elim (why tid is_enabled) [
        | inl never ↦ unfold contains in cc
        | inr (s, k, c) ↦
            let in_atomic : contains atomic s ≡ true =
              sym (contains-sort (state_document_order f) atomic s) ∙ k in
            let (active, is_atomic) =
              (contains-filter_run (is_atomic_state_id f) g.configuration atomic s p1).0
                in_atomic in
            (s, active, is_atomic, subst (λ k. Chosen dm f (λ t. test t ≡ true) g k s tid) later c)
      ]

  select_free :
      (test : Transition → Bool) (out : OrderedSet Id32) (g g' : Global dm.Own) (a b : Id32)
      → select dm n f test g ≡ ok (out, g')
      → contains out a ≡ true
      → contains out b ≡ true
      → a ≢ b
      → conflicts n f g'.configuration g'.history_value a b ≡ ok false
  unfolding select
  select_free test out g g' a b h ma mb ne =
      let (atomic, p1, h1) = >>=-eq-ok (filter_run (is_atomic_state_id f) g.configuration) _ h in
      let sorted = sort (state_document_order f) atomic in
      let ((enabled, g1), p2, h2) = >>=-eq-ok (select_loop dm n f test sorted [] g) _ h1 in
      let (kept, p3, h3) =
        >>=-eq-ok (remove_conflicting_transitions n f g1.configuration g1.history_value enabled) _
          h2 in
      let same : kept ≡ out = ground arith in
      let later : g1 ≡ g' = ground arith in
      subst (λ (k : Global dm.Own). conflicts n f k.configuration k.history_value a b ≡ ok false)
        later
        (remove_conflicting_transitions_free n f g1.configuration g1.history_value enabled out a b
          (p3 ∙ ap ok same) ma mb ne)

  -- Each id that `selectTransitions` returns is that of a transition of an active atomic state or of an ancestor of
  -- it, which has events that match the name of the event. Between the global data before and after the selection
  -- lie evaluations of conditions only, one of them that of the transition found by the id, which held: it is
  -- missing, or the datamodel answered true on the data as they were then.
  pub select_transitions-Chosen :
      (event : Event) (out : OrderedSet Id32) (g g' : Global dm.Own) (tid : Id32)
      → select_transitions dm n f event g ≡ ok (out, g')
      → contains out tid ≡ true
      → (s : Id32) × (contains g.configuration s ≡ true)
        × (is_atomic_state_id f s ≡ ok true)
        × Chosen dm f (λ t. (t.events ≢ []) × (name_match t event.name ≡ true)) g g' s tid
  unfolding select_transitions
  select_transitions-Chosen event out g g' tid h m =
      let (s, active, is_atomic, c) = select_lem (triggered_by event.name) out g g' tid h m in
      (s, active, is_atomic, Chosen-fires dm n f (λ t k. triggered_by-eq-true event.name t k) c)

  -- The exit sets of two different transitions that `selectTransitions` returns do not intersect.
  pub select_transitions_free :
      (event : Event) (out : OrderedSet Id32) (g g' : Global dm.Own) (a b : Id32)
      → select_transitions dm n f event g ≡ ok (out, g')
      → contains out a ≡ true
      → contains out b ≡ true
      → a ≢ b
      → conflicts n f g'.configuration g'.history_value a b ≡ ok false
  unfolding select_transitions
  select_transitions_free event out g g' a b = select_free (triggered_by event.name) out g g' a b

  -- Each id that `selectEventlessTransitions` returns is that of a transition of an active atomic state or of an
  -- ancestor of it, which has no events. Between the global data before and after the selection lie evaluations of
  -- conditions only, one of them that of the transition found by the id, which held: it is missing, or the
  -- datamodel answered true on the data as they were then.
  pub select_eventless_transitions-Chosen :
      (out : OrderedSet Id32) (g g' : Global dm.Own) (tid : Id32)
      → select_eventless_transitions dm n f g ≡ ok (out, g')
      → contains out tid ≡ true
      → (s : Id32) × (contains g.configuration s ≡ true)
        × (is_atomic_state_id f s ≡ ok true)
        × Chosen dm f (λ t. t.events ≡ []) g g' s tid
  unfolding select_eventless_transitions
  select_eventless_transitions-Chosen out g g' tid h m =
      let (s, active, is_atomic, c) = select_lem eventless out g g' tid h m in
      (s, active, is_atomic, Chosen-fires dm n f (λ t k. eventless-eq-true t k) c)
