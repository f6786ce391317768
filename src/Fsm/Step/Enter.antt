-- ===== src/Fsm/Step/Enter.antt =====
-- The configuration and the states to invoke under `enterStates` of src/fsm.rs.
use ru_fsm.Common.{
  ℕ, true, false, ◌||◌, List, [], ◌∷◌, ok, nat_eq, ◌≡◌, inl, inr, refl, sym, ◌∙◌, ap, subst, arith,
  Bool-cases, >>=-eq-ok,
}
use ru_fsm.Fsm.Collections.Sequence.{contains}
use ru_fsm.Fsm.Collections.OrderedSet.{OrderedSet, add, add_all}
use ru_fsm.Fsm.Collections.OrderedSet.Laws.{Unique, contains-add_all, Unique-add_all}
use ru_fsm.Fsm.Collections.Sorting.{sort}
use ru_fsm.Fsm.Collections.Sorting.Order.{contains-sort}
use ru_fsm.Fsm.Model.{Id32, State, Fsm, get_state_by_id}
use ru_fsm.Fsm.Tree.{is_scxml_element}
use ru_fsm.Fsm.Global.{Global, Datamodel, IsQuiet, Keeps, Keeps-trans, enqueue_internal-Keeps}
use ru_fsm.Fsm.Select.{state_document_order}
use ru_fsm.Fsm.Entry.{Entry, compute_entry_set}
use ru_fsm.Fsm.Step.{
  enters_late, clear_first_entry, entry_contents, execute_contents, done_event, enter_final,
  enter_begin, enter_last, enter_one, enter_each, enter_states,
}
use ru_fsm.Fsm.Step.Quiet.{execute_contents-Keeps, done_event-Keeps, finish_parallel-Keeps}

module _ (dm : Datamodel) (quiet : IsQuiet dm) where
  -- What entering leaves of the global data, as equations.
  abbrev pub Entered : Global dm.Own → List Id32 → Global dm.Own → Type 0
  Entered g l g' =
      (g'.configuration ≡ add_all g.configuration l)
      × (g'.states_to_invoke ≡ add_all g.states_to_invoke l)
      × (g'.history_value ≡ g.history_value)

  Entered-of_Keeps :
      (g : Global dm.Own) (l : List Id32) (g1 g2 : Global dm.Own)
      → Entered g l g1
      → Keeps g1 g2
      → Entered g l g2
  Entered-of_Keeps g l g1 g2 (a, b, c) k =
      (k.same_configuration ∙ a, k.same_states_to_invoke ∙ b, k.same_history_value ∙ c)

  enter_final_lem :
      (d : ℕ) (f : Fsm) (s : State) (g g' : Global dm.Own)
      → enter_final dm d f s g ≡ ok g'
      → Entered g [] g'
  unfolding enter_final add_all
  enter_final_lem d f s g g' h = elim (Bool-cases (is_scxml_element f s.parent)) [
    | inl top ↦
        let same : record g { running = false } ≡ g' = ground (arith, rw (top, enter_final) at h) in
        subst (Entered g []) same (refl, refl, refl)
    | inr below ↦
        let (parent, p, q) =
          >>=-eq-ok (get_state_by_id f s.parent) _ (rw (below, enter_final) at h) in
        let (event, g1) = done_event dm s.donedata parent.name g in
        Entered-of_Keeps g [] g g' (refl, refl, refl)
          (Keeps-trans (done_event-Keeps dm quiet s.donedata parent.name g) (
            Keeps-trans (enqueue_internal-Keeps _ _)
              (finish_parallel-Keeps dm quiet d f parent.parent _ g' q)))
  ]

  enter_last_lem :
      (d : ℕ) (f : Fsm) (s : State) (g g' : Global dm.Own)
      → enter_last dm d f s g ≡ ok g'
      → Entered g [] g'
  unfolding enter_last add_all
  enter_last_lem d f s g g' h = elim (Bool-cases s.is_final) [
    | inl final ↦ enter_final_lem d f s g g' (rw (final, enter_last) at h)
    | inr other ↦
        let same : g ≡ g' = ground (arith, rw (other, enter_last) at h) in
        subst (Entered g []) same (refl, refl, refl)
  ]

  Entered-then :
      (g : Global dm.Own) (l : List Id32) (g1 g2 : Global dm.Own)
      → Entered g l g1
      → Entered g1 [] g2
      → Entered g l g2
  unfolding add_all
  Entered-then g l g1 g2 (a, b, c) (a', b', c') = (a' ∙ a, b' ∙ b, c' ∙ c)

  enter_begin_lem :
      (f f' : Fsm) (s : Id32) (g g' : Global dm.Own)
      → enter_begin dm f s g ≡ ok (f', g')
      → Entered g (s ∷ []) g'
  unfolding enter_begin add_all
  enter_begin_lem f f' s g g' h =
      let (st, p, q) = >>=-eq-ok (get_state_by_id f s) _ h in
      let g1 = record g {
        configuration = add g.configuration s;
        states_to_invoke = add g.states_to_invoke s;
      } in
      elim (Bool-cases (enters_late f st)) [
        | inl late ↦
            let r = rw late at q in
            let same : dm.initialize_data_model (clear_first_entry s f) s true g1 ≡ g' =
              ground arith in
            subst (Entered g (s ∷ [])) same (
              Entered-of_Keeps g (s ∷ []) g1 _ (refl, refl, refl)
                (quiet.initialize_Keeps _ s true g1))
        | inr early ↦
            let r = rw early at q in
            let same : g1 ≡ g' = ground arith in subst (Entered g (s ∷ [])) same (refl, refl, refl)
      ]

  enter_one_lem :
      (d : ℕ) (e : Entry) (s : Id32) (f f' : Fsm) (g g' : Global dm.Own)
      → enter_one dm d e s (f, g) ≡ ok (f', g')
      → Entered g (s ∷ []) g'
  unfolding enter_one add_all
  enter_one_lem d e s f f' g g' h =
      let ((f1, g1), p, h1) = >>=-eq-ok (enter_begin dm f s g) _ h in
      let (st, p2, h2) = >>=-eq-ok (get_state_by_id f1 s) _ h1 in
      let (contents, p3, h3) = >>=-eq-ok (entry_contents f1 e st s) _ h2 in
      let g2 = execute_contents dm f1 contents g1 in
      let (g3, p4, h4) = >>=-eq-ok (enter_last dm d f1 st g2) _ h3 in
      let same : g3 ≡ g' = ground arith in
      let begun = enter_begin_lem f f1 s g g1 p in
      let ran =
        Entered-of_Keeps g (s ∷ []) g1 g2 begun (execute_contents-Keeps dm quiet f1 contents g1) in
      subst (Entered g (s ∷ [])) same
        (Entered-then g (s ∷ []) g2 g3 ran (enter_last_lem d f1 st g2 g3 p4))

  enter_each_lem :
      (d : ℕ) (e : Entry) (l : List Id32) (f f' : Fsm) (g g' : Global dm.Own)
      → enter_each dm d e l (f, g) ≡ ok (f', g')
      → Entered g l g'
  unfolding enter_each add_all
  enter_each_lem d e [] f f' g g' h =
      let same : g ≡ g' = ground arith in subst (Entered g []) same (refl, refl, refl)
  enter_each_lem d e (s ∷ l) f f' g g' h =
      let ((f1, g1), p, q) = >>=-eq-ok (enter_one dm d e s (f, g)) _ h in
      let (a, b, c) = enter_one_lem d e s f f1 g g1 p in
      let (a', b', c') = enter_each_lem d e l f1 f' g1 g' q in
      (a' ∙ ap (λ set. add_all set l) a, b' ∙ ap (λ set. add_all set l) b, c' ∙ c)

  -- Where the datamodel keeps to its part of the global data and `enterStates` returns, exactly the states
  -- of the computed entry set are added to the configuration and to the states to invoke, no state
  -- leaves either, and the history values stay.
  pub enter_states_adds :
      (n d : ℕ) (f f' : Fsm) (transitions : List Id32) (g g' : Global dm.Own)
      → enter_states dm n d f transitions g ≡ ok (f', g')
      → (e : Entry) × (compute_entry_set d n f g.history_value transitions ≡ ok e)
        × ((s : Id32)
            → contains g'.configuration s ≡ (contains g.configuration s || contains e.to_enter s))
        × ((s : Id32)
            → contains g'.states_to_invoke s
              ≡ (contains g.states_to_invoke s || contains e.to_enter s))
        × (g'.history_value ≡ g.history_value)
  unfolding enter_states
  enter_states_adds n d f f' transitions g g' h =
      let (e, p, q) = >>=-eq-ok (compute_entry_set d n f g.history_value transitions) _ h in
      let order = state_document_order f in
      let (a, b, c) = enter_each_lem d e (sort order e.to_enter) f f' g g' q in
      let members : (set : OrderedSet Id32) (s : Id32)
          → contains (add_all set (sort order e.to_enter)) s
            ≡ (contains set s || contains e.to_enter s) =
        λ set s.
          contains-add_all set (sort order e.to_enter) s
          ∙ ap (λ b. contains set s || b) (contains-sort order e.to_enter s) in
      (
        e,
        p,
        λ s. ap (λ set. contains set s) a ∙ members g.configuration s,
        λ s. ap (λ set. contains set s) b ∙ members g.states_to_invoke s,
        c,
      )

  -- Under the same conditions no state is twice in the configuration, if none was.
  pub enter_states-Unique :
      (n d : ℕ) (f f' : Fsm) (transitions : List Id32) (g g' : Global dm.Own)
      → enter_states dm n d f transitions g ≡ ok (f', g')
      → Unique g.configuration
      → Unique g'.configuration
  unfolding enter_states
  enter_states-Unique n d f f' transitions g g' h u =
      let (e, p, q) = >>=-eq-ok (compute_entry_set d n f g.history_value transitions) _ h in
      let sorted = sort (state_document_order f) e.to_enter in
      let (a, b, c) = enter_each_lem d e sorted f f' g g' q in
      subst Unique (sym a) (Unique-add_all g.configuration sorted u)
