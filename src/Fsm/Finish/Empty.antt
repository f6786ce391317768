-- ===== src/Fsm/Finish/Empty.antt =====
-- What `exitInterpreter` of src/fsm.rs leaves of the configuration.
use ru_fsm.Common.{
  false, ◌&&◌, List, [], ◌∷◌, ok, nat_eq, ◌≡◌, inl, inr, refl, sym, ◌∙◌, ap, subst, arith,
  Bool-cases, >>=-eq-ok, nat_beq_iff, some, Option-cases, map,
}
use ru_fsm.Common.Str.{Str}
use ru_fsm.Fsm.Collections.Sequence.{contains}
use ru_fsm.Fsm.Collections.OrderedSet.{delete}
use ru_fsm.Fsm.Collections.Sorting.{sort}
use ru_fsm.Fsm.Collections.Sorting.Order.{contains-sort}
use ru_fsm.Fsm.Model.{Id32, State, Fsm, get_state_by_id}
use ru_fsm.Fsm.Tree.{is_final_state, is_scxml_element}
use ru_fsm.Fsm.Global.{Global, Session, Datamodel, IsQuiet, Keeps, Keeps-refl, Keeps-trans}
use ru_fsm.Fsm.Environment.{Environment, IsQuietEnvironment}
use ru_fsm.Fsm.Select.{state_exit_order}
use ru_fsm.Fsm.Step.{delete_each, execute_contents, set_to_state_list}
use ru_fsm.Fsm.Step.Quiet.{execute_contents-Keeps}
use ru_fsm.Fsm.Step.Exit.{contains-delete_each}
use ru_fsm.Fsm.Finish.{
  return_done_event, cancel_all, leave_state, leave_each, keep_names, exit_interpreter, done_invoke,
}

-- A list without elements.
contains-none : (l : List Id32) → ((s : Id32) → contains l s ≡ false) → l ≡ []
unfolding contains
contains-none [] h = refl
contains-none (s ∷ l) h = absurd (ground (arith, h s, nat_beq_iff s s))

module _ (dm : Datamodel) (env : Environment dm) (quiet : IsQuiet dm)
    (still : IsQuietEnvironment env) where
  return_done_event-Keeps : (g g' : Global dm.Own) → return_done_event dm env g ≡ ok g' → Keeps g g'
  unfolding return_done_event
  return_done_event-Keeps g g' h = elim (Option-cases g.parent_session_id) [
    | inl nobody ↦
        let same : g ≡ g' = ground (arith, rw nobody at h) in subst (Keeps g) same (Keeps-refl g)
    | inr (id, parent) ↦ elim (Option-cases g.caller_invoke_id) [
      | inl nobody ↦ absurd (ground (arith, rw (parent, nobody) at h))
      | inr (i, caller) ↦
          let same : env.send_to_session id (done_invoke i) g ≡ g' =
            ground (arith, rw (parent, caller) at h) in
          subst (Keeps g) same (still.session_Keeps id (done_invoke i) g)
    ]
  ]

  cancel_all-Keeps :
      (l : List (Str × Session)) (g : Global dm.Own) → Keeps g (cancel_all dm env l g)
  unfolding cancel_all
  cancel_all-Keeps [] g = Keeps-refl g
  cancel_all-Keeps ((k, s) ∷ l) g =
      Keeps-trans (quiet.cancel_Keeps s.session_id g)
        (cancel_all-Keeps l (dm.send_cancel s.session_id g))

  leave_state_lem :
      (f : Fsm) (sid : Id32) (g g' : Global dm.Own)
      → leave_state dm env f sid g ≡ ok g'
      → g'.configuration ≡ delete g.configuration sid
  unfolding leave_state
  leave_state_lem f sid g g' h =
      let (s, p, q) = >>=-eq-ok (get_state_by_id f sid) _ h in
      let k = execute_contents-Keeps dm quiet f s.onexit g in
      let g1 = execute_contents dm f s.onexit g in
      let g2 = record g1 { configuration = delete g1.configuration sid } in
      elim (Bool-cases (is_final_state s && is_scxml_element f s.parent)) [
        | inl top ↦
            (return_done_event-Keeps g2 g' (rw top at q)).same_configuration
            ∙ ap (λ c. delete c sid) k.same_configuration
        | inr inner ↦
            let same : g2 ≡ g' = ground (arith, rw inner at q) in
            ap (λ (u : Global dm.Own). u.configuration) (sym same)
            ∙ ap (λ c. delete c sid) k.same_configuration
      ]

  leave_each_lem :
      (f : Fsm) (l : List Id32) (g g' : Global dm.Own)
      → leave_each dm env f l g ≡ ok g'
      → g'.configuration ≡ delete_each g.configuration l
  unfolding leave_each delete_each
  leave_each_lem f [] g g' h =
      let same : g ≡ g' = ground arith in ap (λ (u : Global dm.Own). u.configuration) (sym same)
  leave_each_lem f (s ∷ l) g g' h =
      let (g1, p, q) = >>=-eq-ok (leave_state dm env f s g) _ h in
      leave_each_lem f l g1 g' q ∙ ap (λ c. delete_each c l) (leave_state_lem f s g g1 p)

  keep_names_lem :
      (f : Fsm) (g g' : Global dm.Own)
      → keep_names dm env f g ≡ ok g'
      → g'.configuration ≡ g.configuration
  unfolding keep_names
  keep_names_lem f g g' h = elim (Option-cases g.final_configuration) [
    | inl off ↦
        let same : g ≡ g' = ground (arith, rw off at h) in
        ap (λ (u : Global dm.Own). u.configuration) (sym same)
    | inr (names, on) ↦
        let (states, p, q) = >>=-eq-ok (set_to_state_list f g.configuration) _ (rw on at h) in
        let same : record g { final_configuration = some (map (λ (s : State). s.name) states) }
            ≡ g' =
          ground arith in
        ap (λ (u : Global dm.Own). u.configuration) (sym same)
  ]

  -- Where the datamodel and the other calls leave the configuration to the interpreter and `exitInterpreter`
  -- returns, no state is active any more.
  pub exit_interpreter_empties :
      (f : Fsm) (g g' : Global dm.Own) → exit_interpreter dm env f g ≡ ok g' → g'.configuration ≡ []
  unfolding exit_interpreter
  exit_interpreter_empties f g g' h =
      let (g1, p, q) = >>=-eq-ok (keep_names dm env f g) _ h in
      let order = state_exit_order f in
      let k = cancel_all-Keeps g1.child_sessions g1 in
      let left = leave_each_lem f (sort order g1.configuration) _ g' q in
      contains-none g'.configuration (λ s.
        ap (λ c. contains c s)
          (left ∙ ap (λ c. delete_each c (sort order g1.configuration)) k.same_configuration)
        ∙ contains-delete_each (sort order g1.configuration) g1.configuration s
        ∙ ground (arith, contains-sort order g1.configuration s))
