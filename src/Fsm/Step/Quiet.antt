-- ===== src/Fsm/Step/Quiet.antt =====
-- The global data under the calls of the datamodel that `exitStates` and `enterStates` of src/fsm.rs make.
use ru_fsm.Common.{
  ℕ, List, [], ◌∷◌, ok, nat_eq, ◌==◌, ◌≡◌, inl, inr, subst, arith, Bool-cases, >>=-eq-ok, Option,
  none, some,
}
use ru_fsm.Common.Str.{Str}
use ru_fsm.Fsm.Model.{Id32, State, DoneData, Fsm, get_state_by_id, get_transition_by_id}
use ru_fsm.Fsm.Global.{
  Global, Session, Datamodel, IsQuiet, Keeps, Keeps-refl, Keeps-trans, enqueue_internal,
  enqueue_internal-Keeps,
}
use ru_fsm.Fsm.Step.{
  execute_content, execute_contents, cancel_invoke, cancel_each, cancel_sessions,
  execute_transition_content, done_event, done_state, finish_parallel, has_finished, sessions_of,
}

module _ (dm : Datamodel) (quiet : IsQuiet dm) where
  execute_content-Keeps :
      (f : Fsm) (c : Id32) (g : Global dm.Own) → Keeps g (execute_content dm f c g)
  unfolding execute_content
  execute_content-Keeps f c g = elim (Bool-cases (c == 0)) [
    | inl z ↦ rw z (Keeps-refl g)
    | inr z ↦ rw z (quiet.content_Keeps f c g)
  ]

  pub execute_contents-Keeps :
      (f : Fsm) (cs : List Id32) (g : Global dm.Own) → Keeps g (execute_contents dm f cs g)
  unfolding execute_contents
  execute_contents-Keeps f [] g = Keeps-refl g
  execute_contents-Keeps f (c ∷ cs) g =
      Keeps-trans (execute_content-Keeps f c g)
        (execute_contents-Keeps f cs (execute_content dm f c g))

  cancel_invoke-Keeps : (k : Str) (i : ℕ) (g : Global dm.Own) → Keeps g (cancel_invoke dm k i g)
  unfolding cancel_invoke
  cancel_invoke-Keeps k i g =
      let h = quiet.cancel_Keeps i (record g { child_sessions = _ }) in
      record {
        same_configuration = h.same_configuration;
        same_states_to_invoke = h.same_states_to_invoke;
        same_history_value = h.same_history_value;
        same_running = h.same_running;
        queue_grows = h.queue_grows;
      }

  cancel_each-Keeps : (l : List (Str × Session)) (g : Global dm.Own) → Keeps g (cancel_each dm l g)
  unfolding cancel_each
  cancel_each-Keeps [] g = Keeps-refl g
  cancel_each-Keeps ((k, s) ∷ l) g =
      Keeps-trans (cancel_invoke-Keeps k s.session_id g)
        (cancel_each-Keeps l (cancel_invoke dm k s.session_id g))

  pub cancel_sessions-Keeps : (s : State) (g : Global dm.Own) → Keeps g (cancel_sessions dm s g)
  unfolding cancel_sessions
  cancel_sessions-Keeps s g = cancel_each-Keeps (sessions_of s g.child_sessions) g

  pub execute_transition_content-Keeps :
      (f : Fsm) (ts : List Id32) (g g' : Global dm.Own)
      → execute_transition_content dm f ts g ≡ ok g'
      → Keeps g g'
  unfolding execute_transition_content
  execute_transition_content-Keeps f [] g g' h =
      let same : g ≡ g' = ground arith in subst (Keeps g) same (Keeps-refl g)
  execute_transition_content-Keeps f (tid ∷ tids) g g' h =
      let (t, p, q) = >>=-eq-ok (get_transition_by_id f tid) _ h in
      Keeps-trans (execute_content-Keeps f t.content g)
        (execute_transition_content-Keeps f tids (execute_content dm f t.content g) g' q)

  pub done_event-Keeps :
      (o : Option DoneData) (name : Str) (g : Global dm.Own) → Keeps g (done_event dm o name g).1
  unfolding done_event
  done_event-Keeps none name g = Keeps-refl g
  done_event-Keeps (some d) name g =
      Keeps-trans (quiet.params_Keeps d.params g) (quiet.done_content_Keeps d.content _)

  pub finish_parallel-Keeps :
      (d : ℕ) (f : Fsm) (s : Id32) (g g' : Global dm.Own)
      → finish_parallel dm d f s g ≡ ok g'
      → Keeps g g'
  unfolding finish_parallel
  finish_parallel-Keeps d f s g g' h =
      let (final, r, t) = >>=-eq-ok (has_finished d f g.configuration s) _ h in
      elim (Bool-cases final) [
        | inl yes_ ↦
            let (st, u, v) = >>=-eq-ok (get_state_by_id f s) _ (rw yes_ at t) in
            let same : enqueue_internal (done_state st.name none none) g ≡ g' = ground arith in
            subst (Keeps g) same (enqueue_internal-Keeps _ g)
        | inr no_ ↦
            let same : g ≡ g' = ground (arith, rw no_ at t) in subst (Keeps g) same (Keeps-refl g)
      ]
