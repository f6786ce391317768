-- ===== src/Fsm/Loop/Ends.antt =====
-- How `mainEventLoop` of src/fsm.rs ends, and where it waits.
use ru_fsm.Common.{
  ok-eq-ok, ℕ, zero, suc, Bool, true, false, List, [], ◌∷◌, Run, ok, ◌>>=◌, nat_eq, ◌≡◌, inl, inr,
  refl, subst, Bool-cases, >>=-eq-ok, Option, none, some,
}
use ru_fsm.Common.Str.{Str}
use ru_fsm.Fsm.Collections.Queue.{is_empty}
use ru_fsm.Fsm.Collections.Sorting.{sort}
use ru_fsm.Fsm.Model.{Fsm}
use ru_fsm.Fsm.Global.{Global, Datamodel, Event, IsQuiet}
use ru_fsm.Fsm.Environment.{Environment, IsQuietEnvironment}
use ru_fsm.Fsm.Select.{state_document_order}
use ru_fsm.Fsm.Finish.{exit_interpreter}
use ru_fsm.Fsm.Finish.Empty.{exit_interpreter_empties}
use ru_fsm.Fsm.Loop.{
  Next, again, waiting, stopped, macrostep, invoke_all, is_cancel_event, process_external,
  between_macrosteps, unless_stopped, outer_round, after_round, outer_body, main_event_loop,
}

is_empty-nil : (q : List Event) → is_empty q ≡ true → q ≡ []
unfolding is_empty
is_empty-nil [] h = refl
is_empty-nil (e ∷ q) h = cc

-- Said of a round that ends in waiting: the internal queue and the states to invoke are empty.
abbrev pub IsIdle : {Own : Type 0} → Next Own → Type 0
IsIdle (again f g inbox) = Unit
IsIdle (waiting f g) = (g.internal_queue ≡ []) × (g.states_to_invoke ≡ [])
IsIdle (stopped f g) = Unit

-- Said of what the loop returns: the same, or an empty configuration at its end.
abbrev pub IsOver : {Own : Type 0} → Next Own → Type 0
IsOver (again f g inbox) = ⊥
IsOver (waiting f g) = (g.internal_queue ≡ []) × (g.states_to_invoke ≡ [])
IsOver (stopped f g) = g.configuration ≡ []

module _ (dm : Datamodel) (env : Environment dm) (n d : ℕ) where
  receive_lem :
      (caller : Str) (f : Fsm) (g : Global dm.Own) (next : Option (Event × List Event))
      (r : Next dm.Own)
      → g.internal_queue ≡ []
      → g.states_to_invoke ≡ []
      → (elim next [
        | none ↦ ok (waiting f g)
        | some (e, rest) ↦ elim (is_cancel_event e) [
          | true ↦ ok (again f (record g { running = false }) rest)
          | false ↦ process_external dm env n d f e g >>= λ (f3, g3). ok (again f3 g3 rest)
        ]
      ])
        ≡ ok r
      → IsIdle r
  receive_lem caller f g none r q i h = subst IsIdle (ok-eq-ok h) (q, i)
  receive_lem caller f g (some (e, rest)) r q i h = elim (Bool-cases (is_cancel_event e)) [
    | inl cancel ↦ subst IsIdle (ok-eq-ok (rw cancel at h)) tt
    | inr other ↦
        let ((f3, g3), p, s) = >>=-eq-ok (process_external dm env n d f e g) _ (rw other at h) in
        subst IsIdle (ok-eq-ok s) tt
  ]

  between_macrosteps_lem :
      (caller : Str) (f : Fsm) (g : Global dm.Own) (inbox : List Event) (r : Next dm.Own)
      → between_macrosteps dm env n d caller f g inbox ≡ ok r
      → IsIdle r
  unfolding between_macrosteps
  between_macrosteps_lem caller f g inbox r h =
      let (g1, p, q) =
        >>=-eq-ok (invoke_all dm env n d f (sort (state_document_order f) g.states_to_invoke) g) _
          h in
      elim (Bool-cases (is_empty g1.internal_queue)) [
        | inl quiet ↦
            receive_lem caller f (record g1 { states_to_invoke = [] }) _ r
              (is_empty-nil g1.internal_queue quiet) refl (rw quiet at q)
        | inr busy ↦ subst IsIdle (ok-eq-ok (rw busy at q)) tt
      ]

  unless_stopped_lem :
      (running : Bool) (caller : Str) (f : Fsm) (g : Global dm.Own) (inbox : List Event)
      (r : Next dm.Own)
      → unless_stopped dm env n d running caller f g inbox ≡ ok r
      → IsIdle r
  unfolding unless_stopped
  unless_stopped_lem true caller f g inbox r h = between_macrosteps_lem caller f g inbox r h
  unless_stopped_lem false caller f g inbox r h = subst IsIdle (ok-eq-ok h) tt

  outer_round_lem :
      (k : ℕ) (caller : Str) (f : Fsm) (g : Global dm.Own) (inbox : List Event) (r : Next dm.Own)
      → outer_round dm env n d k caller f g inbox ≡ ok r
      → IsIdle r
  unfolding outer_round
  outer_round_lem k caller f g inbox r h =
      let ((f1, g1), p, q) = >>=-eq-ok (macrostep dm env n d k f g) _ h in
      unless_stopped_lem g1.running caller f1 g1 inbox r q

  module _ (quiet : IsQuiet dm) (still : IsQuietEnvironment env) where
    after_round_lem :
        (loop : Fsm → Global dm.Own → List Event → Run (Next dm.Own))
        → ((f : Fsm) (g : Global dm.Own) (inbox : List Event) (r : Next dm.Own)
            → loop f g inbox ≡ ok r
            → IsOver r)
        → (next r : Next dm.Own) → IsIdle next
        → after_round dm env n d loop next ≡ ok r
        → IsOver r
    unfolding after_round
    after_round_lem loop ih (again f g inbox) r i h = ih f g inbox r h
    after_round_lem loop ih (waiting f g) r i h = subst IsOver (ok-eq-ok h) i
    after_round_lem loop ih (stopped f g) r i h =
        let (g1, p, q) = >>=-eq-ok (exit_interpreter dm env f g) _ h in
        subst IsOver (ok-eq-ok q) (exit_interpreter_empties dm env quiet still f g g1 p)

    outer_body_lem :
        (loop : Fsm → Global dm.Own → List Event → Run (Next dm.Own))
        → ((f : Fsm) (g : Global dm.Own) (inbox : List Event) (r : Next dm.Own)
            → loop f g inbox ≡ ok r
            → IsOver r)
        → (running : Bool) (k : ℕ) (caller : Str) (f : Fsm) (g : Global dm.Own) (inbox : List Event)
          (r : Next dm.Own)
        → outer_body dm env n d running loop k caller f g inbox ≡ ok r
        → IsOver r
    unfolding outer_body
    outer_body_lem loop ih true k caller f g inbox r h =
        let (next, p, q) = >>=-eq-ok (outer_round dm env n d k caller f g inbox) _ h in
        after_round_lem loop ih next r (outer_round_lem k caller f g inbox next p) q
    outer_body_lem loop ih false k caller f g inbox r h =
        after_round_lem loop ih (stopped f g) r tt h

    -- Where the datamodel and the other calls leave the configuration to the interpreter: if `mainEventLoop` ends,
    -- no state is active any more; and where it waits for an external event, the internal queue is empty
    -- and no state waits for its invocations.
    pub main_event_loop-IsOver :
        (m k : ℕ) (caller : Str) (f : Fsm) (g : Global dm.Own) (inbox : List Event)
        (r : Next dm.Own)
        → main_event_loop dm env n d m k caller f g inbox ≡ ok r
        → IsOver r
    unfolding main_event_loop
    main_event_loop-IsOver zero k caller f g inbox r h = absurd (cc)
    main_event_loop-IsOver (suc m) k caller f g inbox r h =
        outer_body_lem (main_event_loop dm env n d m k caller)
          (λ f1 g1 rest r1 h1. main_event_loop-IsOver m k caller f1 g1 rest r1 h1) g.running k
          caller f g inbox r h
