-- ===== src/Fsm/Loop.antt =====
-- `mainEventLoop` of src/fsm.rs. `inbox` are the events that arrive at the external queue, in their order; where it is
-- used up, the loop waits. `k` bounds the rounds of the inner loop, `m` those of the outer one. `caller` is the text
-- of `Fsm::caller_invoke_id`.
pub mod Macro
pub mod Ends
mod Witness
use ru_fsm.Common.{
  ℕ, zero, suc, ◌+◌, ◌-◌, ◌<◌, ◌≤◌, Bool, true, false, not, ◌&&◌, ◌||◌, List, [], ◌∷◌, ◌++◌, Run,
  ok, panic, stuck, ◌>>=◌, if◌then◌else◌, PartialEq, nat_eq, ◌==◌, ◌≡◌, ◌≢◌, ◌⊎◌, ◌↔◌, inl, inr,
  refl, sym, ◌∙◌, ap, subst, arith, Bool-cases, >>=-eq-ok, nat_beq_iff, Option, none, some,
  Option-cases, length, get_elem?, All, append-nil, append_assoc, map, ltb, leb, unwrap, take, drop,
  length-append, ◌*◌, ◌/◌, ◌%◌, ◌^◌, min, ltb→lt, lt→ltb,
}
use ru_fsm.Common.Str.{Str, str_beq, starts_with}
use ru_fsm.Fsm.Collections.Sorting.{sort}
use ru_fsm.Fsm.Collections.Queue.{is_empty}
use ru_fsm.Fsm.Model.{Id32, State, Invoke, Fsm, get_state_by_id}
use ru_fsm.Fsm.Global.{Global, Session, Datamodel, Event}
use ru_fsm.Fsm.Environment.{Environment}
use ru_fsm.Fsm.Invoke.{invoke}
use ru_fsm.Fsm.Finish.{done_invoke_prefix, exit_interpreter}
use ru_fsm.Fsm.Select.{state_document_order, select_eventless_transitions, select_transitions}
use ru_fsm.Fsm.Step.{execute_contents, microstep}
use Prim.Native.Nat.{compare, Ordering}

-- EVENT_CANCEL_SESSION
abbrev cancel_session : Str
cancel_session =
    b'e' ∷ b'r' ∷ b'r' ∷ b'o' ∷ b'r' ∷ b'.' ∷ b'p' ∷ b'l' ∷ b'a' ∷ b't' ∷ b'f' ∷ b'o' ∷ b'r' ∷ b'm'
    ∷ b'.' ∷ b'c' ∷ b'a' ∷ b'n' ∷ b'c' ∷ b'e' ∷ b'l' ∷ []

unfoldable pub is_cancel_event : Event → Bool
is_cancel_event e = str_beq e.name cancel_session

unfoldable pub invoke_document_order : Invoke → Invoke → Ordering
invoke_document_order s1 s2 = compare s1.doc_id s2.doc_id

-- `child_sessions.get` and `child_sessions.remove`
unfoldable pub session_of : List (Str × Session) → Str → Option Session
session_of [] k = none
session_of ((j, s) ∷ l) k = if str_beq j k then some s else session_of l k

unfoldable pub remove_session : List (Str × Session) → Str → List (Str × Session)
remove_session [] k = []
remove_session ((j, s) ∷ l) k =
    if str_beq j k then remove_session l k else (j, s) ∷ remove_session l k

-- What a round of the outer loop ends in: the next one, waiting for an event, or the end of the loop.
pub data Next (Own : Type 0) : Type 0 where
  again : Fsm → Global Own → List Event → Next Own
  waiting : Fsm → Global Own → Next Own
  stopped : Fsm → Global Own → Next Own

-- The ids of the contents to finalize, and the invoke ids to forward to.
unfoldable pub concerned : Str → Session → List Invoke → List Id32 × List Str
concerned invoke_id session [] = ([], [])
concerned invoke_id session (inv ∷ invs) =
    let (to_finalize, to_forward) = concerned invoke_id session invs in
    (
      if inv.doc_id == session.invoke_doc_id then inv.finalize ∷ to_finalize else to_finalize,
      if inv.autoforward then invoke_id ∷ to_forward else to_forward,
    )

module _ (dm : Datamodel) (env : Environment dm) (n d : ℕ) where
  -- `macrostepDone`, and the document and the global data.
  abbrev pub Progress : Type 0
  Progress = Bool × Fsm × Global dm.Own

  -- `if !enabledTransitions.isEmpty() { microstep(..) }`
  unfoldable pub take_enabled : Fsm → List Id32 → Global dm.Own → Run (Fsm × Global dm.Own)
  take_enabled f [] g = ok (f, g)
  take_enabled f (tid ∷ tids) g = microstep dm n d f (tid ∷ tids) g

  unfoldable pub finish_round : Bool → Fsm → List Id32 → Global dm.Own → Run Progress
  finish_round finished f enabled g = take_enabled f enabled g >>= λ (f1, g1). ok (finished, f1, g1)

  -- The next internal event, if the queue has one, and the transitions that it triggers.
  unfoldable pub take_internal : List Event → Fsm → Global dm.Own → Run Progress
  unfolding finish_round
  take_internal [] f g = ok (true, f, g)
  take_internal (event ∷ queue) f g = do
    let g1 : Global dm.Own = env.set_event event (record g { internal_queue = queue })
    (enabled, g2) ← select_transitions dm n f event g1
    finish_round false f enabled g2

  unfoldable pub next_internal : Fsm → Global dm.Own → Run Progress
  unfolding take_internal
  next_internal f g = take_internal g.internal_queue f g

  -- What follows the selection of the eventless transitions.
  unfoldable pub take_eventless : Fsm → List Id32 → Global dm.Own → Run Progress
  unfolding next_internal
  take_eventless f [] g = next_internal f g
  take_eventless f (tid ∷ tids) g = finish_round false f (tid ∷ tids) g

  -- A round of the inner loop.
  unfoldable pub inner_round : Fsm → Global dm.Own → Run Progress
  unfolding take_eventless
  inner_round f g =
      select_eventless_transitions dm n f g >>= λ (enabled, g1). take_eventless f enabled g1

  -- The rest of the inner loop, `next`, follows unless `macrostepDone` is set.
  unfoldable pub unless_done :
      (Fsm → Global dm.Own → Run (Fsm × Global dm.Own)) → Progress → Run (Fsm × Global dm.Own)
  unless_done next (true, f, g) = ok (f, g)
  unless_done next (false, f, g) = next f g

  -- The first argument is `running`.
  unfoldable pub inner_body :
      Bool
      → (Fsm → Global dm.Own → Run (Fsm × Global dm.Own))
      → Fsm
      → Global dm.Own
      → Run (Fsm × Global dm.Own)
  unfolding unless_done inner_round
  inner_body true next f g = inner_round f g >>= λ p. unless_done next p
  inner_body false next f g = ok (f, g)

  -- The inner loop: `while running && !macrostepDone`.
  unfoldable pub macrostep : ℕ → Fsm → Global dm.Own → Run (Fsm × Global dm.Own)
  unfolding inner_body
  macrostep zero f g = stuck
  macrostep (suc k) f g = inner_body g.running (macrostep k) f g

  unfoldable pub invoke_each : Id32 → List Invoke → Global dm.Own → Global dm.Own
  invoke_each sid [] g = g
  invoke_each sid (inv ∷ invs) g = invoke_each sid invs (invoke dm env sid inv g)

  unfoldable pub invoke_all : Fsm → List Id32 → Global dm.Own → Run (Global dm.Own)
  unfolding invoke_each
  invoke_all f [] g = ok g
  invoke_all f (sid ∷ sids) g = get_state_by_id f sid >>= λ s.
      invoke_all f sids (invoke_each sid (sort invoke_document_order s.invoke) g)

  -- Whether an event that arrives is taken: those of a session that is no longer a child are ignored.
  unfoldable pub accepts : Str → Global dm.Own → Event → Bool
  unfolding session_of
  accepts caller g e = starts_with e.name done_invoke_prefix || (elim e.invoke_id [
    | none ↦ true
    | some invoke_id ↦
        str_beq caller invoke_id
        || (elim (session_of g.child_sessions invoke_id) [ some s ↦ true | none ↦ false ])
  ])

  -- The loop of `recv`.
  unfoldable pub receive : Str → Global dm.Own → List Event → Option (Event × List Event)
  unfolding accepts
  receive caller g [] = none
  receive caller g (e ∷ inbox) =
      if accepts caller g e then some (e, inbox) else receive caller g inbox

  -- A session whose end an event tells is no longer a child.
  unfoldable pub forget_session : Event → Global dm.Own → Global dm.Own
  unfolding remove_session
  forget_session e g = elim e.invoke_id [
    | some invoke_id ↦
        if starts_with e.name done_invoke_prefix
        then record g { child_sessions = remove_session g.child_sessions invoke_id }
        else g
    | none ↦ g
  ]

  unfoldable pub concerned_by : Fsm → Event → Global dm.Own → Run (List Id32 × List Str)
  unfolding concerned session_of
  concerned_by f e g = elim e.invoke_id [
    | none ↦ ok ([], [])
    | some invoke_id ↦ elim (session_of g.child_sessions invoke_id) [
      | none ↦ ok ([], [])
      | some session ↦ elim session.state_id [
        | none ↦ ok ([], [])
        | some state_id ↦
            get_state_by_id f state_id >>= λ s. ok (concerned invoke_id session s.invoke)
      ]
    ]
  ]

  unfoldable pub forward_each : List Str → Event → Global dm.Own → Global dm.Own
  unfolding session_of
  forward_each [] e g = g
  forward_each (invoke_id ∷ l) e g =
      let g1 : Global dm.Own = elim (session_of g.child_sessions invoke_id) [
        | some session ↦ env.send_to_child session e g
        | none ↦ g
      ] in
      forward_each l e g1

  -- What is done with an external event.
  unfoldable pub process_external : Fsm → Event → Global dm.Own → Run (Fsm × Global dm.Own)
  unfolding forget_session concerned_by forward_each take_enabled execute_contents
  process_external f e g = do
    let g1 : Global dm.Own = forget_session e g
    (to_finalize, to_forward) ← concerned_by f e g1
    let g2 : Global dm.Own = execute_contents dm f to_finalize (env.set_event e g1)
    (enabled, g3) ← select_transitions dm n f e (forward_each to_forward e g2)
    take_enabled f enabled g3

  -- A round of the outer loop, behind the macrostep.
  unfoldable pub between_macrosteps : Str → Fsm → Global dm.Own → List Event → Run (Next dm.Own)
  unfolding invoke_all receive process_external is_cancel_event
  between_macrosteps caller f g inbox = do
    g1 ← invoke_all f (sort (state_document_order f) g.states_to_invoke) g
    let g2 : Global dm.Own = record g1 { states_to_invoke = [] }
    elim (is_empty g2.internal_queue) [
      | false ↦ ok (again f g2 inbox)
      | true ↦ elim (receive caller g2 inbox) [
        | none ↦ ok (waiting f g2)
        | some (e, rest) ↦ elim (is_cancel_event e) [
          | true ↦ ok (again f (record g2 { running = false }) rest)
          | false ↦ process_external f e g2 >>= λ (f3, g3). ok (again f3 g3 rest)
        ]
      ]
    ]

  -- The first argument is `running`: in a final state, the loop is left.
  unfoldable pub unless_stopped : Bool → Str → Fsm → Global dm.Own → List Event → Run (Next dm.Own)
  unfolding between_macrosteps
  unless_stopped true caller f g inbox = between_macrosteps caller f g inbox
  unless_stopped false caller f g inbox = ok (stopped f g)

  unfoldable pub outer_round : ℕ → Str → Fsm → Global dm.Own → List Event → Run (Next dm.Own)
  unfolding macrostep unless_stopped
  outer_round k caller f g inbox =
      macrostep k f g >>= λ (f1, g1). unless_stopped g1.running caller f1 g1 inbox

  -- What follows a round: the loop, `next`, or its end.
  unfoldable pub after_round :
      (Fsm → Global dm.Own → List Event → Run (Next dm.Own)) → Next dm.Own → Run (Next dm.Own)
  unfolding exit_interpreter
  after_round next (again f g inbox) = next f g inbox
  after_round next (waiting f g) = ok (waiting f g)
  after_round next (stopped f g) = exit_interpreter dm env f g >>= λ g1. ok (stopped f g1)

  -- The first argument is `running`.
  unfoldable pub outer_body :
      Bool
      → (Fsm → Global dm.Own → List Event → Run (Next dm.Own))
      → ℕ
      → Str
      → Fsm
      → Global dm.Own
      → List Event
      → Run (Next dm.Own)
  unfolding outer_round after_round
  outer_body true next k caller f g inbox =
      outer_round k caller f g inbox >>= λ r. after_round next r
  outer_body false next k caller f g inbox = after_round next (stopped f g)

  -- `mainEventLoop`, up to the end or to where it waits for another event.
  unfoldable pub main_event_loop :
      ℕ → ℕ → Str → Fsm → Global dm.Own → List Event → Run (Next dm.Own)
  unfolding outer_body
  main_event_loop zero k caller f g inbox = stuck
  main_event_loop (suc m) k caller f g inbox =
      outer_body g.running (main_event_loop m k caller) k caller f g inbox
