-- ===== src/Fsm/Loop/Macro.antt =====
-- The macrostep of `mainEventLoop` of src/fsm.rs, and the W3C's description of it as a relation: a microstep of
-- eventless transitions, or of those that the next internal event triggers, as long as there is one.
use ru_fsm.Common.{
  ok-eq-ok, ℕ, zero, suc, Bool, true, false, List, [], ◌∷◌, ok, nat_eq, ◌≡◌, ◌⊎◌, ◌↔◌, inl, inr,
  refl, sym, ◌∙◌, ap, subst, Bool-cases, >>=-eq-ok,
}
use ru_fsm.Fsm.Model.{Id32, Fsm}
use ru_fsm.Fsm.Global.{Global, Datamodel, Event}
use ru_fsm.Fsm.Environment.{Environment}
use ru_fsm.Fsm.Select.{select_eventless_transitions, select_transitions}
use ru_fsm.Fsm.Step.{microstep}
use ru_fsm.Fsm.Loop.{
  Progress, take_eventless, finish_round, take_internal, next_internal, take_enabled, inner_round,
  unless_done, inner_body, macrostep,
}

module _ (dm : Datamodel) (env : Environment dm) (n d : ℕ) where
  -- An internal step, from a running interpreter.
  pub data InternalStep : Fsm → Global dm.Own → Fsm → Global dm.Own → Type 0 where
    -- Eventless transitions are taken.
    spontaneous :
        {f f' : Fsm} {g g1 g' : Global dm.Own} {tid : Id32} {tids : List Id32}
        → g.running ≡ true
        → select_eventless_transitions dm n f g ≡ ok (tid ∷ tids, g1)
        → microstep dm n d f (tid ∷ tids) g1 ≡ ok (f', g')
        → InternalStep f g f' g'
    -- There are none, and the next internal event triggers transitions.
    triggered :
        {f f' : Fsm} {g g1 g2 g' : Global dm.Own} {tid : Id32} {tids : List Id32} {e : Event}
        {queue : List Event}
        → g.running ≡ true
        → select_eventless_transitions dm n f g ≡ ok ([], g1)
        → g1.internal_queue ≡ e ∷ queue
        → select_transitions dm n f e (env.set_event e (record g1 { internal_queue = queue }))
          ≡ ok (tid ∷ tids, g2)
        → microstep dm n d f (tid ∷ tids) g2 ≡ ok (f', g')
        → InternalStep f g f' g'
    -- There are none, and the next internal event triggers no transition.
    dropped :
        {f : Fsm} {g g1 g' : Global dm.Own} {e : Event} {queue : List Event}
        → g.running ≡ true
        → select_eventless_transitions dm n f g ≡ ok ([], g1)
        → g1.internal_queue ≡ e ∷ queue
        → select_transitions dm n f e (env.set_event e (record g1 { internal_queue = queue }))
          ≡ ok ([], g')
        → InternalStep f g f g'

  -- The internal steps that can be made, all of them.
  pub data Macrostep : Fsm → Global dm.Own → Fsm → Global dm.Own → Type 0 where
    -- The interpreter has been stopped.
    halted : {f : Fsm} {g : Global dm.Own} → g.running ≡ false → Macrostep f g f g
    -- No eventless transition is enabled, and there is no internal event.
    stable :
        {f : Fsm} {g g' : Global dm.Own}
        → g.running ≡ true
        → select_eventless_transitions dm n f g ≡ ok ([], g')
        → g'.internal_queue ≡ []
        → Macrostep f g f g'
    step :
        {f f1 f' : Fsm} {g g1 g' : Global dm.Own}
        → InternalStep f g f1 g1
        → Macrostep f1 g1 f' g'
        → Macrostep f g f' g'

  -- What a round of the inner loop does.
  Round : Fsm → Global dm.Own → Bool → Fsm → Global dm.Own → Type 0
  Round f g finished f' g' =
      ((finished ≡ true) × Macrostep f g f' g') ⊎ ((finished ≡ false) × InternalStep f g f' g')

  -- The result of a round is what the code returns.
  Round-result :
      (f : Fsm) (g : Global dm.Own) {f1 f' : Fsm} {g1 g' : Global dm.Own} {b finished : Bool}
      → (let result : Progress dm env n d = (b, f1, g1) in ok result ≡ ok (finished, f', g'))
      → Round f g b f1 g1
      → Round f g finished f' g'
  Round-result f g e r =
      subst (λ ((b, f1, g1) : Progress dm env n d). Round f g b f1 g1) (ok-eq-ok e) r

  after_selection :
      (f f' : Fsm) (g g1 g2 g' : Global dm.Own) (e : Event) (queue : List Event)
      (enabled : List Id32) (finished : Bool)
      → g.running ≡ true
      → select_eventless_transitions dm n f g ≡ ok ([], g1)
      → g1.internal_queue ≡ e ∷ queue
      → select_transitions dm n f e (env.set_event e (record g1 { internal_queue = queue }))
        ≡ ok (enabled, g2)
      → finish_round dm env n d false f enabled g2 ≡ ok (finished, f', g')
      → Round f g finished f' g'
  unfolding Round finish_round take_enabled
  after_selection f f' g g1 g2 g' e queue [] finished run p q s h =
      Round-result f g h (inr (refl, dropped run p q s))
  after_selection f f' g g1 g2 g' e queue (tid ∷ tids) finished run p q s h =
      let ((f3, g3), m, r) = >>=-eq-ok (microstep dm n d f (tid ∷ tids) g2) _ h in
      Round-result f g r (inr (refl, triggered run p q s m))

  after_eventless :
      (f f' : Fsm) (g g1 g' : Global dm.Own) (queue : List Event) (finished : Bool)
      → g.running ≡ true
      → select_eventless_transitions dm n f g ≡ ok ([], g1)
      → g1.internal_queue ≡ queue
      → next_internal dm env n d f g1 ≡ ok (finished, f', g')
      → Round f g finished f' g'
  unfolding Round next_internal take_internal
  after_eventless f f' g g1 g' [] finished run p q h =
      Round-result f g (ap (λ l. take_internal dm env n d l f g1) (sym q) ∙ h)
        (inl (refl, stable run p q))
  after_eventless f f' g g1 g' (e ∷ queue) finished run p q h =
      let ((enabled, g2), s, r) =
        >>=-eq-ok
          (select_transitions dm n f e (env.set_event e (record g1 { internal_queue = queue }))) _
          (ap (λ l. take_internal dm env n d l f g1) (sym q) ∙ h) in
      after_selection f f' g g1 g2 g' e queue enabled finished run p q s r

  after_choice :
      (f f' : Fsm) (g g1 g' : Global dm.Own) (enabled : List Id32) (finished : Bool)
      → g.running ≡ true
      → select_eventless_transitions dm n f g ≡ ok (enabled, g1)
      → take_eventless dm env n d f enabled g1 ≡ ok (finished, f', g')
      → Round f g finished f' g'
  unfolding Round take_eventless finish_round take_enabled
  after_choice f f' g g1 g' [] finished run p h =
      after_eventless f f' g g1 g' g1.internal_queue finished run p refl h
  after_choice f f' g g1 g' (tid ∷ tids) finished run p h =
      let ((f3, g3), m, r) = >>=-eq-ok (microstep dm n d f (tid ∷ tids) g1) _ h in
      Round-result f g r (inr (refl, spontaneous run p m))

  inner_round_lem :
      (f f' : Fsm) (g g' : Global dm.Own) (finished : Bool)
      → g.running ≡ true
      → inner_round dm env n d f g ≡ ok (finished, f', g')
      → Round f g finished f' g'
  unfolding inner_round
  inner_round_lem f f' g g' finished run h =
      let ((enabled, g1), p, h1) = >>=-eq-ok (select_eventless_transitions dm n f g) _ h in
      after_choice f f' g g1 g' enabled finished run p h1

  -- What the inner loop returns is a macrostep.
  macrostep-Macrostep :
      (k : ℕ) (f f' : Fsm) (g g' : Global dm.Own)
      → macrostep dm env n d k f g ≡ ok (f', g')
      → Macrostep f g f' g'
  unfolding macrostep inner_body Round unless_done
  macrostep-Macrostep zero f f' g g' h = absurd (cc)
  macrostep-Macrostep (suc k) f f' g g' h = elim (Bool-cases g.running) [
    | inl run ↦
        let body = λ (b : Bool). inner_body dm env n d b (macrostep dm env n d k) f g in
        let ((finished, f1, g1), p, q) =
          >>=-eq-ok (inner_round dm env n d f g) _ (ap body (sym run) ∙ h) in
        elim (inner_round_lem f f1 g g1 finished run p) [
          | inl (done, m) ↦
              subst (λ ((f2, g2) : Fsm × Global dm.Own). Macrostep f g f2 g2)
                (ok-eq-ok (rw (done, unless_done) at q)) m
          | inr (going, s) ↦
              step s (macrostep-Macrostep k f1 f' g1 g' (rw (going, unless_done) at q))
        ]
    | inr halt ↦
        let body = λ (b : Bool). inner_body dm env n d b (macrostep dm env n d k) f g in
        subst (λ ((f2, g2) : Fsm × Global dm.Own). Macrostep f g f2 g2)
          (ok-eq-ok (ap body (sym halt) ∙ h)) (halted halt)
  ]

  -- A step is a round of the inner loop.
  step-inner_round :
      (f f' : Fsm) (g g' : Global dm.Own)
      → InternalStep f g f' g'
      → (g.running ≡ true) × (inner_round dm env n d f g ≡ ok (false, f', g'))
  unfolding inner_round take_eventless next_internal take_internal finish_round take_enabled
  step-inner_round f f' g g' (spontaneous run p m) = (run, rw (p, m))
  step-inner_round f f' g g' (triggered {g1 = g1} run p q s m) =
      (run, rw p (ap (λ l. take_internal dm env n d l f g1) q ∙ rw (s, m)))
  step-inner_round f f' g g' (dropped {g1 = g1} run p q s) =
      (run, rw p (ap (λ l. take_internal dm env n d l f g1) q ∙ rw s))

  stable-inner_round :
      (f : Fsm) (g g' : Global dm.Own)
      → select_eventless_transitions dm n f g ≡ ok ([], g')
      → g'.internal_queue ≡ []
      → inner_round dm env n d f g ≡ ok (true, f, g')
  unfolding inner_round take_eventless next_internal take_internal
  stable-inner_round f g g' p q = rw p (ap (λ l. take_internal dm env n d l f g') q)

  Macrostep-macrostep :
      (f f' : Fsm) (g g' : Global dm.Own)
      → Macrostep f g f' g'
      → (k : ℕ) × (macrostep dm env n d k f g ≡ ok (f', g'))
  unfolding macrostep inner_body unless_done
  Macrostep-macrostep f f' g g' (halted halt) =
      (1, ap (λ (b : Bool). inner_body dm env n d b (macrostep dm env n d 0) f g) halt)
  Macrostep-macrostep f f' g g' (stable run p q) = (
    1,
    ap (λ (b : Bool). inner_body dm env n d b (macrostep dm env n d 0) f g) run
        ∙ rw (stable-inner_round f g g' p q),
  )
  Macrostep-macrostep f f' g g' (step s m) =
      let (run, p) = step-inner_round f _ g _ s in
      let (k, q) = Macrostep-macrostep _ f' _ g' m in
      (suc k, ap (λ (b : Bool). inner_body dm env n d b (macrostep dm env n d k) f g) run ∙ rw p q)

  -- With some bound on its rounds, the inner loop of `mainEventLoop` returns a document and global data just when
  -- these are reached by the W3C's internal steps, and no further step can be made from there: the interpreter
  -- was stopped, or no eventless transition is enabled and there is no internal event.
  pub macrostep_iff_Macrostep :
      (f f' : Fsm) (g g' : Global dm.Own)
      → ((k : ℕ) × (macrostep dm env n d k f g ≡ ok (f', g'))) ↔ Macrostep f g f' g'
  macrostep_iff_Macrostep f f' g g' =
      (λ (k, h). macrostep-Macrostep k f f' g g' h, Macrostep-macrostep f f' g g')
