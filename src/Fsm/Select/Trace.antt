-- ===== src/Fsm/Select/Trace.antt =====
-- The evaluations of conditions while src/fsm.rs selects transitions: `conditionMatch` as a step of the global data.
use ru_fsm.Common.{
  ℕ, Bool, true, false, ok, ◌≡◌, List, [], ◌∷◌, Bool-cases, inl, inr, >>=-eq-ok, some, none, ap,
  ◌∙◌, subst, nat_eq, Option-cases, if◌then◌else◌, ok-eq-ok,
}
use ru_fsm.Datamodel.Data
use ru_fsm.Fsm.Collections.OrderedSet.{OrderedSet}
use ru_fsm.Fsm.Model.{Id32, Transition, Fsm, get_transition_by_id}
use ru_fsm.Fsm.Global.{Global, Datamodel, error_execution, enqueue_internal}
use ru_fsm.Fsm.Select.{condition_match, first_match, select_loop, candidates}
use ru_fsm.Fsm.Tree.{get_proper_ancestors}

-- The condition of a transition has the given value on the first global data and leaves the second: a missing one
-- holds, else the datamodel is asked; its failure is false, and puts an error into the internal queue.
pub data Evaluates (dm : Datamodel) (t : Transition)
    : Global dm.Own → Bool → Global dm.Own → Type 0 where
  unconditional : {g : Global dm.Own} → Data.is_empty t.cond ≡ true → Evaluates dm t g true g
  answered :
      {g g' : Global dm.Own} {b : Bool}
      → Data.is_empty t.cond ≡ false
      → dm.execute_condition t.cond g ≡ (some b, g')
      → Evaluates dm t g b g'
  failed :
      {g g' : Global dm.Own}
      → Data.is_empty t.cond ≡ false
      → dm.execute_condition t.cond g ≡ (none, g')
      → Evaluates dm t g false (enqueue_internal error_execution g')

-- Conditions of transitions are evaluated one after the other, from the first global data to the second.
pub data Asked (dm : Datamodel) (f : Fsm) (g : Global dm.Own) : Global dm.Own → Type 0 where
  start : Asked dm f g g
  ask :
      {h h' : Global dm.Own} (tid : Id32) {t : Transition} {b : Bool}
      → Asked dm f g h
      → get_transition_by_id f tid ≡ ok t
      → Evaluates dm t h b h'
      → Asked dm f g h'

pub Asked-trans :
    {dm : Datamodel} {f : Fsm} {g h k : Global dm.Own}
    → Asked dm f g h
    → Asked dm f h k
    → Asked dm f g k
Asked-trans a start = a
Asked-trans a (ask tid b e s) = ask tid (Asked-trans a b) e s

module _ (dm : Datamodel) (n : ℕ) (f : Fsm) where
  pair_parts : {A B : Type 0} (p q : A × B) → p ≡ q → (p.0 ≡ q.0) × (p.1 ≡ q.1)
  pair_parts p q h = (ap (λ x. x.0) h, ap (λ x. x.1) h)

  abbrev evaluated : Transition → Global dm.Own → Bool × Global dm.Own
  evaluated t g =
      if Data.is_empty t.cond then (true, g) else elim (dm.execute_condition t.cond g).0 [
        | some v ↦ (v, (dm.execute_condition t.cond g).1)
        | none ↦ (false, enqueue_internal error_execution (dm.execute_condition t.cond g).1)
      ]

  condition_Evaluates :
      (t : Transition) (g g' : Global dm.Own) (b : Bool)
      → evaluated t g ≡ (b, g')
      → Evaluates dm t g b g'
  condition_Evaluates t g g' b h = elim (Bool-cases (Data.is_empty t.cond)) [
    | inl none_given ↦
        let (yes_, here) = pair_parts (true, g) (b, g') (rw none_given at h) in
        subst (λ c. Evaluates dm t g c g') yes_
          (subst (λ k. Evaluates dm t g true k) here (unconditional none_given))
    | inr given ↦ elim (Option-cases (dm.execute_condition t.cond g).0) [
      | inl gone ↦
          let own = dm.execute_condition t.cond g in
          let (no_, here) =
            pair_parts (false, enqueue_internal error_execution own.1) (b, g')
              (rw gone at (rw given at h)) in
          subst (λ c. Evaluates dm t g c g') no_
            (subst (λ k. Evaluates dm t g false k) here (failed given (ap (λ o. (o, own.1)) gone)))
      | inr (v, said) ↦
          let own = dm.execute_condition t.cond g in
          let (same, here) = pair_parts (v, own.1) (b, g') (rw said at (rw given at h)) in
          answered given (
            ap (λ o. (o, own.1)) said ∙ ap (λ c. (some c, own.1)) same ∙ ap (λ k. (some b, k)) here)
    ]
  ]

  pub condition_match-Evaluates :
      (tid : Id32) (g g' : Global dm.Own) (b : Bool)
      → condition_match dm n f tid g ≡ ok (b, g')
      → (t : Transition) × (get_transition_by_id f tid ≡ ok t) × Evaluates dm t g b g'
  unfolding condition_match
  condition_match-Evaluates tid g g' b h =
      let (t, found, q) = >>=-eq-ok (get_transition_by_id f tid) _ h in
      (t, found, condition_Evaluates t g g' b (ok-eq-ok q))

  -- The first transition of the list whose condition holds is added, if there is one.
  pub first_match-Asked :
      (cts : List Id32) (enabled enabled' : OrderedSet Id32) (g g' : Global dm.Own)
      → first_match dm n f cts enabled g ≡ ok (enabled', g')
      → Asked dm f g g'
  unfolding first_match
  first_match-Asked [] enabled enabled' g g' h =
      subst (Asked dm f g) (ap (λ p. p.1) (ok-eq-ok h)) start
  first_match-Asked (ct ∷ cts) enabled enabled' g g' h =
      let ((holds, g1), p, q) = >>=-eq-ok (condition_match dm n f ct g) _ h in
      let (t, found, e) = condition_match-Evaluates ct g g1 holds p in
      let first : Asked dm f g g1 = ask ct start found e in
      elim (Bool-cases holds) [
        | inl yes_ ↦ subst (Asked dm f g) (ap (λ p. p.1) (ok-eq-ok (rw yes_ at q))) first
        | inr no_ ↦ Asked-trans first (first_match-Asked cts enabled enabled' g1 g' (rw no_ at q))
      ]

  pub select_loop-Asked :
      (test : Transition → Bool) (sids : List Id32) (enabled enabled' : OrderedSet Id32)
      (g g' : Global dm.Own)
      → select_loop dm n f test sids enabled g ≡ ok (enabled', g')
      → Asked dm f g g'
  unfolding select_loop
  select_loop-Asked test [] enabled enabled' g g' h =
      subst (Asked dm f g) (ap (λ p. p.1) (ok-eq-ok h)) start
  select_loop-Asked test (s ∷ sids) enabled enabled' g g' h =
      let (ancestors, p1, h1) = >>=-eq-ok (get_proper_ancestors n f s 0) _ h in
      let (cts, p2, h2) = >>=-eq-ok (candidates f test (s ∷ ancestors)) _ h1 in
      let ((enabled1, g1), p3, h3) = >>=-eq-ok (first_match dm n f cts enabled g) _ h2 in
      Asked-trans (first_match-Asked cts enabled enabled1 g g1 p3)
        (select_loop-Asked test sids enabled1 enabled' g1 g' h3)
