-- ===== src/Fsm/Select/Chosen.antt =====
-- What the selection of transitions in src/fsm.rs adds to the enabled transitions, with the evaluations of
-- conditions it makes meanwhile.
use ru_fsm.Common.{
  ok-eq-ok, ◌==◌, ℕ, Bool, true, List, [], ◌∷◌, ok, nat_eq, ◌≡◌, ◌⊎◌, inl, inr, sym, ap, subst,
  arith, Bool-cases, >>=-eq-ok, nat_beq_iff,
}
use ru_fsm.Fsm.Collections.Sequence.{contains}
use ru_fsm.Fsm.Collections.OrderedSet.{OrderedSet, add}
use ru_fsm.Fsm.Collections.OrderedSet.Laws.{Unique, contains-add, Unique-add}
use ru_fsm.Fsm.Model.{Id32, Transition, Fsm}
use ru_fsm.Fsm.Tree.{get_proper_ancestors}
use ru_fsm.Fsm.Global.{Global, Datamodel}
use ru_fsm.Fsm.Tree.Ancestry.{Ancestor}
use ru_fsm.Fsm.Select.Holders.{Has, candidates-Has, get_proper_ancestors-Ancestor}
use ru_fsm.Fsm.Select.Trace.{
  Evaluates, Asked, ask, Asked-trans, start, condition_match-Evaluates, first_match-Asked,
  select_loop-Asked,
}
use ru_fsm.Fsm.Model.{get_transition_by_id}
use ru_fsm.Fsm.Select.{candidates, condition_match, first_match, select_loop}

-- The condition of the transition found by the id held in the run from `g` to `g'`: it was evaluated to true
-- behind some evaluations, and others follow.
pub record Held (dm : Datamodel) (f : Fsm) (g g' : Global dm.Own) (tid : Id32) : Type 0 where
  pub at : Global dm.Own
  pub behind : Global dm.Own
  pub transition : Transition
  pub before : Asked dm f g at
  pub found : get_transition_by_id f tid ≡ ok transition
  pub held : Evaluates dm transition at true behind
  pub after : Asked dm f behind g'

-- The state or one of its ancestors has a transition of the id which `Fires`, and its condition held in the run.
abbrev pub Chosen :
    (dm : Datamodel)
    → Fsm
    → (Transition → Type 0)
    → Global dm.Own
    → Global dm.Own
    → Id32
    → Id32
    → Type 0
Chosen dm f Fires g g' s tid =
    ((holder : Id32) × (t : Transition) × ((s ≡ holder) ⊎ Ancestor f holder s)
      × Has f holder t
      × (t.id ≡ tid)
      × Fires t
      × Held dm f g g' tid)

module _ (dm : Datamodel) (n : ℕ) (f : Fsm) where
  Held-before :
      {g g1 g' : Global dm.Own} {tid : Id32}
      → Asked dm f g g1
      → Held dm f g1 g' tid
      → Held dm f g g' tid
  Held-before a c = record {
    at = c.at;
    behind = c.behind;
    transition = c.transition;
    before = Asked-trans a c.before;
    found = c.found;
    held = c.held;
    after = c.after;
  }

  Held-after :
      {g g1 g' : Global dm.Own} {tid : Id32}
      → Held dm f g g1 tid
      → Asked dm f g1 g'
      → Held dm f g g' tid
  Held-after c a = record {
    at = c.at;
    behind = c.behind;
    transition = c.transition;
    before = c.before;
    found = c.found;
    held = c.held;
    after = Asked-trans c.after a;
  }

  first_match_lem :
      (cts : List Id32) (enabled enabled' : OrderedSet Id32) (g g' : Global dm.Own)
      → first_match dm n f cts enabled g ≡ ok (enabled', g')
      → (enabled' ≡ enabled)
        ⊎ ((tid : Id32) × (enabled' ≡ add enabled tid)
            × (contains cts tid ≡ true)
            × Held dm f g g' tid)
  unfolding first_match contains
  first_match_lem [] enabled enabled' g g' h = inl (ground arith)
  first_match_lem (ct ∷ cts) enabled enabled' g g' h =
      let ((holds, g1), p, q) = >>=-eq-ok (condition_match dm n f ct g) _ h in
      let (t, found, e) = condition_match-Evaluates dm n f ct g g1 holds p in
      elim (Bool-cases holds) [
        | inl yes_ ↦
            let r = rw yes_ at q in
            let here : g1 ≡ g' = ap (λ x. x.1) (ok-eq-ok r) in
            inr (
              ct,
              ground arith,
              ground (arith, nat_beq_iff ct ct),
              subst (λ k. Held dm f g k ct) here
                  (record {
                    at = g;
                    behind = g1;
                    transition = t;
                    before = start;
                    found = found;
                    held = subst (λ b. Evaluates dm t g b g1) yes_ e;
                    after = start;
                  }),
            )
        | inr no_ ↦ elim (first_match_lem cts enabled enabled' g1 g' (rw no_ at q)) [
          | inl same ↦ inl same
          | inr (tid, a, m, c) ↦ inr (tid, a, ground arith, Held-before (ask ct start found e) c)
        ]
      ]

  Chosen-first :
      (test : Transition → Bool) (s : Id32) (ancestors : OrderedSet Id32) (cts : List Id32)
      (g g' : Global dm.Own) (tid : Id32)
      → get_proper_ancestors n f s 0 ≡ ok ancestors
      → candidates f test (s ∷ ancestors) ≡ ok cts
      → contains cts tid ≡ true
      → Held dm f g g' tid
      → Chosen dm f (λ t. test t ≡ true) g g' s tid
  unfolding contains
  Chosen-first test s ancestors cts g g' tid p1 p2 m c =
      let (holder, t, above, has, e, passes) = candidates-Has f test (s ∷ ancestors) cts tid p2 m in
      elim (Bool-cases (s == holder)) [
        | inl hit ↦ (holder, t, inl ((nat_beq_iff s holder).0 hit), has, e, passes, c)
        | inr miss ↦ (
          holder,
          t,
          inr (get_proper_ancestors-Ancestor n f s ancestors holder p1 (ground arith)),
          has,
          e,
          passes,
          c,
        )
      ]

  Chosen-before :
      {Fires : Transition → Type 0} {g g1 g' : Global dm.Own} {s tid : Id32}
      → Asked dm f g g1
      → Chosen dm f Fires g1 g' s tid
      → Chosen dm f Fires g g' s tid
  Chosen-before a (holder, t, above, has, e, passes, c) =
      (holder, t, above, has, e, passes, Held-before a c)

  pub select_loop_lem :
      (test : Transition → Bool) (sids : List Id32) (enabled enabled' : OrderedSet Id32)
      (g g' : Global dm.Own)
      → select_loop dm n f test sids enabled g ≡ ok (enabled', g')
      → Unique enabled
      → Unique enabled'
        × ((tid : Id32)
            → contains enabled' tid ≡ true
            → (contains enabled tid ≡ true)
              ⊎ ((s : Id32) × (contains sids s ≡ true)
                  × Chosen dm f (λ t. test t ≡ true) g g' s tid))
  unfolding select_loop contains
  select_loop_lem test [] enabled enabled' g g' h u =
      let same : enabled ≡ enabled' = ground arith in
      (subst Unique same u, λ tid m. inl (subst (λ l. contains l tid ≡ true) (sym same) m))
  select_loop_lem test (s ∷ sids) enabled enabled' g g' h u =
      let (ancestors, p1, h1) = >>=-eq-ok (get_proper_ancestors n f s 0) _ h in
      let (cts, p2, h2) = >>=-eq-ok (candidates f test (s ∷ ancestors)) _ h1 in
      let ((enabled1, g1), p3, h3) = >>=-eq-ok (first_match dm n f cts enabled g) _ h2 in
      let asked = first_match-Asked dm n f cts enabled enabled1 g g1 p3 in
      let rest = select_loop-Asked dm n f test sids enabled1 enabled' g1 g' h3 in
      elim (first_match_lem cts enabled enabled1 g g1 p3) [
        | inl same ↦
            let (u', w) =
              select_loop_lem test sids enabled1 enabled' g1 g' h3 (subst Unique (sym same) u) in
            (
              u',
              λ tid m. elim (w tid m) [
                | inl old ↦ inl (subst (λ l. contains l tid ≡ true) same old)
                | inr (s', k, c) ↦ inr (s', ground arith, Chosen-before asked c)
              ],
            )
        | inr (tid1, e, m1, c1) ↦
            let (u', w) =
              select_loop_lem test sids enabled1 enabled' g1 g' h3
                (subst Unique (sym e) (Unique-add enabled tid1 u)) in
            (
              u',
              λ tid m. elim (w tid m) [
                | inl old ↦
                    let here : contains (add enabled tid1) tid ≡ true =
                      subst (λ l. contains l tid ≡ true) e old in
                    elim (Bool-cases (contains enabled tid)) [
                      | inl before ↦ inl before
                      | inr new ↦
                          let same : tid1 ≡ tid =
                            ground (arith, contains-add enabled tid1 tid, nat_beq_iff tid1 tid) in
                          inr (
                            s,
                            ground (arith, nat_beq_iff s s),
                            subst (Chosen dm f _ g g' s) same (
                                Chosen-first test s ancestors cts g g' tid1 p1 p2 m1
                                  (Held-after c1 rest)),
                          )
                    ]
                | inr (s', k, c) ↦ inr (s', ground arith, Chosen-before asked c)
              ],
            )
      ]

  pub Chosen-fires :
      {Fires Others : Transition → Type 0} {g g' : Global dm.Own} {s tid : Id32}
      → ((t : Transition) → Fires t → Others t)
      → Chosen dm f Fires g g' s tid
      → Chosen dm f Others g g' s tid
  Chosen-fires k (holder, t, above, has, e, passes, c) = (holder, t, above, has, e, k t passes, c)
