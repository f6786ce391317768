-- ===== src/Fsm/Domain/Covers.antt =====
-- `getTransitionDomain`: the domain lies above all that the transition targets.
use ru_fsm.Common.{
  ℕ, true, false, [], ◌∷◌, ok, nat_eq, ◌==◌, ◌≡◌, ◌⊎◌, inl, inr, ◌∙◌, ap, subst, arith, Bool-cases,
  >>=-eq-ok,
}
use ru_fsm.Fsm.Collections.Sequence.{append}
use ru_fsm.Fsm.Collections.Sequence.Membership.{append_lem}
use ru_fsm.Fsm.Collections.OrderedSet.{OrderedSet, is_empty}
use ru_fsm.Fsm.Model.{Id32, Transition, Fsm}
use ru_fsm.Fsm.Tree.{is_compound_state, is_compound_state_or_scxml_element, find_lcca}
use ru_fsm.Fsm.Tree.Ancestry.{Ancestor, IsTree}
use ru_fsm.Fsm.Tree.Lcca.{AllExist, CommonAncestor, every_CommonAncestor, find_lcca_correct}
use ru_fsm.Fsm.Domain.{
  HistoryTable, get_effective_target_states, stays_inside, get_transition_domain, is_internal,
}

compound_or_root :
    (f : Fsm) (s : Id32)
    → is_compound_state f s ≡ ok true
    → is_compound_state_or_scxml_element f s ≡ ok true
unfolding is_compound_state_or_scxml_element
compound_or_root f s h = elim (Bool-cases (s == f.pseudo_root)) [ inl p ↦ rw p | inr p ↦ rw p h ]

stays_inside-true :
    (n : ℕ) (f : Fsm) (t : Transition) (tstates : OrderedSet Id32)
    → IsTree n f
    → stays_inside n f t tstates ≡ ok true
    → (is_compound_state f t.source ≡ ok true) × CommonAncestor f t.source tstates
unfolding stays_inside
stays_inside-true n f t tstates tree h = elim (Bool-cases (is_internal t.transition_type)) [
  | inr external ↦ cc (rw external at h)
  | inl internal ↦
      let (compound, p, q) = >>=-eq-ok (is_compound_state f t.source) _ (rw internal at h) in
      elim (Bool-cases compound) [
        | inl y ↦ (p ∙ ap ok y, every_CommonAncestor n f tree t.source tstates (rw y at q))
        | inr z ↦ cc (rw z at q)
      ]
]

-- In a tree where the source and the effective targets exist and lie below the root, and there is an
-- effective target, `getTransitionDomain` returns a compound state or the root; every effective
-- target lies below it, and so does the source, unless the source itself is the domain.
pub get_transition_domain_covers :
    (n : ℕ) (f : Fsm) (history : HistoryTable) (t : Transition) (tstates : OrderedSet Id32)
    (d : Id32)
    → IsTree n f
    → get_effective_target_states n f history t ≡ ok tstates
    → is_empty tstates ≡ false
    → AllExist f (t.source ∷ tstates)
    → CommonAncestor f f.pseudo_root (t.source ∷ tstates)
    → get_transition_domain n f history t ≡ ok d
    → (is_compound_state_or_scxml_element f d ≡ ok true)
      × CommonAncestor f d tstates
      × ((t.source ≡ d) ⊎ Ancestor f d t.source)
unfolding get_transition_domain
get_transition_domain_covers n f history t tstates d tree e ne ex root h =
    let (inside, p, q) = >>=-eq-ok (stays_inside n f t tstates) _ (rw (e, ne) at h) in
    elim (Bool-cases inside) [
      | inl y ↦
          let same : t.source ≡ d = ground arith in
          let (compound, common) = stays_inside-true n f t tstates tree (p ∙ ap ok y) in
          (
            subst (λ c. is_compound_state_or_scxml_element f c ≡ ok true) same
                (compound_or_root f t.source compound),
            subst (λ c. CommonAncestor f c tstates) same common,
            inl same,
          )
      | inr z ↦
          let (r, found, compound, common, _) =
            find_lcca_correct n f t.source tstates tree ex root in
          let w : find_lcca n f (append (t.source ∷ []) tstates) ≡ ok d = rw z at q in
          let same : r ≡ d =
            ground
              (arith, subst (λ l. find_lcca n f l ≡ ok d) (append_lem (t.source ∷ []) tstates) w) in
          (
            subst (λ c. is_compound_state_or_scxml_element f c ≡ ok true) same compound,
            subst (λ c. CommonAncestor f c tstates) same common.1,
            inr (subst (λ c. Ancestor f c t.source) same common.0),
          )
    ]
