-- ===== src/Fsm/Entry/Stable.antt =====
-- What a property of the containers needs in order to survive the recursion of
-- `addDescendantStatesToEnter` of src/fsm.rs.
use ru_fsm.Common.{
  ℕ, zero, suc, true, List, [], ◌∷◌, Run, ok, nat_eq, ◌==◌, ◌≡◌, inl, inr, ◌∙◌, ap, subst, arith,
  Bool-cases, >>=-eq-ok, Option-cases,
}
use ru_fsm.Fsm.Collections.Sequence.{head, some_run}
use ru_fsm.Fsm.Collections.HashTable.{lookup}
use ru_fsm.Fsm.Model.{Id32, State, Fsm, get_state_by_id, get_transition_by_id}
use ru_fsm.Fsm.Tree.{
  is_descendant, get_proper_ancestors, is_parallel_state, is_compound_state, is_history_state,
  get_child_states,
}
use ru_fsm.Fsm.Domain.{HistoryTable, get_effective_target_states, get_transition_domain}
use ru_fsm.Fsm.Entry.{
  Entry, enter, enter_default, put_content, for_each, fill_child, fill_children, enter_ancestor,
  add_ancestor_states_to_enter, enter_targets, enter_history, enter_initial, enter_state,
  add_descendant_body, add_descendant_states_to_enter, enter_transition,
}

-- The three changes of the containers keep the property.
pub record IsStable {ℓ} (f : Fsm) (P : Entry → Type ℓ) : Type ℓ where
  pub on_enter : (s : Id32) (e : Entry) → P e → P (enter s e)
  pub on_default :
      (s : Id32) (e : Entry)
      → is_compound_state f s ≡ ok true
      → P e
      → P (enter_default s (enter s e))
  pub on_content : (s c : Id32) (e : Entry) → P e → P (put_content s c e)

-- A body that keeps the property where it returns.
abbrev pub Preserves {ℓ} : (Entry → Type ℓ) → (Id32 → Entry → Run Entry) → Type ℓ
Preserves P body = (s : Id32) (e e' : Entry) → body s e ≡ ok e' → P e → P e'

pub for_each-Preserves {ℓ} :
    (P : Entry → Type ℓ) (body : Id32 → Entry → Run Entry)
    → Preserves P body
    → (l : List Id32) (e e' : Entry) → for_each body l e ≡ ok e'
    → P e
    → P e'
unfolding for_each
for_each-Preserves P body keep [] e e' h p = let same : e ≡ e' = ground arith in subst P same p
for_each-Preserves P body keep (s ∷ l) e e' h p =
    let (m, q, r) = >>=-eq-ok (body s e) _ h in
    for_each-Preserves P body keep l m e' r (keep s e m q p)

module _ {ℓ} (n : ℕ) (f : Fsm) (P : Entry → Type ℓ) (stable : IsStable f P) where
  module _ (rec : Id32 → Entry → Run Entry) (keep : Preserves P rec) where
    fill_child-Preserves : Preserves P (fill_child rec n f)
    unfolding fill_child
    fill_child-Preserves child e e' h p =
        let (filled, q, r) = >>=-eq-ok (some_run (λ s. is_descendant n f s child) e.to_enter) _ h in
        elim (Bool-cases filled) [
          | inl full ↦ let same : e ≡ e' = ground (arith, rw full at r) in subst P same p
          | inr empty ↦ keep child e e' (rw empty at r) p
        ]

    fill_children-Preserves : Preserves P (fill_children rec n f)
    unfolding fill_children
    fill_children-Preserves s e e' h p =
        let (children, q, r) = >>=-eq-ok (get_child_states f s) _ h in
        for_each-Preserves P (fill_child rec n f) fill_child-Preserves children e e' r p

    enter_ancestor-Preserves : Preserves P (enter_ancestor rec n f)
    unfolding enter_ancestor
    enter_ancestor-Preserves anc e e' h p =
        let (parallel, q, r) = >>=-eq-ok (is_parallel_state f anc) _ h in
        elim (Bool-cases parallel) [
          | inl both ↦
              fill_children-Preserves anc (enter anc e) e' (rw both at r) (stable.on_enter anc e p)
          | inr one ↦
              let same : enter anc e ≡ e' = ground (arith, rw one at r) in
              subst P same (stable.on_enter anc e p)
        ]

    pub add_ancestor_states_to_enter-Preserves :
        (ancestor : Id32) → Preserves P (add_ancestor_states_to_enter rec n f ancestor)
    unfolding add_ancestor_states_to_enter
    add_ancestor_states_to_enter-Preserves ancestor s e e' h p =
        let (ancs, q, r) = >>=-eq-ok (get_proper_ancestors n f s ancestor) _ h in
        for_each-Preserves P (enter_ancestor rec n f) enter_ancestor-Preserves ancs e e' r p

    enter_targets-Preserves :
        (ancestor : Id32) (targets : List Id32) (e e' : Entry)
        → enter_targets rec n f ancestor targets e ≡ ok e'
        → P e
        → P e'
    unfolding enter_targets
    enter_targets-Preserves ancestor targets e e' h p =
        let (m, q, r) = >>=-eq-ok (for_each rec targets e) _ h in
        for_each-Preserves P (add_ancestor_states_to_enter rec n f ancestor)
          (add_ancestor_states_to_enter-Preserves ancestor) targets m e' r
          (for_each-Preserves P rec keep targets e m q p)

    enter_history-Preserves :
        (history : HistoryTable) (sid : Id32) (s : State) (e e' : Entry)
        → enter_history rec n f history sid s e ≡ ok e'
        → P e
        → P e'
    unfolding enter_history
    enter_history-Preserves history sid s e e' h p = elim (Option-cases (lookup history sid)) [
      | inl absent ↦
          let (tid, q, r) = >>=-eq-ok (head s.transitions) _ (rw (absent, enter_history) at h) in
          let (t, q', r') = >>=-eq-ok (get_transition_by_id f tid) _ r in
          enter_targets-Preserves s.parent t.target (put_content s.parent t.content e) e' r'
            (stable.on_content s.parent t.content e p)
      | inr (value, there) ↦
          enter_targets-Preserves s.parent value e e' (rw (there, enter_history) at h) p
    ]

    enter_initial-Preserves :
        (sid : Id32) (s : State) (e e' : Entry) → enter_initial rec n f sid s e ≡ ok e' → P e → P e'
    unfolding enter_initial
    enter_initial-Preserves sid s e e' h p = elim (Bool-cases (s.initial == 0)) [
      | inl nothing ↦
          let same : e ≡ e' = ground (arith, rw (nothing, enter_initial) at h) in subst P same p
      | inr initial ↦
          let (t, q, r) =
            >>=-eq-ok (get_transition_by_id f s.initial) _ (rw (initial, enter_initial) at h) in
          enter_targets-Preserves sid t.target e e' r p
    ]

    -- It is enough that the property holds once the state itself is in the containers.
    pub enter_state_from :
        (sid : Id32) (s : State) (e e' : Entry)
        → enter_state rec n f sid s e ≡ ok e'
        → P (enter sid e)
        → (is_compound_state f sid ≡ ok true → P (enter_default sid (enter sid e)))
        → P e'
    unfolding enter_state
    enter_state_from sid s e e' h p p' =
        let (compound, c, h1) = >>=-eq-ok (is_compound_state f sid) _ h in
        let (parallel, c', h2) = >>=-eq-ok (is_parallel_state f sid) _ h1 in
        elim (Bool-cases compound) [
          | inl x ↦
              enter_initial-Preserves sid s (enter_default sid (enter sid e)) e' (rw x at h2)
                (p' (c ∙ ap ok x))
          | inr x ↦ elim (Bool-cases parallel) [
            | inl y ↦ fill_children-Preserves sid (enter sid e) e' (rw (x, y) at h2) p
            | inr y ↦
                let same : enter sid e ≡ e' = ground (arith, rw (x, y) at h2) in subst P same p
          ]
        ]

    add_descendant_body-Preserves :
        (history : HistoryTable) → Preserves P (add_descendant_body rec n f history)
    unfolding add_descendant_body
    add_descendant_body-Preserves history sid e e' h p =
        let (s, q, h1) = >>=-eq-ok (get_state_by_id f sid) _ h in
        let (is_history, q', h2) = >>=-eq-ok (is_history_state f sid) _ h1 in
        elim (Bool-cases is_history) [
          | inl x ↦ enter_history-Preserves history sid s e e' (rw x at h2) p
          | inr x ↦
              enter_state_from sid s e e' (rw x at h2) (stable.on_enter sid e p)
                (λ c. stable.on_default sid e c p)
        ]

  pub add_descendant_states_to_enter-Preserves :
      (d : ℕ) (history : HistoryTable) → Preserves P (add_descendant_states_to_enter d n f history)
  unfolding add_descendant_states_to_enter
  add_descendant_states_to_enter-Preserves zero history s e e' h p = cc
  add_descendant_states_to_enter-Preserves (suc d) history s e e' h p =
      add_descendant_body-Preserves (add_descendant_states_to_enter d n f history)
        (add_descendant_states_to_enter-Preserves d history) history s e e' h p

  pub enter_transition-Preserves :
      (d : ℕ) (history : HistoryTable) → Preserves P (enter_transition d n f history)
  unfolding enter_transition
  enter_transition-Preserves d history tid e e' h p =
      let rec = add_descendant_states_to_enter d n f history in
      let keep = add_descendant_states_to_enter-Preserves d history in
      let (t, _, h1) = >>=-eq-ok (get_transition_by_id f tid) _ h in
      let (m, q, h2) = >>=-eq-ok (for_each rec t.target e) _ h1 in
      let (ancestor, _, h3) = >>=-eq-ok (get_transition_domain n f history t) _ h2 in
      let (targets, _, h4) = >>=-eq-ok (get_effective_target_states n f history t) _ h3 in
      for_each-Preserves P (add_ancestor_states_to_enter rec n f ancestor)
        (add_ancestor_states_to_enter-Preserves rec keep ancestor) targets m e' h4
        (for_each-Preserves P rec keep t.target e m q p)
