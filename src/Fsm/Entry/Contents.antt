-- ===== src/Fsm/Entry/Contents.antt =====
-- What `computeEntrySet` of src/fsm.rs collects.
use ru_fsm.Common.{
  ℕ, zero, suc, true, false, List, [], ◌∷◌, ok, nat_eq, ◌==◌, ◌≡◌, inl, inr, subst, arith,
  Bool-cases, >>=-eq-ok, nat_beq_iff,
}
use ru_fsm.Fsm.Collections.Sequence.{contains}
use ru_fsm.Fsm.Collections.OrderedSet.Laws.{Unique, contains-add, Unique-add}
use ru_fsm.Fsm.Model.{Id32, Transition, Fsm, get_state_by_id, get_transition_by_id}
use ru_fsm.Fsm.Tree.{is_compound_state, is_history_state}
use ru_fsm.Fsm.Domain.{HistoryTable, get_effective_target_states, get_transition_domain}
use ru_fsm.Fsm.Entry.{
  Entry, enter, enter_default, put_content, for_each, add_ancestor_states_to_enter,
  add_descendant_body, add_descendant_states_to_enter, enter_transition, nothing_to_enter,
  compute_entry_set,
}
use ru_fsm.Fsm.Entry.Stable.{
  IsStable, for_each-Preserves, add_ancestor_states_to_enter-Preserves, enter_state_from,
  add_descendant_states_to_enter-Preserves, enter_transition-Preserves,
}

-- No state is entered twice, and the states that are entered by default are compound and are entered.
abbrev pub IsEntry : Fsm → Entry → Type 0
IsEntry f e =
    Unique e.to_enter
    × ((s : Id32)
        → contains e.default_entry s ≡ true
        → (contains e.to_enter s ≡ true) × (is_compound_state f s ≡ ok true))

IsEntry-IsStable : (f : Fsm) → IsStable f (IsEntry f)
unfolding enter enter_default put_content
IsEntry-IsStable f = record {
  on_enter = λ s e (u, d). (
    Unique-add e.to_enter s u,
    λ x m. let (k, c) = d x m in (ground (arith, contains-add e.to_enter s x), c),
  );
  on_default = λ s e compound (u, d). (
    Unique-add e.to_enter s u,
    λ x m. elim (Bool-cases (contains e.default_entry x)) [
      | inl old ↦ let (k, c) = d x old in (ground (arith, contains-add e.to_enter s x), c)
      | inr new ↦
          let same : s ≡ x = ground (arith, contains-add e.default_entry s x, nat_beq_iff s x) in
          (
            ground (arith, contains-add e.to_enter s x, nat_beq_iff s x),
            subst (λ y. is_compound_state f y ≡ ok true) same compound,
          )
    ],
  );
  on_content = λ s c e p. p;
}

-- The property that a given state is entered.
abbrev IsEntered : Id32 → Entry → Type 0
IsEntered x e = contains e.to_enter x ≡ true

IsEntered-IsStable : (f : Fsm) (x : Id32) → IsStable f (IsEntered x)
unfolding enter enter_default put_content
IsEntered-IsStable f x = record {
  on_enter = λ s e p. ground (arith, contains-add e.to_enter s x);
  on_default = λ s e _ p. ground (arith, contains-add e.to_enter s x);
  on_content = λ s c e p. p;
}

enter-IsEntered : (s : Id32) (e : Entry) → IsEntered s (enter s e)
unfolding enter
enter-IsEntered s e = ground (arith, contains-add e.to_enter s s, nat_beq_iff s s)

enter_default-IsEntered : (s : Id32) (e : Entry) → IsEntered s (enter_default s (enter s e))
unfolding enter_default
enter_default-IsEntered s e = enter-IsEntered s e

module _ (n : ℕ) (f : Fsm) (history : HistoryTable) where
  -- A state that is no history state is itself entered.
  add_descendant_enters :
      (d : ℕ) (s : Id32) (e e' : Entry)
      → is_history_state f s ≡ ok false
      → add_descendant_states_to_enter d n f history s e ≡ ok e'
      → IsEntered s e'
  unfolding add_descendant_states_to_enter add_descendant_body
  add_descendant_enters zero s e e' x h = cc
  add_descendant_enters (suc d) s e e' x h =
      let rec = add_descendant_states_to_enter d n f history in
      let (st, q, h1) = >>=-eq-ok (get_state_by_id f s) _ h in
      let (b, q', h2) = >>=-eq-ok (is_history_state f s) _ h1 in
      let no_history : b ≡ false = ground arith in
      enter_state_from n f (IsEntered s) (IsEntered-IsStable f s) rec
        (add_descendant_states_to_enter-Preserves n f (IsEntered s) (IsEntered-IsStable f s) d
          history)
        s st e e' (rw no_history at h2) (enter-IsEntered s e) (λ _. enter_default-IsEntered s e)

  for_each_enters :
      (d : ℕ) (l : List Id32) (s : Id32) (e e' : Entry)
      → contains l s ≡ true
      → is_history_state f s ≡ ok false
      → for_each (add_descendant_states_to_enter d n f history) l e ≡ ok e'
      → IsEntered s e'
  unfolding for_each contains
  for_each_enters d [] s e e' m x h = cc
  for_each_enters d (t ∷ l) s e e' m x h =
      let rec = add_descendant_states_to_enter d n f history in
      let (e1, p, q) = >>=-eq-ok (rec t e) _ h in
      elim (Bool-cases (t == s)) [
        | inl same ↦
            let p' = subst (λ y. rec y e ≡ ok e1) ((nat_beq_iff t s).0 same) p in
            for_each-Preserves (IsEntered s) rec
              (add_descendant_states_to_enter-Preserves n f (IsEntered s) (IsEntered-IsStable f s) d
                history)
              l e1 e' q (add_descendant_enters d s e e1 x p')
        | inr other ↦ for_each_enters d l s e1 e' (ground arith) x q
      ]

  enter_transition_enters :
      (d : ℕ) (tid : Id32) (t : Transition) (s : Id32) (e e' : Entry)
      → get_transition_by_id f tid ≡ ok t
      → contains t.target s ≡ true
      → is_history_state f s ≡ ok false
      → enter_transition d n f history tid e ≡ ok e'
      → IsEntered s e'
  unfolding enter_transition
  enter_transition_enters d tid t s e e' g m x h =
      let rec = add_descendant_states_to_enter d n f history in
      let keep =
        add_descendant_states_to_enter-Preserves n f (IsEntered s) (IsEntered-IsStable f s) d
          history in
      let (t', g', h1) = >>=-eq-ok (get_transition_by_id f tid) _ h in
      let same : t ≡ t' = ground arith in
      let (e1, q, h2) = >>=-eq-ok (for_each rec t'.target e) _ h1 in
      let (ancestor, _, h3) = >>=-eq-ok (get_transition_domain n f history t') _ h2 in
      let (targets, _, h4) = >>=-eq-ok (get_effective_target_states n f history t') _ h3 in
      for_each-Preserves (IsEntered s) (add_ancestor_states_to_enter rec n f ancestor)
        (add_ancestor_states_to_enter-Preserves n f (IsEntered s) (IsEntered-IsStable f s) rec keep
          ancestor)
        targets e1 e' h4
        (for_each_enters d t'.target s e e1
          (subst (λ (u : Transition). contains u.target s ≡ true) same m) x q)

  loop_enters :
      (d : ℕ) (tids : List Id32) (tid : Id32) (t : Transition) (s : Id32) (e e' : Entry)
      → contains tids tid ≡ true
      → get_transition_by_id f tid ≡ ok t
      → contains t.target s ≡ true
      → is_history_state f s ≡ ok false
      → for_each (enter_transition d n f history) tids e ≡ ok e'
      → IsEntered s e'
  unfolding for_each contains
  loop_enters d [] tid t s e e' i g m x h = cc
  loop_enters d (a ∷ l) tid t s e e' i g m x h =
      let round = enter_transition d n f history in
      let (e1, p, q) = >>=-eq-ok (round a e) _ h in
      elim (Bool-cases (a == tid)) [
        | inl same ↦
            let p' = subst (λ y. round y e ≡ ok e1) ((nat_beq_iff a tid).0 same) p in
            for_each-Preserves (IsEntered s) round
              (enter_transition-Preserves n f (IsEntered s) (IsEntered-IsStable f s) d history) l e1
              e' q (enter_transition_enters d tid t s e e1 g m x p')
        | inr other ↦ loop_enters d l tid t s e1 e' (ground arith) g m x q
      ]

  pub compute_entry_set-IsEntry :
      (d : ℕ) (transitions : List Id32) (e : Entry)
      → compute_entry_set d n f history transitions ≡ ok e
      → IsEntry f e
  unfolding compute_entry_set nothing_to_enter contains
  compute_entry_set-IsEntry d transitions e h =
      for_each-Preserves (IsEntry f) (enter_transition d n f history)
        (enter_transition-Preserves n f (IsEntry f) (IsEntry-IsStable f) d history) transitions
        nothing_to_enter e h (tt, λ s m. cc)

  -- Where `computeEntrySet` returns, a target of one of the transitions that is no history state is
  -- entered.
  pub compute_entry_set_targets :
      (d : ℕ) (transitions : List Id32) (tid : Id32) (t : Transition) (s : Id32) (e : Entry)
      → compute_entry_set d n f history transitions ≡ ok e
      → contains transitions tid ≡ true
      → get_transition_by_id f tid ≡ ok t
      → contains t.target s ≡ true
      → is_history_state f s ≡ ok false
      → contains e.to_enter s ≡ true
  unfolding compute_entry_set
  compute_entry_set_targets d transitions tid t s e h i g m x =
      loop_enters d transitions tid t s nothing_to_enter e i g m x h

  -- Where `computeEntrySet` returns, no state is twice among the states to enter.
  pub compute_entry_set-Unique :
      (d : ℕ) (transitions : List Id32) (e : Entry)
      → compute_entry_set d n f history transitions ≡ ok e
      → Unique e.to_enter
  compute_entry_set-Unique d transitions e h = (compute_entry_set-IsEntry d transitions e h).0

  -- Where `computeEntrySet` returns, a state for default entry is a compound state and is entered.
  pub compute_entry_set_default :
      (d : ℕ) (transitions : List Id32) (e : Entry) (s : Id32)
      → compute_entry_set d n f history transitions ≡ ok e
      → contains e.default_entry s ≡ true
      → (contains e.to_enter s ≡ true) × (is_compound_state f s ≡ ok true)
  compute_entry_set_default d transitions e s h = (compute_entry_set-IsEntry d transitions e h).1 s
