-- ===== src/Fsm/Domain/ExitSet.antt =====
-- `computeExitSet` against its description.
use ru_fsm.Common.{
  ℕ, true, false, List, [], ◌∷◌, ok, nat_eq, ◌==◌, ◌≡◌, ◌⊎◌, ◌↔◌, inl, inr, sym, ap, subst, arith,
  Bool-cases, >>=-eq-ok, nat_beq_iff,
}
use ru_fsm.Fsm.Collections.Sequence.{contains}
use ru_fsm.Fsm.Collections.Sequence.Fallible.{contains-filter_run}
use ru_fsm.Fsm.Collections.OrderedSet.{OrderedSet, add_all, is_empty}
use ru_fsm.Fsm.Collections.OrderedSet.Laws.{Unique, contains-add_all, Unique-add_all}
use ru_fsm.Fsm.Model.{Id32, Transition, Fsm, get_transition_by_id}
use ru_fsm.Fsm.Tree.{is_descendant}
use ru_fsm.Fsm.Tree.Ancestry.{
  Ancestor, IsTree, Exists, is_descendant_correct, Ancestor-of_is_descendant,
}
use ru_fsm.Fsm.Domain.{HistoryTable, get_transition_domain, exit_of, exit_loop, compute_exit_set}

module _ (n : ℕ) (f : Fsm) (configuration : OrderedSet Id32) (history : HistoryTable) where
  -- The transition has a target, and the state is active and lies below the transition's domain.
  abbrev pub Exits : Id32 → Id32 → Type 0
  Exits tid s =
      (t : Transition) × (get_transition_by_id f tid ≡ ok t)
      × (is_empty t.target ≡ false)
      × (d : Id32) × (get_transition_domain n f history t ≡ ok d)
      × (contains configuration s ≡ true)
      × Ancestor f d s

  exit_of_mem :
      (tid : Id32) (l : List Id32) (s : Id32)
      → IsTree n f
      → ((a : Id32) → contains configuration a ≡ true → Exists f a)
      → exit_of n f configuration history tid ≡ ok l
      → (contains l s ≡ true) ↔ Exits tid s
  unfolding exit_of
  exit_of_mem tid l s tree ex h =
      let (t, g, q) = >>=-eq-ok (get_transition_by_id f tid) _ h in
      elim (Bool-cases (is_empty t.target)) [
        | inl none_at_all ↦
            let same : [] ≡ l = ground arith in
            (
              λ m. unfold contains in cc (subst (λ k. contains k s ≡ true) (sym same) m),
              λ (t', g', some_target, _, _, _, _).
                  let e : t ≡ t' = ground arith in
                  cc (ap (λ (u : Transition). is_empty u.target) e),
            )
        | inr targets ↦
            let (d, dom, r) = >>=-eq-ok (get_transition_domain n f history t) _ (rw targets at q) in
            let members = contains-filter_run (λ a. is_descendant n f a d) configuration l s r in
            (
              λ m.
                  let (c, below) = members.0 m in
                  (t, g, targets, d, dom, c, Ancestor-of_is_descendant n f s d below),
              λ (t', g', _, d', dom', c, above).
                  let e : t ≡ t' = ground arith in
                  let same : d' ≡ d = ground (
                    arith,
                    subst (λ u. get_transition_domain n f history u ≡ ok d') (sym e) dom',
                  ) in
                  members.1 (
                    c,
                    (is_descendant_correct n f s d tree (ex s c)).1
                        (subst (λ b. Ancestor f b s) same above),
                  ),
            )
      ]

  exit_loop_mem :
      (tids : List Id32) (set l : OrderedSet Id32) (s : Id32)
      → IsTree n f
      → ((a : Id32) → contains configuration a ≡ true → Exists f a)
      → exit_loop n f configuration history tids set ≡ ok l
      → (contains l s ≡ true)
        ↔ ((contains set s ≡ true) ⊎ ((tid : Id32) × (contains tids tid ≡ true) × Exits tid s))
  unfolding exit_loop contains
  exit_loop_mem [] set l s tree ex h =
      let same : set ≡ l = ground arith in
      (λ m. inl (rw same m), λ e. elim e [ inl m ↦ rw (← same) m | inr (tid, m, _) ↦ cc ])
  exit_loop_mem (x ∷ tids) set l s tree ex h =
      let (states, p, q) = >>=-eq-ok (exit_of n f configuration history x) _ h in
      let one = exit_of_mem x states s tree ex p in
      let rest = exit_loop_mem tids (add_all set states) l s tree ex q in
      let members = contains-add_all set states s in
      (
        λ m. elim (rest.0 m) [
          | inr (tid, k, w) ↦ inr (tid, ground arith, w)
          | inl k ↦ elim (Bool-cases (contains set s)) [
            | inl old ↦ inl old
            | inr new ↦ inr (x, ground (arith, nat_beq_iff x x), one.0 (ground arith))
          ]
        ],
        λ e. elim e [
          | inl old ↦ rest.1 (inl (ground arith))
          | inr (tid, k, w) ↦ elim (Bool-cases (x == tid)) [
            | inl same ↦
                let new = one.1 (subst (λ b. Exits b s) (sym ((nat_beq_iff x tid).0 same)) w) in
                rest.1 (inl (ground arith))
            | inr other ↦ rest.1 (inr (tid, ground arith, w))
          ]
        ],
      )

  exit_loop-Unique :
      (tids : List Id32) (set l : OrderedSet Id32)
      → Unique set
      → exit_loop n f configuration history tids set ≡ ok l
      → Unique l
  unfolding exit_loop
  exit_loop-Unique [] set l u h = let same : set ≡ l = ground arith in subst Unique same u
  exit_loop-Unique (x ∷ tids) set l u h =
      let (states, p, q) = >>=-eq-ok (exit_of n f configuration history x) _ h in
      exit_loop-Unique tids (add_all set states) l (Unique-add_all set states u) q

  pub compute_exit_set_correct :
      (transitions l : OrderedSet Id32)
      → IsTree n f
      → ((a : Id32) → contains configuration a ≡ true → Exists f a)
      → compute_exit_set n f configuration history transitions ≡ ok l
      → Unique l
        × ((s : Id32)
            → (contains l s ≡ true)
              ↔ ((tid : Id32) × (contains transitions tid ≡ true) × Exits tid s))
  unfolding compute_exit_set
  compute_exit_set_correct transitions l tree ex h = (
    exit_loop-Unique transitions [] l tt h,
    λ s.
        let members = exit_loop_mem transitions [] l s tree ex h in
        (
          λ m. elim (members.0 m) [ inl never ↦ unfold contains in cc | inr w ↦ w ],
          λ w. members.1 (inr w),
        ),
  )

  -- In a tree whose active states exist, a state is in the set that `computeExitSet` returns exactly if it
  -- is active and lies below the domain of one of the transitions that have a target.
  pub compute_exit_set_members :
      (transitions l : OrderedSet Id32) (s : Id32)
      → IsTree n f
      → ((a : Id32) → contains configuration a ≡ true → Exists f a)
      → compute_exit_set n f configuration history transitions ≡ ok l
      → (contains l s ≡ true) ↔ ((tid : Id32) × (contains transitions tid ≡ true) × Exits tid s)
  compute_exit_set_members transitions l s tree ex h =
      (compute_exit_set_correct transitions l tree ex h).1 s
