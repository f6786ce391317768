-- ===== src/Fsm/Conflict/Preempted.antt =====
-- `removeConflictingTransitions` invents nothing, drops nothing without a conflict, and does not drop all.
use ru_fsm.Common.{
  ℕ, true, false, [], ◌∷◌, ok, nat_eq, ◌==◌, ◌≡◌, ◌≢◌, ◌⊎◌, inl, inr, sym, ◌∙◌, ap, subst, arith,
  Bool-cases, >>=-eq-ok, nat_beq_iff, Option-cases,
}
use ru_fsm.Fsm.Collections.Sequence.{contains}
use ru_fsm.Fsm.Collections.OrderedSet.{OrderedSet, add}
use ru_fsm.Fsm.Collections.OrderedSet.Laws.{Unique, contains-add}
use ru_fsm.Fsm.Model.{Id32, Fsm, get_transition_by_id}
use ru_fsm.Fsm.Domain.{HistoryTable}
use ru_fsm.Fsm.Conflict.{
  conflicts, scan_filtered, delete_all, filter_step, filter_loop, remove_conflicting_transitions,
}
use ru_fsm.Fsm.Conflict.Free.{
  Clash, conflicts_comm, contains-delete_all, scan_sound, scan_preempted,
}

module _ (n : ℕ) (f : Fsm) (configuration : OrderedSet Id32) (history : HistoryTable) where
  -- `a` is in the set, or clashes with another one of the transitions `all`.
  abbrev Settled : OrderedSet Id32 → OrderedSet Id32 → Id32 → Type 0
  Settled all s a =
      (contains s a ≡ true)
      ⊎ ((u : Id32) × (contains all u ≡ true) × (u ≢ a) × Clash n f configuration history a u true)

  abbrev Within : OrderedSet Id32 → OrderedSet Id32 → Type 0
  Within s all = (a : Id32) → contains s a ≡ true → contains all a ≡ true

  step_Settled :
      (all filtered : OrderedSet Id32) (tid1 : Id32) (out : OrderedSet Id32)
      → Within filtered all
      → contains all tid1 ≡ true
      → contains filtered tid1 ≡ false
      → filter_step n f configuration history filtered tid1 ≡ ok out
      → ((a : Id32) → contains out a ≡ true → (contains filtered a ≡ true) ⊎ (tid1 ≡ a))
        × ((a : Id32) → (contains filtered a ≡ true) ⊎ (tid1 ≡ a) → Settled all out a)
        × ((b : Id32) × (contains out b ≡ true))
  unfolding filter_step
  step_Settled all filtered tid1 out w m fresh h =
      let (t1, g, q) = >>=-eq-ok (get_transition_by_id f tid1) _ h in
      let (verdict, s, r) =
        >>=-eq-ok (scan_filtered n f configuration history tid1 t1 filtered []) _ q in
      elim (Option-cases verdict) [
        | inl z ↦
            let same : filtered ≡ out = ground arith in
            let (u, mu, k) =
              scan_preempted n f configuration history tid1 t1 filtered [] (s ∙ ap ok z) in
            (
              λ a ma. inl (rw same ma),
              λ a e. elim e [
                | inl ma ↦ inl (rw (← same) ma)
                | inr new ↦ inr (
                  u,
                  w u mu,
                  λ same_u.
                      cc (subst (λ b. contains filtered b ≡ true) (same_u ∙ sym new) mu, fresh),
                  subst (λ b. Clash n f configuration history b u true) new k,
                )
              ],
              (u, rw (← same) mu),
            )
        | inr (removed, y) ↦
            let (keeps, covers, reasons) =
              scan_sound n f configuration history tid1 t1 filtered [] removed (s ∙ ap ok y) in
            let same : add (delete_all filtered removed) tid1 ≡ out = ground arith in
            let kept = contains-delete_all filtered removed in
            let members = contains-add (delete_all filtered removed) tid1 in
            let itself : contains out tid1 ≡ true =
              rw (← same) (ground (arith, members tid1, nat_beq_iff tid1 tid1)) in
            (
              λ a ma. elim (Bool-cases (contains (delete_all filtered removed) a)) [
                | inl ka ↦ inl ((kept a).0 ka).0
                | inr na ↦ inr (
                    ground (
                      arith,
                      members a,
                      nat_beq_iff tid1 a,
                      subst (λ l. contains l a ≡ true) (sym same) ma,
                    ))
              ],
              λ a e. elim e [
                | inr new ↦ inl (rw (← new) itself)
                | inl ma ↦ elim (Bool-cases (contains removed a)) [
                  | inr stays ↦
                      inl (rw (← same) (ground (arith, members a, (kept a).1 (ma, stays))))
                  | inl gone ↦ elim (reasons a gone) [
                    | inl never ↦ unfold contains in cc
                    | inr k ↦ inr (
                      tid1,
                      m,
                      λ same_a. cc (subst (λ b. contains filtered b ≡ true) (sym same_a) ma, fresh),
                      conflicts_comm n f configuration history tid1 a true k,
                    )
                  ]
                ]
              ],
              (tid1, itself),
            )
      ]

  loop_Settled :
      (all filtered tids out : OrderedSet Id32)
      → Within filtered all
      → Within tids all
      → Unique tids
      → ((a : Id32) → contains filtered a ≡ true → contains tids a ≡ false)
      → filter_loop n f configuration history filtered tids ≡ ok out
      → Within out all
        × ((a : Id32) → (contains filtered a ≡ true) ⊎ (contains tids a ≡ true) → Settled all out a)
        × (((b : Id32) × (contains filtered b ≡ true)) ⊎ ((b : Id32) × (contains tids b ≡ true))
            → (b : Id32) × (contains out b ≡ true))
  unfolding filter_loop contains
  loop_Settled all filtered [] out w v u d h =
      let same : filtered ≡ out = ground arith in
      (
        subst (λ l. Within l all) same w,
        λ a e. elim e [ inl m ↦ inl (rw (← same) m) | inr m ↦ cc ],
        λ e. elim e [ inl (b, m) ↦ (b, rw (← same) m) | inr (b, m) ↦ cc ],
      )
  loop_Settled all filtered (x ∷ tids) out w v u d h =
      let (next, p, q) = >>=-eq-ok (filter_step n f configuration history filtered x) _ h in
      let x_in : contains (x ∷ tids) x ≡ true = ground (arith, nat_beq_iff x x) in
      let fresh : contains filtered x ≡ false = elim (Bool-cases (contains filtered x)) [
        | inl old ↦ cc (d x old, x_in)
        | inr new ↦ new
      ] in
      let (from, settled, (b, mb)) = step_Settled all filtered x next w (v x x_in) fresh p in
      let w1 = λ (a : Id32) (m : contains next a ≡ true).
        elim (from a m) as (λ _. contains all a ≡ true) [
          | inl old ↦ w a old
          | inr new ↦ v a (ground (arith, nat_beq_iff x a))
        ] in
      let d1 = λ (a : Id32) (m : contains next a ≡ true).
        elim (from a m) as (λ _. contains tids a ≡ false) [
          | inl old ↦ ground (arith, d a old)
          | inr new ↦ rw (← new) u.0
        ] in
      let (w2, later, some_left) =
        loop_Settled all next tids out w1 (λ a m. v a (ground arith)) u.1 d1 q in
      let after = λ (a : Id32) (k : (contains filtered a ≡ true) ⊎ (x ≡ a)).
        elim (settled a k) as (λ _. Settled all out a) [
          | inl m ↦ later a (inl m)
          | inr clash ↦ inr clash
        ] in
      (
        w2,
        λ a e. elim e [
          | inl m ↦ after a (inl m)
          | inr m ↦ elim (Bool-cases (x == a)) [
            | inl same ↦ after a (inr ((nat_beq_iff x a).0 same))
            | inr other ↦ later a (inr (ground arith))
          ]
        ],
        λ _. some_left (inl (b, mb)),
      )

  pub remove_conflicting_transitions_reasons :
      (enabled out : OrderedSet Id32)
      → Unique enabled
      → remove_conflicting_transitions n f configuration history enabled ≡ ok out
      → ((a : Id32) → contains out a ≡ true → contains enabled a ≡ true)
        × ((a : Id32)
            → contains enabled a ≡ true
            → (contains out a ≡ true)
              ⊎ ((u : Id32) × (contains enabled u ≡ true)
                  × (u ≢ a)
                  × Clash n f configuration history a u true))
        × (((a : Id32) × (contains enabled a ≡ true)) → (b : Id32) × (contains out b ≡ true))
  unfolding remove_conflicting_transitions
  remove_conflicting_transitions_reasons enabled out u h =
      let (w, settled, left) =
        loop_Settled enabled [] enabled out (λ a m. unfold contains in cc) (λ a m. m) u
          (λ a m. unfold contains in cc) h in
      (w, λ a m. settled a (inr m), λ e. left (inr e))

  -- On a set without duplicates `removeConflictingTransitions`, where it returns, returns only enabled
  -- transitions.
  pub remove_conflicting_transitions_enabled :
      (enabled out : OrderedSet Id32) (a : Id32)
      → Unique enabled
      → remove_conflicting_transitions n f configuration history enabled ≡ ok out
      → contains out a ≡ true
      → contains enabled a ≡ true
  remove_conflicting_transitions_enabled enabled out a u h =
      (remove_conflicting_transitions_reasons enabled out u h).0 a

  -- Each transition of a set without duplicates that `removeConflictingTransitions` drops has an exit set
  -- that intersects the one of another transition of the set.
  pub remove_conflicting_transitions_drops :
      (enabled out : OrderedSet Id32) (a : Id32)
      → Unique enabled
      → remove_conflicting_transitions n f configuration history enabled ≡ ok out
      → contains enabled a ≡ true
      → contains out a ≡ false
      → (u : Id32) × (contains enabled u ≡ true)
        × (u ≢ a)
        × (conflicts n f configuration history a u ≡ ok true)
  remove_conflicting_transitions_drops enabled out a u h m dropped =
      let (_, reasons, _) = remove_conflicting_transitions_reasons enabled out u h in
      elim (reasons a m) [ inl kept ↦ absurd (ground arith) | inr why ↦ why ]

  -- If a transition is in a set without duplicates, `removeConflictingTransitions` leaves one.
  pub remove_conflicting_transitions_leaves :
      (enabled out : OrderedSet Id32) (a : Id32)
      → Unique enabled
      → remove_conflicting_transitions n f configuration history enabled ≡ ok out
      → contains enabled a ≡ true
      → (b : Id32) × (contains out b ≡ true)
  remove_conflicting_transitions_leaves enabled out a u h m =
      let (_, _, left) = remove_conflicting_transitions_reasons enabled out u h in left (a, m)
