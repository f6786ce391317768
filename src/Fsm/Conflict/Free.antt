-- ===== src/Fsm/Conflict/Free.antt =====
-- What `removeConflictingTransitions` keeps, and why it drops the rest.
use ru_fsm.Common.{
  ℕ, Bool, true, false, List, [], ◌∷◌, ok, nat_eq, ◌==◌, ◌≡◌, ◌≢◌, ◌⊎◌, ◌↔◌, inl, inr, sym, ◌∙◌, ap,
  subst, arith, Bool-cases, >>=-eq-ok, nat_beq_iff, none, some, Option-cases,
}
use ru_fsm.Fsm.Collections.Sequence.{contains}
use ru_fsm.Fsm.Collections.OrderedSet.{OrderedSet, add, delete, has_intersection}
use ru_fsm.Fsm.Collections.OrderedSet.Laws.{
  contains-add, contains-delete, has_intersection_of_common, common_of_has_intersection,
}
use ru_fsm.Fsm.Model.{Id32, Transition, Fsm, get_transition_by_id}
use ru_fsm.Fsm.Tree.{is_descendant}
use ru_fsm.Fsm.Domain.{HistoryTable, compute_exit_set}
use ru_fsm.Fsm.Conflict.{
  conflicts, scan_filtered, delete_all, filter_step, filter_loop, remove_conflicting_transitions,
}

has_intersection_comm : (s t : OrderedSet Id32) → has_intersection s t ≡ has_intersection t s
has_intersection_comm s t = elim (Bool-cases (has_intersection s t)) [
  | inl y ↦
      let (a, p, q) = common_of_has_intersection s t y in
      y ∙ sym (has_intersection_of_common t s a q p)
  | inr z ↦ elim (Bool-cases (has_intersection t s)) [
    | inl y ↦
        let (a, p, q) = common_of_has_intersection t s y in
        has_intersection_of_common s t a q p ∙ sym y
    | inr w ↦ z ∙ sym w
  ]
]

pub contains-delete_all :
    (s : OrderedSet Id32) (ts : List Id32) (a : Id32)
    → (contains (delete_all s ts) a ≡ true) ↔ ((contains s a ≡ true) × (contains ts a ≡ false))
unfolding delete_all contains
contains-delete_all s [] a = ground arith
contains-delete_all s (x ∷ ts) a = ground (
  arith,
  contains-delete_all (delete s x) ts a,
  contains-delete s x a,
  nat_beq_iff x a,
  nat_beq_iff a x,
)

module _ (n : ℕ) (f : Fsm) (configuration : OrderedSet Id32) (history : HistoryTable) where
  abbrev pub Clash : Id32 → Id32 → Bool → Type 0
  Clash a b c = conflicts n f configuration history a b ≡ ok c

  pub conflicts_comm : (a b : Id32) (c : Bool) → Clash a b c → Clash b a c
  unfolding conflicts
  conflicts_comm a b c h =
      let (e1, p, q) = >>=-eq-ok (compute_exit_set n f configuration history (a ∷ [])) _ h in
      let (e2, r, s) = >>=-eq-ok (compute_exit_set n f configuration history (b ∷ [])) _ q in
      rw (r, p) (ap ok (has_intersection_comm e2 e1) ∙ s)

  -- Each transition that is scanned is free of a clash, or noted for removal because it clashes.
  pub scan_sound :
      (tid1 : Id32) (t1 : Transition) (tids : List Id32) (removed out : OrderedSet Id32)
      → scan_filtered n f configuration history tid1 t1 tids removed ≡ ok (some out)
      → ((a : Id32) → contains removed a ≡ true → contains out a ≡ true)
        × ((a : Id32) → contains tids a ≡ true → Clash tid1 a false ⊎ (contains out a ≡ true))
        × ((a : Id32) → contains out a ≡ true → (contains removed a ≡ true) ⊎ Clash tid1 a true)
  unfolding scan_filtered contains
  scan_sound tid1 t1 [] removed out h =
      let same : removed ≡ out = ground arith in
      (λ a m. rw (← same) m, λ a m. cc, λ a m. inl (rw same m))
  scan_sound tid1 t1 (x ∷ tids) removed out h =
      let (clash, p, q) = >>=-eq-ok (conflicts n f configuration history tid1 x) _ h in
      elim (Bool-cases clash) [
        | inr free ↦
            let (keeps, covers, reasons) = scan_sound tid1 t1 tids removed out (rw free at q) in
            (
              keeps,
              λ a m. elim (Bool-cases (x == a)) [
                | inl same ↦
                    inl
                      (subst (λ b. Clash tid1 b false) ((nat_beq_iff x a).0 same) (p ∙ ap ok free))
                | inr other ↦ covers a (ground arith)
              ],
              reasons,
            )
        | inl hit ↦
            let (t2, g, r) = >>=-eq-ok (get_transition_by_id f x) _ (rw hit at q) in
            let (below, d, w) = >>=-eq-ok (is_descendant n f t1.source t2.source) _ r in
            elim (Bool-cases below) [
              | inr above ↦ cc (rw above at w)
              | inl under ↦
                  let (keeps, covers, reasons) =
                    scan_sound tid1 t1 tids (add removed x) out (rw under at w) in
                  (
                    λ a m. keeps a (ground (arith, contains-add removed x a)),
                    λ a m. elim (Bool-cases (x == a)) [
                      | inl same ↦ inr (keeps a (ground (arith, contains-add removed x a)))
                      | inr other ↦ covers a (ground arith)
                    ],
                    λ a m. elim (reasons a m) [
                      | inr k ↦ inr k
                      | inl k ↦ elim (Bool-cases (x == a)) [
                        | inl same ↦ inr (
                            subst (λ b. Clash tid1 b true) ((nat_beq_iff x a).0 same)
                              (p ∙ ap ok hit))
                        | inr other ↦ inl (ground (arith, contains-add removed x a))
                      ]
                    ],
                  )
            ]
      ]

  -- A preempted transition clashes with one of those scanned.
  pub scan_preempted :
      (tid1 : Id32) (t1 : Transition) (tids : List Id32) (removed : OrderedSet Id32)
      → scan_filtered n f configuration history tid1 t1 tids removed ≡ ok none
      → (u : Id32) × (contains tids u ≡ true) × Clash tid1 u true
  unfolding scan_filtered contains
  scan_preempted tid1 t1 [] removed h = cc
  scan_preempted tid1 t1 (x ∷ tids) removed h =
      let (clash, p, q) = >>=-eq-ok (conflicts n f configuration history tid1 x) _ h in
      elim (Bool-cases clash) [
        | inr free ↦
            let (u, m, k) = scan_preempted tid1 t1 tids removed (rw free at q) in
            (u, ground arith, k)
        | inl hit ↦ (x, ground (arith, nat_beq_iff x x), p ∙ ap ok hit)
      ]

  -- No two different members clash.
  abbrev pub ConflictFree : OrderedSet Id32 → Type 0
  ConflictFree s =
      (a b : Id32) → contains s a ≡ true → contains s b ≡ true → a ≢ b → Clash a b false

  step_ConflictFree :
      (filtered : OrderedSet Id32) (tid1 : Id32) (out : OrderedSet Id32)
      → ConflictFree filtered
      → filter_step n f configuration history filtered tid1 ≡ ok out
      → ConflictFree out
  unfolding filter_step
  step_ConflictFree filtered tid1 out free h =
      let (t1, g, q) = >>=-eq-ok (get_transition_by_id f tid1) _ h in
      let (verdict, s, r) =
        >>=-eq-ok (scan_filtered n f configuration history tid1 t1 filtered []) _ q in
      elim (Option-cases verdict) [
        | inl z ↦ let same : filtered ≡ out = ground arith in subst ConflictFree same free
        | inr (removed, y) ↦
            let (keeps, covers, reasons) = scan_sound tid1 t1 filtered [] removed (s ∙ ap ok y) in
            let same : add (delete_all filtered removed) tid1 ≡ out = ground arith in
            let kept = contains-delete_all filtered removed in
            let members = contains-add (delete_all filtered removed) tid1 in
            let against_new = λ (a : Id32) (m : contains (delete_all filtered removed) a ≡ true).
              elim (covers a ((kept a).0 m).0) as (λ _. Clash tid1 a false) [
                | inl k ↦ k
                | inr gone ↦ cc (gone, ((kept a).0 m).1)
              ] in
            subst ConflictFree same (λ a b ma mb ne.
              elim (Bool-cases (contains (delete_all filtered removed) a)) [
                | inl ka ↦ elim (Bool-cases (contains (delete_all filtered removed) b)) [
                  | inl kb ↦ free a b ((kept a).0 ka).0 ((kept b).0 kb).0 ne
                  | inr nb ↦
                      let new : tid1 ≡ b = ground (arith, members b) in
                      subst (λ c. Clash a c false) new
                        (conflicts_comm tid1 a false (against_new a ka))
                ]
                | inr na ↦
                    let new : tid1 ≡ a = ground (arith, members a) in
                    elim (Bool-cases (contains (delete_all filtered removed) b)) [
                      | inl kb ↦ subst (λ c. Clash c b false) new (against_new b kb)
                      | inr nb ↦
                          let new_b : tid1 ≡ b = ground (arith, members b) in
                          absurd (ne (sym new ∙ new_b))
                    ]
              ])
      ]

  loop_ConflictFree :
      (filtered : OrderedSet Id32) (tids : List Id32) (out : OrderedSet Id32)
      → ConflictFree filtered
      → filter_loop n f configuration history filtered tids ≡ ok out
      → ConflictFree out
  unfolding filter_loop
  loop_ConflictFree filtered [] out free h =
      let same : filtered ≡ out = ground arith in subst ConflictFree same free
  loop_ConflictFree filtered (x ∷ tids) out free h =
      let (next, p, q) = >>=-eq-ok (filter_step n f configuration history filtered x) _ h in
      loop_ConflictFree next tids out (step_ConflictFree filtered x next free p) q

  pub remove_conflicting_transitions-ConflictFree :
      (enabled out : OrderedSet Id32)
      → remove_conflicting_transitions n f configuration history enabled ≡ ok out
      → ConflictFree out
  unfolding remove_conflicting_transitions
  remove_conflicting_transitions-ConflictFree enabled out h =
      loop_ConflictFree [] enabled out (λ a b ma mb ne. unfold contains in cc) h

  -- The exit sets of two different transitions that `removeConflictingTransitions` returns do not
  -- intersect.
  pub remove_conflicting_transitions_free :
      (enabled out : OrderedSet Id32) (a b : Id32)
      → remove_conflicting_transitions n f configuration history enabled ≡ ok out
      → contains out a ≡ true
      → contains out b ≡ true
      → a ≢ b
      → conflicts n f configuration history a b ≡ ok false
  remove_conflicting_transitions_free enabled out a b h =
      remove_conflicting_transitions-ConflictFree enabled out h a b
