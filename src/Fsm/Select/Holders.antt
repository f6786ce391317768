-- ===== src/Fsm/Select/Holders.antt =====
-- The transitions that the selection in src/fsm.rs looks at for an active atomic state.
use ru_fsm.Common.{
  ℕ, zero, suc, Bool, true, List, [], ◌∷◌, ◌++◌, ok, nat_eq, ◌==◌, ◌≡◌, ◌≢◌, ◌⊎◌, inl, inr, refl,
  ap, subst, arith, Bool-cases, >>=-eq-ok, nat_beq_iff, map, All, ok-eq-ok,
}
use ru_fsm.Fsm.Collections.Sequence.{contains, filter_by}
use ru_fsm.Fsm.Collections.Sequence.Membership.{contains-append}
use ru_fsm.Fsm.Collections.Sorting.{sort, insert_sorted}
use ru_fsm.Fsm.Collections.OrderedSet.{OrderedSet, add}
use ru_fsm.Fsm.Collections.OrderedSet.Laws.{contains-add}
use ru_fsm.Fsm.Model.{Id32, State, Transition, Fsm, get_state_by_id, get_transition_by_id}
use ru_fsm.Fsm.Tree.{collect, is_descendant, get_proper_ancestors}
use ru_fsm.Fsm.Tree.Ancestry.{Ancestor, up, further}
use ru_fsm.Fsm.Select.{to_transition_list, transition_document_order, candidates}
use Prim.Native.Nat.{Ordering}

-- What the loop of `getProperAncestors` adds: states from `c` up.
collect-Ancestor :
    (k : ℕ) (f : Fsm) (c : Id32) (set l : OrderedSet Id32) (a : Id32)
    → collect k f c 0 set ≡ ok l
    → contains l a ≡ true
    → (contains set a ≡ true) ⊎ ((a ≢ 0) × ((c ≡ a) ⊎ Ancestor f a c))
unfolding collect
collect-Ancestor zero f c set l a h m = inl (ground arith)
collect-Ancestor (suc k) f c set l a h m = elim (Bool-cases (c == 0)) [
  | inl z ↦ inl (ground arith)
  | inr nz ↦
      let (s, found, q) = >>=-eq-ok (get_state_by_id f c) _ (rw nz at h) in
      elim (collect-Ancestor k f s.parent (add set c) l a q m) [
        | inl old ↦ elim (Bool-cases (contains set a)) [
          | inl before ↦ inl before
          | inr new ↦ inr (
            ground (arith, contains-add set c a, nat_beq_iff c a),
            inl (ground (arith, contains-add set c a, nat_beq_iff c a)),
          )
        ]
        | inr (na, inl here) ↦ inr (na, inr (up found here na))
        | inr (na, inr above) ↦ inr (na, inr (further found refl above))
      ]
]

pub get_proper_ancestors-Ancestor :
    (n : ℕ) (f : Fsm) (s : Id32) (l : OrderedSet Id32) (a : Id32)
    → get_proper_ancestors n f s 0 ≡ ok l
    → contains l a ≡ true
    → Ancestor f a s
unfolding get_proper_ancestors is_descendant
get_proper_ancestors-Ancestor n f s l a h m =
    let (state, found, q) = >>=-eq-ok (get_state_by_id f s) _ h in
    elim (collect-Ancestor n f state.parent [] l a q m) [
      | inl never ↦ absurd (unfold contains in ground arith)
      | inr (na, inl here) ↦ up found here na
      | inr (na, inr above) ↦ further found refl above
    ]

-- A transition of a state: it is found under one of the ids that the state lists.
pub record Has (f : Fsm) (s : Id32) (t : Transition) : Type 0 where
  pub state : State
  pub state_found : get_state_by_id f s ≡ ok state
  pub listed : Id32
  pub is_listed : contains state.transitions listed ≡ true
  pub found : get_transition_by_id f listed ≡ ok t

module _ (P : Transition → Type 0) where
  All-insert_sorted :
      (x : Transition) (ys : List Transition)
      → P x
      → All P ys
      → All P (insert_sorted transition_document_order x ys)
  unfolding insert_sorted
  All-insert_sorted x [] p ps = (p, tt)
  All-insert_sorted x (y ∷ ys) p (q, qs) =
      elim (transition_document_order x y)
        as (λ o. All P (elim o [
          | Ordering.gt ↦ y ∷ insert_sorted transition_document_order x ys
          | _ ↦ x ∷ y ∷ ys
        ])) [ Ordering.gt ↦ (q, All-insert_sorted x ys p qs) | _ ↦ (p, (q, qs)) ]

  All-sort : (xs : List Transition) → All P xs → All P (sort transition_document_order xs)
  unfolding sort
  All-sort [] ps = tt
  All-sort (x ∷ xs) (p, ps) = All-insert_sorted x _ p (All-sort xs ps)

  -- What the ids of those that pass the test stand for.
  All-of_ids :
      (test : Transition → Bool) (xs : List Transition) (tid : Id32)
      → All P xs
      → contains (map (λ (t : Transition). t.id) (filter_by test xs)) tid ≡ true
      → (t : Transition) × P t × (t.id ≡ tid) × (test t ≡ true)
  unfolding filter_by contains
  All-of_ids test [] tid ps m = absurd (ground arith)
  All-of_ids test (x ∷ xs) tid (p, ps) m = elim (Bool-cases (test x)) [
    | inl y ↦ elim (Bool-cases (x.id == tid)) [
      | inl hit ↦ (x, p, (nat_beq_iff x.id tid).0 hit, y)
      | inr miss ↦ All-of_ids test xs tid ps (ground arith)
    ]
    | inr n ↦ All-of_ids test xs tid ps (ground arith)
  ]

to_transition_list-All :
    (f : Fsm) (tids every_ : List Id32) (ts : List Transition)
    → ((i : Id32) → contains tids i ≡ true → contains every_ i ≡ true)
    → to_transition_list f tids ≡ ok ts
    → All (λ t. (i : Id32) × (contains every_ i ≡ true) × (get_transition_by_id f i ≡ ok t)) ts
unfolding to_transition_list contains
to_transition_list-All f [] every_ ts sub h = subst (All _) (ok-eq-ok h) tt
to_transition_list-All f (i ∷ tids) every_ ts sub h =
    let (t, p, q) = >>=-eq-ok (get_transition_by_id f i) _ h in
    let (us, c, d) = >>=-eq-ok (to_transition_list f tids) _ q in
    subst (All _) (ok-eq-ok d) (
      (i, sub i (ground (arith, nat_beq_iff i i)), p),
      to_transition_list-All f tids every_ us (λ j m. sub j (ground arith)) c,
    )

pub candidates-Has :
    (f : Fsm) (test : Transition → Bool) (states cts : List Id32) (tid : Id32)
    → candidates f test states ≡ ok cts
    → contains cts tid ≡ true
    → (s : Id32) × (t : Transition) × (contains states s ≡ true)
      × Has f s t
      × (t.id ≡ tid)
      × (test t ≡ true)
unfolding candidates contains
candidates-Has f test [] cts tid h m = absurd (ground arith)
candidates-Has f test (s ∷ states) cts tid h m =
    let (state, state_found, h1) = >>=-eq-ok (get_state_by_id f s) _ h in
    let (ts, p, h2) = >>=-eq-ok (to_transition_list f state.transitions) _ h1 in
    let (rest, q, h3) = >>=-eq-ok (candidates f test states) _ h2 in
    let own = map (λ (t : Transition). t.id) (filter_by test (sort transition_document_order ts)) in
    let same : own ++ rest ≡ cts = ok-eq-ok h3 in
    elim (Bool-cases (contains own tid)) [
      | inl here ↦
          let listed =
            to_transition_list-All f state.transitions state.transitions ts (λ i k. k) p in
          let (t, (i, among, found), e, passes) =
            All-of_ids _ test (sort transition_document_order ts) tid (All-sort _ ts listed) here in
          (
            s,
            t,
            ground (arith, nat_beq_iff s s),
            record {
              state = state;
              state_found = state_found;
              listed = i;
              is_listed = among;
              found = found;
            },
            e,
            passes,
          )
      | inr other ↦
          let later : contains rest tid ≡ true =
            ground (arith, contains-append own rest tid, ap (λ l. contains l tid) same) in
          let (s', t, k, has, e, passes) = candidates-Has f test states rest tid q later in
          (s', t, ground arith, has, e, passes)
    ]
