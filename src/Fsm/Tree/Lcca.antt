-- ===== src/Fsm/Tree/Lcca.antt =====
-- `findLCCA` against its description: the least common compound ancestor.
use ru_fsm.Common.{
  ℕ, Bool, true, false, not, ◌||◌, List, [], ◌∷◌, Run, ok, nat_eq, ◌==◌, ◌≡◌, ◌⊎◌, inl, inr, refl,
  sym, ◌∙◌, ap, subst, arith, Bool-cases, >>=-eq-ok, nat_beq_iff, All,
}
use ru_fsm.Fsm.Collections.Sequence.{contains, head, tail, filter_run, every_run}
use ru_fsm.Fsm.Collections.Sequence.Fallible.{
  Answers, every_run_returns, filter_run_returns, contains-filter_run,
}
use ru_fsm.Fsm.Model.{Id32, State, Fsm, get_state_by_id}
use ru_fsm.Fsm.Tree.{
  is_descendant, is_compound_state, is_compound_state_or_scxml_element, first_common, find_lcca,
  list_is_empty,
}
use ru_fsm.Fsm.Tree.Ancestry.{
  Ancestor, up, further, IsTree, Exists, Ancestor-cases, not-Ancestor-zero, Ancestor-ne-zero,
  is_descendant_returns, is_descendant_correct, Ancestor-of_is_descendant,
}
use ru_fsm.Fsm.Tree.Chain.{Chain, Rising, Chain-Rising, contains-Chain, get_proper_ancestors-Chain}

-- Every id of the list is the id of a state.
abbrev pub AllExist : Fsm → List Id32 → Type 0
AllExist f l = All (Exists f) l

-- `a` is a proper ancestor of every state of the list.
abbrev pub CommonAncestor : Fsm → Id32 → List Id32 → Type 0
CommonAncestor f a l = All (Ancestor f a) l

module _ (n : ℕ) (f : Fsm) (t : IsTree n f) where
  descendant_Answers :
      (a : Id32) (l : List Id32) → AllExist f l → Answers (λ s. is_descendant n f s a) l
  descendant_Answers a [] h = tt
  descendant_Answers a (x ∷ l) (h, hs) =
      (is_descendant_returns n f x a t h, descendant_Answers a l hs)

  pub every_CommonAncestor :
      (a : Id32) (l : List Id32)
      → every_run (λ s. is_descendant n f s a) l ≡ ok true
      → CommonAncestor f a l
  unfolding every_run
  every_CommonAncestor a [] h = tt
  every_CommonAncestor a (x ∷ l) h =
      let (b, p, q) = >>=-eq-ok (is_descendant n f x a) _ h in
      elim (Bool-cases b) [
        | inl y ↦
            (Ancestor-of_is_descendant n f x a (p ∙ ap ok y), every_CommonAncestor a l (rw y at q))
        | inr z ↦ cc (rw z at q)
      ]

  CommonAncestor-every :
      (a : Id32) (l : List Id32)
      → AllExist f l
      → CommonAncestor f a l
      → every_run (λ s. is_descendant n f s a) l ≡ ok true
  unfolding every_run
  CommonAncestor-every a [] h c = refl
  CommonAncestor-every a (x ∷ l) (h, hs) (c, cs) =
      rw ((is_descendant_correct n f x a t h).1 c) (CommonAncestor-every a l hs cs)

  -- The loop finds the first common ancestor of the others among the candidates, and every other one
  -- among them lies above it.
  first_common_least :
      (others ancs : List Id32)
      → AllExist f others
      → Rising f ancs
      → (r : Id32) × (first_common n f others ancs ≡ ok r)
        × ((r ≡ 0) ⊎ (contains ancs r ≡ true) × CommonAncestor f r others)
        × ((c : Id32)
            → contains ancs c ≡ true
            → CommonAncestor f c others
            → (c ≡ r) ⊎ Ancestor f c r)
  unfolding first_common contains
  first_common_least others [] ex rising = (0, refl, inl refl, λ c m _. cc)
  first_common_least others (x ∷ ancs) ex (above, rising) =
      let (b, e) = every_run_returns _ others (descendant_Answers x others ex) in
      let (r, q, found, least) = first_common_least others ancs ex rising in
      elim (Bool-cases b) [
        | inl y ↦ (
          x,
          rw (e, y),
          inr (ground arith, every_CommonAncestor x others (e ∙ ap ok y)),
          λ c m k. elim (Bool-cases (x == c)) [
            | inl same ↦ inl (sym ((nat_beq_iff x c).0 same))
            | inr other ↦ inr (above c (ground arith))
          ],
        )
        | inr z ↦ (
          r,
          rw (e, z) q,
          elim found [ inl w ↦ inl w | inr p ↦ inr (ground (arith, p.0), p.1) ],
          λ c m k. elim (Bool-cases (x == c)) [
            | inl same ↦
                let hit =
                  CommonAncestor-every x others ex
                    (subst (λ a. CommonAncestor f a others) (sym ((nat_beq_iff x c).0 same)) k) in
                cc
            | inr other ↦ least c (ground arith) k
          ],
        )
      ]

  compound_Answers :
      (l : List Id32) → AllExist f l → Answers (is_compound_state_or_scxml_element f) l
  unfolding is_compound_state_or_scxml_element is_compound_state
  compound_Answers [] h = tt
  compound_Answers (x ∷ l) ((s, e), hs) = (one, compound_Answers l hs)
    where
      one : (b : Bool) × (is_compound_state_or_scxml_element f x ≡ ok b)
      one = elim (Bool-cases (x == f.pseudo_root)) [
        | inl p ↦ (true, rw p)
        | inr p ↦ elim (Bool-cases (x == 0)) [
          | inl z ↦ (false, rw (p, z))
          | inr z ↦ (not (s.is_final || s.is_parallel || list_is_empty s.states), rw (p, z, e))
        ]
      ]

  filter-Rising :
      (g : Id32 → Run Bool) (xs l : List Id32) → filter_run g xs ≡ ok l → Rising f xs → Rising f l
  unfolding filter_run
  filter-Rising g [] l e h = let z : [] ≡ l = ground arith in subst (Rising f) z tt
  filter-Rising g (x ∷ xs) l e (above, h) =
      let (b, p, q) = >>=-eq-ok (g x) _ e in
      let (r, c, d) = >>=-eq-ok (filter_run g xs) _ q in
      let rest = filter-Rising g xs r c h in
      let members =
        λ (a : Id32) (m : contains r a ≡ true). above a ((contains-filter_run g xs r a c).0 m).0 in
      elim (Bool-cases b) [
        | inl y ↦ let z : (x ∷ r) ≡ l = ground arith in subst (Rising f) z (pair x r members rest)
        | inr w ↦ let z : r ≡ l = ground arith in subst (Rising f) z rest
      ]
    where
      pair :
          (x : Id32) (r : List Id32)
          → ((a : Id32) → contains r a ≡ true → Ancestor f a x)
          → Rising f r
          → Rising f (x ∷ r)
      pair x r m w = (m, w)

Chain-Exists : {f : Fsm} {c : Id32} {l : List Id32} → Chain f 0 c l → AllExist f l
Chain-Exists (Chain.top z) = tt
Chain-Exists (Chain.met z) = tt
Chain-Exists (Chain.next {s = s} z w e q ch) = ((s, e), Chain-Exists ch)

Ancestor-parent :
    {f : Fsm} {a s : Id32} {st : State}
    → get_state_by_id f s ≡ ok st
    → Ancestor f a s
    → (st.parent ≡ a) ⊎ Ancestor f a st.parent
Ancestor-parent e u = elim (Ancestor-cases e u) [ inl hit ↦ inl hit.0 | inr v ↦ inr v ]

root_compound : (f : Fsm) → is_compound_state_or_scxml_element f f.pseudo_root ≡ ok true
unfolding is_compound_state_or_scxml_element
root_compound f = rw ((nat_beq_iff f.pseudo_root f.pseudo_root).1 refl)

pub find_lcca_correct :
    (n : ℕ) (f : Fsm) (first : Id32) (others : List Id32)
    → IsTree n f
    → AllExist f (first ∷ others)
    → CommonAncestor f f.pseudo_root (first ∷ others)
    → (r : Id32) × (find_lcca n f (first ∷ others) ≡ ok r)
      × (is_compound_state_or_scxml_element f r ≡ ok true)
      × CommonAncestor f r (first ∷ others)
      × ((c : Id32)
          → is_compound_state_or_scxml_element f c ≡ ok true
          → CommonAncestor f c (first ∷ others)
          → (c ≡ r) ⊎ Ancestor f c r)
unfolding find_lcca head tail
find_lcca_correct n f first others t ((s, e), ex) (root_first, root_others) =
    let (ancs, q, ch) =
      get_proper_ancestors-Chain n f first 0 s t e (unfold is_descendant in refl) in
    let (compounds, p) =
      filter_run_returns (is_compound_state_or_scxml_element f) ancs
        (compound_Answers n f t ancs (Chain-Exists ch)) in
    let (r, w, found, least) =
      first_common_least n f t others compounds ex
        (filter-Rising n f t _ ancs compounds p (Chain-Rising ch)) in
    let inside =
      λ (c : Id32) (k : is_compound_state_or_scxml_element f c ≡ ok true) (m : Ancestor f c first).
        (contains-filter_run _ ancs compounds c p).1
          ((contains-Chain ch c).1 (Ancestor-ne-zero m, Ancestor-parent e m), k) in
    let root_inside = inside f.pseudo_root (root_compound f) root_first in
    let is_member : (contains compounds r ≡ true) × CommonAncestor f r others = elim found [
      | inr k ↦ k
      | inl z ↦ elim (least f.pseudo_root root_inside root_others) [
        | inl same ↦ absurd (Ancestor-ne-zero root_first (same ∙ z))
        | inr above ↦ absurd (not-Ancestor-zero f f.pseudo_root r z above)
      ]
    ] in
    let (m, k) = (contains-filter_run _ ancs compounds r p).0 is_member.0 in
    let (nz, on_chain) = (contains-Chain ch r).0 m in
    (
      r,
      rw (q, p) w,
      k,
      (elim on_chain [ inl same ↦ up e same nz | inr u ↦ further e refl u ], is_member.1),
      λ c kc (mc, ms). least c (inside c kc mc) ms,
    )

-- In a tree, where the root is an ancestor of every state of a list that is not empty, `findLCCA`
-- returns a compound state or the root, and that is a proper ancestor of all of them.
pub find_lcca_returns :
    (n : ℕ) (f : Fsm) (first : Id32) (others : List Id32)
    → IsTree n f
    → AllExist f (first ∷ others)
    → CommonAncestor f f.pseudo_root (first ∷ others)
    → (r : Id32) × (find_lcca n f (first ∷ others) ≡ ok r)
      × (is_compound_state_or_scxml_element f r ≡ ok true)
      × CommonAncestor f r (first ∷ others)
find_lcca_returns n f first others t ex root =
    let (r, p, c, a, _) = find_lcca_correct n f first others t ex root in (r, p, c, a)

-- In a tree, where the root is an ancestor of every state of a list that is not empty, each compound state,
-- or root, that is a proper ancestor of all of them is the state that `findLCCA` returns, or lies above it.
pub find_lcca_least :
    (n : ℕ) (f : Fsm) (first : Id32) (others : List Id32) (r c : Id32)
    → IsTree n f
    → AllExist f (first ∷ others)
    → CommonAncestor f f.pseudo_root (first ∷ others)
    → find_lcca n f (first ∷ others) ≡ ok r
    → is_compound_state_or_scxml_element f c ≡ ok true
    → CommonAncestor f c (first ∷ others)
    → (c ≡ r) ⊎ Ancestor f c r
find_lcca_least n f first others r c t ex root h compound common =
    let (r', p, _, _, least) = find_lcca_correct n f first others t ex root in
    let same : r' ≡ r = ground arith in
    subst (λ x. (c ≡ x) ⊎ Ancestor f c x) same (least c compound common)
