-- ===== src/Fsm/Tree/ProperAncestors.antt =====
-- `getProperAncestors` of src/fsm.rs for every pair of states.
use ru_fsm.Common.{
  ℕ, Bool, true, false, List, [], ok, ◌≡◌, ◌≢◌, ◌⊎◌, inl, inr, sym, subst, Bool-cases, refl, ◌==◌,
  nat_eq, nat_beq_iff, arith,
}
use ru_fsm.Fsm.Model.{Id32, State, Fsm, get_state_by_id}
use ru_fsm.Fsm.Tree.{get_proper_ancestors, is_descendant}
use ru_fsm.Fsm.Tree.Ancestry.{
  Ancestor, up, IsTree, Exists, Ancestor-irrefl, Ancestor-trans, is_descendant_returns,
  is_descendant_correct, Ancestor-of_is_descendant, not-Ancestor-zero,
}
use ru_fsm.Fsm.Tree.Chain.{
  Chain, top, met, next, get_proper_ancestors-Chain, get_proper_ancestors_below,
}

zero_or_above :
    {f : Fsm} {c p : Id32} {s : State}
    → get_state_by_id f c ≡ ok s
    → s.parent ≡ p
    → (p ≡ 0) ⊎ Ancestor f p c
zero_or_above {p = p} e q = elim (Bool-cases (p == 0)) [
  | inl z ↦ inl ((nat_beq_iff p 0).0 z)
  | inr nz ↦ inr (up e q (ground (arith, nat_beq_iff p 0)))
]

-- A chain that starts above its stop does not meet it.
Chain-past :
    {n : ℕ} {f : Fsm} {stop c : Id32} {l : List Id32}
    → IsTree n f
    → Exists f stop
    → (c ≡ 0) ⊎ Ancestor f c stop
    → Chain f stop c l
    → Chain f 0 c l
Chain-past t ex h (top z) = top z
Chain-past t ex (inl z) (met e) = top z
Chain-past {f = f} {stop = stop} t ex (inr a) (met e) =
    absurd (Ancestor-irrefl t ex (subst (λ b. Ancestor f b stop) e a))
Chain-past t ex (inl z) (next nz w e q ch) = absurd (nz z)
Chain-past {f = f} {stop = stop} t ex (inr a) (next {p = p} nz w e q ch) = next nz nz e q (
    Chain-past t ex (elim (zero_or_above e q) [ inl z ↦ inl z | inr b ↦ inr (Ancestor-trans b a) ])
      ch)

proper_ancestors_of_decision :
    (n : ℕ) (f : Fsm) (s1 s2 : Id32) (s : State) (b : Bool)
    → IsTree n f
    → get_state_by_id f s1 ≡ ok s
    → (s2 ≡ 0) ⊎ Exists f s2
    → is_descendant n f s2 s1 ≡ ok b
    → (l : List Id32) × (get_proper_ancestors n f s1 s2 ≡ ok l)
      × ((Ancestor f s1 s2 × (l ≡ [])) ⊎ ((¬ Ancestor f s1 s2) × Chain f s2 s.parent l))
proper_ancestors_of_decision n f s1 s2 s true t e x d =
    ([], get_proper_ancestors_below n f s1 s2 d, inl (Ancestor-of_is_descendant n f s2 s1 d, refl))
proper_ancestors_of_decision n f s1 s2 s false t e x d =
    let (l, q, ch) = get_proper_ancestors-Chain n f s1 s2 s t e d in
    (
      l,
      q,
      inr (
        elim x [
          | inl z ↦ not-Ancestor-zero f s1 s2 z
          | inr ex ↦ λ a. cc (d, (is_descendant_correct n f s2 s1 t ex).1 a)
        ],
        ch,
      ),
    )

is_descendant_decides :
    (n : ℕ) (f : Fsm) (s1 s2 : Id32)
    → IsTree n f
    → (s2 ≡ 0) ⊎ Exists f s2
    → (b : Bool) × (is_descendant n f s2 s1 ≡ ok b)
unfolding is_descendant
is_descendant_decides n f s1 s2 t (inl z) = (false, rw z)
is_descendant_decides n f s1 s2 t (inr ex) = is_descendant_returns n f s2 s1 t ex

-- The outcome: nothing below s1; the chain to the root for s1 itself; else the chain up to s2 and without it.
abbrev pub Proper : Fsm → Id32 → Id32 → State → List Id32 → Type 0
Proper f s1 s2 s l =
    ((Ancestor f s1 s2 × (l ≡ []))
      ⊎ (((s1 ≡ s2) × Chain f 0 s.parent l)
          ⊎ ((¬ Ancestor f s1 s2) × (s1 ≢ s2) × Chain f s2 s.parent l)))

Proper-of_Chain :
    {n : ℕ} {f : Fsm} {s1 s2 : Id32} {s : State} {l : List Id32}
    → IsTree n f
    → get_state_by_id f s1 ≡ ok s
    → (Ancestor f s1 s2 × (l ≡ [])) ⊎ ((¬ Ancestor f s1 s2) × Chain f s2 s.parent l)
    → Proper f s1 s2 s l
Proper-of_Chain t e (inl below) = inl below
Proper-of_Chain {f = f} {s1 = s1} {s2 = s2} {s = s} {l = l} t e (inr (none_below, ch)) =
    elim (Bool-cases (s1 == s2)) [
      | inl hit ↦
          let same = (nat_beq_iff s1 s2).0 hit in
          let own : Chain f s1 s.parent l = subst (λ b. Chain f b s.parent l) (sym same) ch in
          inr (inl (same, Chain-past t (s, e) (zero_or_above e refl) own))
      | inr miss ↦ inr (inr (none_below, ground (arith, nat_beq_iff s1 s2), ch))
    ]

-- In a tree `getProperAncestors(s1, s2)` returns for an existing s1 and an existing or missing s2. If s2 lies below
-- s1, the list is empty. If s2 is s1, it is the chain from the parent of s1 up to the root; else the chain from there
-- up to s2 and without it, or up to the root.
pub get_proper_ancestors-Proper :
    (n : ℕ) (f : Fsm) (s1 s2 : Id32) (s : State)
    → IsTree n f
    → get_state_by_id f s1 ≡ ok s
    → (s2 ≡ 0) ⊎ Exists f s2
    → (l : List Id32) × (get_proper_ancestors n f s1 s2 ≡ ok l) × Proper f s1 s2 s l
get_proper_ancestors-Proper n f s1 s2 s t e x =
    let (b, d) = is_descendant_decides n f s1 s2 t x in
    let (l, q, r) = proper_ancestors_of_decision n f s1 s2 s b t e x d in
    (l, q, Proper-of_Chain t e r)
