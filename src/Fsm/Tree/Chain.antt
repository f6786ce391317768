-- ===== src/Fsm/Tree/Chain.antt =====
-- `getProperAncestors`: the chain of the ancestors of a state, from its parent up.
use ru_fsm.Common.{
  ℕ, zero, suc, ◌<◌, true, false, not, ◌&&◌, List, [], ◌∷◌, ◌++◌, ok, nat_eq, ◌==◌, ◌≡◌, ◌≢◌, ◌⊎◌,
  ◌↔◌, inl, inr, refl, sym, ◌∙◌, ap, subst, arith, Bool-cases, nat_beq_iff, All, append-nil,
  append_assoc,
}
use ru_fsm.Fsm.Collections.Sequence.{contains}
use ru_fsm.Fsm.Collections.OrderedSet.{OrderedSet}
use ru_fsm.Fsm.Collections.OrderedSet.Laws.{add_of_not-contains}
use ru_fsm.Fsm.Model.{Id32, State, Fsm, get_state_by_id}
use ru_fsm.Fsm.Tree.{is_descendant, collect, get_proper_ancestors}
use ru_fsm.Fsm.Tree.Ancestry.{
  Ancestor, up, further, IsTree, Exists, Ancestor-cases, Ancestor-ne-zero, not-Ancestor-zero,
}

-- The states from `c` up to the root, or up to `stop` and without it.
pub data Chain (f : Fsm) (stop : Id32) : Id32 → List Id32 → Type 0 where
  top : {c : Id32} → c ≡ 0 → Chain f stop c []
  met : {c : Id32} → c ≡ stop → Chain f stop c []
  next :
      {c p : Id32} {s : State} {l : List Id32}
      → c ≢ 0
      → c ≢ stop
      → get_state_by_id f c ≡ ok s
      → s.parent ≡ p
      → Chain f stop p l
      → Chain f stop c (c ∷ l)

-- Every state of the list has a number above `k`.
abbrev Later : Fsm → ℕ → List Id32 → Type 0
Later f k = All (λ i. (s : State) × (get_state_by_id f i ≡ ok s) × (k < s.doc_id))

not-contains-Later :
    (f : Fsm) (l : List Id32) (c : Id32) (s : State)
    → get_state_by_id f c ≡ ok s
    → Later f s.doc_id l
    → contains l c ≡ false
unfolding contains
not-contains-Later f [] c s e h = refl
not-contains-Later f (x ∷ l) c s e ((t, g, less), h) =
    ground (arith, not-contains-Later f l c s e h)

Later-append :
    (f : Fsm) (k : ℕ) (l : List Id32) (c : Id32) (s : State)
    → get_state_by_id f c ≡ ok s
    → k < s.doc_id
    → Later f s.doc_id l
    → Later f k (l ++ (c ∷ []))
Later-append f k [] c s e h w = ((s, e, h), tt)
Later-append f k (x ∷ l) c s e h ((t, g, less), w) =
    ((t, g, omega arith), Later-append f k l c s e h w)

collect-zero :
    (k : ℕ) (f : Fsm) (stop : Id32) (set : OrderedSet Id32) → collect k f 0 stop set ≡ ok set
unfolding collect
collect-zero zero f stop set = refl
collect-zero (suc k) f stop set = refl

Chain-of_halt :
    (f : Fsm) (stop c : Id32) → (not (c == 0) && not (c == stop)) ≡ false → Chain f stop c []
Chain-of_halt f stop c h = elim (Bool-cases (c == 0)) [
  | inl z ↦ top ((nat_beq_iff c 0).0 z)
  | inr nz ↦ met (ground arith)
]

-- The loop appends the chain to the set.
collect-Chain :
    (n k : ℕ) (f : Fsm) (stop c : Id32) (s : State) (set : OrderedSet Id32)
    → IsTree n f
    → get_state_by_id f c ≡ ok s
    → s.doc_id < k
    → Later f s.doc_id set
    → (l : List Id32) × (collect k f c stop set ≡ ok (set ++ l)) × Chain f stop c l
unfolding collect get_state_by_id
collect-Chain n zero f stop c s set t e h w = absurd (omega arith)
collect-Chain n (suc k) f stop c s set t e h w =
    elim (Bool-cases (not (c == 0) && not (c == stop))) [
      | inr halt ↦ ([], rw halt (rw append-nil), Chain-of_halt f stop c halt)
      | inl go ↦ elim (t.parents c s e) [
        | inl root ↦ (
          c ∷ [],
          rw (go, e)
              (rw (add_of_not-contains set c (not-contains-Later f set c s e w), root)
                (collect-zero k f stop _)),
          next (ground arith) (ground arith) e root (top refl),
        )
        | inr (u, g, less) ↦
            let (l, q, ch) =
              collect-Chain n k f stop s.parent u (set ++ (c ∷ [])) t g (omega arith)
                (Later-append f u.doc_id set c s e less w) in
            (
              c ∷ l,
              rw (go, e)
                  (rw (add_of_not-contains set c (not-contains-Later f set c s e w))
                    (q ∙ ap ok (append_assoc set (c ∷ []) l))),
              next (ground arith) (ground arith) e refl ch,
            )
      ]
    ]

-- In a tree, if s2 does not lie below s1, `getProperAncestors(s1, s2)` returns the chain from the parent of s1 up to
-- s2, in that order.
pub get_proper_ancestors-Chain :
    (n : ℕ) (f : Fsm) (s1 s2 : Id32) (s : State)
    → IsTree n f
    → get_state_by_id f s1 ≡ ok s
    → is_descendant n f s2 s1 ≡ ok false
    → (l : List Id32) × (get_proper_ancestors n f s1 s2 ≡ ok l) × Chain f s2 s.parent l
unfolding get_proper_ancestors
get_proper_ancestors-Chain n f s1 s2 s t e d = elim (t.parents s1 s e) [
  | inl root ↦ ([], rw (d, e) (rw root (collect-zero n f s2 [])), top root)
  | inr (u, g, less) ↦
      let (l, q, ch) =
        collect-Chain n n f s2 s.parent u [] t g (omega (arith, t.numbered s1 s e)) tt in
      (l, rw (d, e) q, ch)
]

pub get_proper_ancestors_below :
    (n : ℕ) (f : Fsm) (s1 s2 : Id32)
    → is_descendant n f s2 s1 ≡ ok true
    → get_proper_ancestors n f s1 s2 ≡ ok []
unfolding get_proper_ancestors
get_proper_ancestors_below n f s1 s2 d = rw d

-- The members of a chain to the root: its first state and the ancestors of that.
pub contains-Chain :
    {f : Fsm} {c : Id32} {l : List Id32}
    → Chain f 0 c l
    → (a : Id32) → (contains l a ≡ true) ↔ ((a ≢ 0) × ((c ≡ a) ⊎ Ancestor f a c))
unfolding contains
contains-Chain (top z) a = (
  λ h. cc,
  λ (nz, h). elim h [
    | inl e ↦ absurd (nz (sym e ∙ z))
    | inr u ↦ absurd (not-Ancestor-zero _ a _ z u)
  ],
)
contains-Chain (met z) a = (
  λ h. cc,
  λ (nz, h). elim h [
    | inl e ↦ absurd (nz (sym e ∙ z))
    | inr u ↦ absurd (not-Ancestor-zero _ a _ z u)
  ],
)
contains-Chain {f} {c = c} (next {p = p} {s = s} {l = l} z w e q ch) a = (
  λ h. elim (Bool-cases (c == a)) [
    | inl hit ↦ (λ za. z ((nat_beq_iff c a).0 hit ∙ za), inl ((nat_beq_iff c a).0 hit))
    | inr miss ↦
        let (nz, r) = (contains-Chain ch a).0 (ground arith) in
        elim r [ inl same ↦ (nz, inr (up e (q ∙ same) nz)) | inr u ↦ (nz, inr (further e q u)) ]
  ],
  λ (nz, h). elim h [
    | inl same ↦ ground arith
    | inr above ↦ elim (Ancestor-cases e above) [
      | inl hit ↦ let m = (contains-Chain ch a).1 (nz, inl (sym q ∙ hit.0)) in ground arith
      | inr u ↦ let m = (contains-Chain ch a).1 (nz, inr (subst (Ancestor f a) q u)) in ground arith
    ]
  ],
)

-- In a tree `getProperAncestors(s, null)` succeeds, and its members are the proper ancestors of s.
pub proper_ancestors_all :
    (n : ℕ) (f : Fsm) (s : Id32)
    → IsTree n f
    → Exists f s
    → (l : List Id32) × (get_proper_ancestors n f s 0 ≡ ok l)
      × ((a : Id32) → (contains l a ≡ true) ↔ Ancestor f a s)
proper_ancestors_all n f i t (s, e) =
    let (l, q, ch) = get_proper_ancestors-Chain n f i 0 s t e (unfold is_descendant in refl) in
    (
      l,
      q,
      λ a. (
        λ m.
            let (nz, r) = (contains-Chain ch a).0 m in
            elim r [ inl same ↦ up e same nz | inr u ↦ further e refl u ],
        λ u.
            (contains-Chain ch a).1 (
              Ancestor-ne-zero u,
              elim (Ancestor-cases e u) [ inl hit ↦ inl hit.0 | inr v ↦ inr v ],
            ),
      ),
    )

-- Of two members the later one is an ancestor of the earlier one.
abbrev pub Rising : Fsm → List Id32 → Type 0
Rising f [] = Unit
Rising f (x ∷ l) = ((a : Id32) → contains l a ≡ true → Ancestor f a x) × Rising f l

pub Chain-Rising : {f : Fsm} {c : Id32} {l : List Id32} → Chain f 0 c l → Rising f l
Chain-Rising (top z) = tt
Chain-Rising (met z) = tt
Chain-Rising (next z w e q ch) = (
  λ a m.
      let (nz, r) = (contains-Chain ch a).0 m in
      elim r [ inl same ↦ up e (q ∙ same) nz | inr u ↦ further e q u ],
  Chain-Rising ch,
)
