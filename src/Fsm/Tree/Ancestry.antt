-- ===== src/Fsm/Tree/Ancestry.antt =====
-- Ancestors as a relation, what a tree is, and `isDescendant` against both.
use ru_fsm.Common.{
  ℕ, zero, suc, ◌<◌, ◌≤◌, Bool, true, false, not, ◌&&◌, ◌||◌, ok, nat_eq, ◌==◌, ◌≡◌, ◌≢◌, ◌⊎◌, ◌↔◌,
  inl, inr, refl, sym, ◌∙◌, subst, arith, Bool-cases, >>=-eq-ok, nat_beq_iff,
}
use ru_fsm.Fsm.Model.{Id32, State, Fsm, get_state_by_id}
use ru_fsm.Fsm.Tree.{climb, is_descendant}

-- `a` is a proper ancestor of the state: its parent, the parent's parent, and so on.
pub data Ancestor (f : Fsm) (a : Id32) : Id32 → Type 0 where
  up :
      {s : Id32} {st : State} → get_state_by_id f s ≡ ok st → st.parent ≡ a → a ≢ 0 → Ancestor f a s
  further :
      {s p : Id32} {st : State}
      → get_state_by_id f s ≡ ok st
      → st.parent ≡ p
      → Ancestor f a p
      → Ancestor f a s

-- The parent of a state is none, or a state that comes earlier in the document. The reader numbers a
-- state when it meets its start tag, so a parent is numbered before its children. `n` is at least
-- every number.
pub record IsTree (n : ℕ) (f : Fsm) : Type 0 where
  pub numbered : (i : Id32) (s : State) → get_state_by_id f i ≡ ok s → s.doc_id ≤ n
  pub parents :
      (i : Id32) (s : State)
      → get_state_by_id f i ≡ ok s
      → (s.parent ≡ 0) ⊎ ((t : State) × (get_state_by_id f s.parent ≡ ok t) × (t.doc_id < s.doc_id))

-- `i` is the id of a state.
abbrev pub Exists : Fsm → Id32 → Type 0
Exists f i = (s : State) × (get_state_by_id f i ≡ ok s)

pub not-Ancestor-zero : (f : Fsm) (a s : Id32) → s ≡ 0 → ¬ Ancestor f a s
unfolding get_state_by_id
not-Ancestor-zero f a s z (up e p q) = cc (z, e)
not-Ancestor-zero f a s z (further e p q) = cc (z, e)

-- The first step up from a state.
pub Ancestor-cases :
    {f : Fsm} {a s : Id32} {st : State}
    → get_state_by_id f s ≡ ok st
    → Ancestor f a s
    → ((st.parent ≡ a) × (a ≢ 0)) ⊎ Ancestor f a st.parent
Ancestor-cases p (up e q z) = inl (cc, z)
Ancestor-cases {f} {a} {st = st} p (further {p = m} e q h) =
    let same : m ≡ st.parent = cc in inr (subst (Ancestor f a) same h)

-- A loop that ends, ends at 0 or at the state it looks for.
pub climb_stops :
    (n : ℕ) (f : Fsm) (curr a : Id32) {r : Id32} → climb n f curr a ≡ ok r → (r ≡ 0) ⊎ (r ≡ a)
unfolding climb
climb_stops zero f curr a e = ground arith
climb_stops (suc n) f curr a e = elim (Bool-cases (not (curr == 0) && not (curr == a))) [
  | inl go ↦
      let (s, _, q) = >>=-eq-ok (get_state_by_id f curr) (λ s. climb n f s.parent a) (rw go at e) in
      climb_stops n f s.parent a q
  | inr halt ↦ ground arith
]

climb-Ancestor :
    (n : ℕ) (f : Fsm) (curr a : Id32)
    → a ≢ 0
    → climb n f curr a ≡ ok a
    → (curr ≡ a) ⊎ Ancestor f a curr
unfolding climb
climb-Ancestor zero f curr a z e = ground arith
climb-Ancestor (suc n) f curr a z e = elim (Bool-cases (not (curr == 0) && not (curr == a))) [
  | inl go ↦
      let (s, p, q) = >>=-eq-ok (get_state_by_id f curr) (λ s. climb n f s.parent a) (rw go at e) in
      elim (climb-Ancestor n f s.parent a z q) [
        | inl h ↦ inr (up p h z)
        | inr h ↦ inr (further p refl h)
      ]
  | inr halt ↦ ground arith
]

not-climb-zero :
    (n : ℕ) (f : Fsm) (curr a : Id32)
    → a ≢ 0
    → climb n f curr a ≡ ok 0
    → (curr ≢ a) × (¬ Ancestor f a curr)
unfolding climb
not-climb-zero zero f curr a z e = (ground arith, not-Ancestor-zero f a curr (ground arith))
not-climb-zero (suc n) f curr a z e = elim (Bool-cases (not (curr == 0) && not (curr == a))) [
  | inl go ↦
      let (s, p, q) = >>=-eq-ok (get_state_by_id f curr) (λ s. climb n f s.parent a) (rw go at e) in
      let (ne, none_above) = not-climb-zero n f s.parent a z q in
      (
        ground arith,
        λ h. elim (Ancestor-cases p h) [ inl e ↦ ne e.0 | inr above ↦ none_above above ],
      )
  | inr halt ↦ (ground arith, not-Ancestor-zero f a curr (ground arith))
]

climb-zero : (k : ℕ) (f : Fsm) (a : Id32) → climb k f 0 a ≡ ok 0
unfolding climb
climb-zero zero f a = refl
climb-zero (suc k) f a = refl

-- In a tree the loop ends: each parent has a smaller number.
climb_returns :
    (n k : ℕ) (f : Fsm) (i a : Id32) (s : State)
    → IsTree n f
    → get_state_by_id f i ≡ ok s
    → s.doc_id < k
    → (r : Id32) × (climb k f i a ≡ ok r)
unfolding climb
climb_returns n zero f i a s t e h = absurd (omega arith)
climb_returns n (suc k) f i a s t e h = elim (Bool-cases (not (i == 0) && not (i == a))) [
  | inr halt ↦ (i, rw halt)
  | inl go ↦ elim (t.parents i s e) [
    | inl top ↦ (0, rw (go, e, top) (climb-zero k f a))
    | inr (u, p, less) ↦
        let (r, q) = climb_returns n k f s.parent a u t p (omega arith) in (r, rw (go, e) q)
  ]
]

-- From the parent of a state of the tree, `n` rounds are enough.
pub climb-parent_returns :
    (n : ℕ) (f : Fsm) (i a : Id32) (s : State)
    → IsTree n f
    → get_state_by_id f i ≡ ok s
    → (r : Id32) × (climb n f s.parent a ≡ ok r)
climb-parent_returns n f i a s t e = elim (t.parents i s e) [
  | inl top ↦ (0, rw top (climb-zero n f a))
  | inr (u, p, less) ↦ climb_returns n n f s.parent a u t p (omega (arith, t.numbered i s e))
]

pub Ancestor-ne-zero : {f : Fsm} {a s : Id32} → Ancestor f a s → a ≢ 0
Ancestor-ne-zero (up e p z) = z
Ancestor-ne-zero (further e p h) = Ancestor-ne-zero h

pub Ancestor-trans : {f : Fsm} {a b s : Id32} → Ancestor f a b → Ancestor f b s → Ancestor f a s
Ancestor-trans {f} {a} h (up e p z) = further e p h
Ancestor-trans h (further e p k) = further e p (Ancestor-trans h k)

-- An ancestor exists and has a smaller number.
pub Ancestor-earlier :
    {n : ℕ} {f : Fsm} {a s : Id32} {st : State}
    → IsTree n f
    → Ancestor f a s
    → get_state_by_id f s ≡ ok st
    → (t : State) × (get_state_by_id f a ≡ ok t) × (t.doc_id < st.doc_id)
Ancestor-earlier {f = f} {a = a} {s = s} {st = st} t (up e p z) g =
    let same : st.parent ≡ a = cc in
    elim (t.parents s st g) [
      | inl top ↦ absurd (z (sym same ∙ top))
      | inr (u, q, less) ↦ (u, rw (← same) q, less)
    ]
Ancestor-earlier {f = f} {a = a} {s = s} {st = st} t (further {p = m} e p h) g =
    let same : m ≡ st.parent = cc in
    elim (t.parents s st g) [
      | inl top ↦ absurd (not-Ancestor-zero f a m (same ∙ top) h)
      | inr (u, q, less) ↦
          let (v, r, lower) = Ancestor-earlier {st = u} t h (rw same q) in (v, r, omega arith)
    ]

-- No state is its own ancestor.
pub Ancestor-irrefl : {n : ℕ} {f : Fsm} {s : Id32} → IsTree n f → Exists f s → ¬ Ancestor f s s
Ancestor-irrefl {s = s} t (st, e) h =
    let (u, g, less) = Ancestor-earlier t h e in
    let same : u.doc_id ≡ st.doc_id = cc in absurd (omega arith)

-- In a tree `isDescendant` answers for every pair of ids of which the first exists.
pub is_descendant_returns :
    (n : ℕ) (f : Fsm) (s1 s2 : Id32)
    → IsTree n f
    → Exists f s1
    → (b : Bool) × (is_descendant n f s1 s2 ≡ ok b)
unfolding is_descendant
is_descendant_returns n f s1 s2 t (s, e) = elim (Bool-cases (s1 == 0 || s2 == 0 || s1 == s2)) [
  | inl p ↦ (false, rw p)
  | inr p ↦ let (r, q) = climb-parent_returns n f s1 s2 s t e in (r == s2, rw (p, e) (rw q))
]

pub Ancestor-of_is_descendant :
    (n : ℕ) (f : Fsm) (s1 s2 : Id32) → is_descendant n f s1 s2 ≡ ok true → Ancestor f s2 s1
unfolding is_descendant
Ancestor-of_is_descendant n f s1 s2 h = elim (Bool-cases (s1 == 0 || s2 == 0 || s1 == s2)) [
  | inl p ↦ cc (rw p at h)
  | inr p ↦
      let (s, e, q) = >>=-eq-ok (get_state_by_id f s1) _ (rw p at h) in
      let (r, c, d) = >>=-eq-ok (climb n f s.parent s2) _ q in
      let z : s2 ≢ 0 = ground arith in
      let hit : climb n f s.parent s2 ≡ ok s2 = ground arith in
      elim (climb-Ancestor n f s.parent s2 z hit) [
        | inl same ↦ up e same z
        | inr above ↦ further e refl above
      ]
]

not-Ancestor_of_is_descendant :
    (n : ℕ) (f : Fsm) (s1 s2 : Id32)
    → IsTree n f
    → Exists f s1
    → is_descendant n f s1 s2 ≡ ok false
    → ¬ Ancestor f s2 s1
unfolding is_descendant
not-Ancestor_of_is_descendant n f s1 s2 t ex h a =
    elim (Bool-cases (s1 == 0 || s2 == 0 || s1 == s2)) [
      | inl p ↦ elim (Bool-cases (s1 == s2)) [
        | inl same ↦
            Ancestor-irrefl t ex (subst (λ b. Ancestor f b s1) (sym ((nat_beq_iff s1 s2).0 same)) a)
        | inr other ↦ elim (Bool-cases (s1 == 0)) [
          | inl top ↦ not-Ancestor-zero f s2 s1 ((nat_beq_iff s1 0).0 top) a
          | inr low ↦ Ancestor-ne-zero a (ground arith)
        ]
      ]
      | inr p ↦
          let (s, e, q) = >>=-eq-ok (get_state_by_id f s1) _ (rw p at h) in
          let (r, c, d) = >>=-eq-ok (climb n f s.parent s2) _ q in
          let out : climb n f s.parent s2 ≡ ok 0 = ground (arith, climb_stops n f s.parent s2 c) in
          let (ne, none_above) = not-climb-zero n f s.parent s2 (Ancestor-ne-zero a) out in
          elim (Ancestor-cases e a) [ inl hit ↦ ne hit.0 | inr above ↦ none_above above ]
    ]

-- In a tree `isDescendant(s1, s2)` is true exactly if s2 is a proper ancestor of s1.
pub is_descendant_correct :
    (n : ℕ) (f : Fsm) (s1 s2 : Id32)
    → IsTree n f
    → Exists f s1
    → (is_descendant n f s1 s2 ≡ ok true) ↔ Ancestor f s2 s1
is_descendant_correct n f s1 s2 t ex =
    (Ancestor-of_is_descendant n f s1 s2, λ a. decide (is_descendant_returns n f s1 s2 t ex) a)
  where
    decide :
        ((b : Bool) × (is_descendant n f s1 s2 ≡ ok b))
        → Ancestor f s2 s1
        → is_descendant n f s1 s2 ≡ ok true
    decide (true, e) a = e
    decide (false, e) a = absurd (not-Ancestor_of_is_descendant n f s1 s2 t ex e a)
