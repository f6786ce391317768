-- ===== src/Fsm/Collections/OrderedSet/Laws.antt =====
-- The members of a set after each operation, and that no operation makes a duplicate.
use ru_fsm.Common.{
  Bool, true, false, not, ◌&&◌, ◌||◌, List, [], ◌∷◌, ◌++◌, PartialEq, ◌==◌, ◌≡◌, refl, arith, inl,
  inr, Bool-cases,
}
use ru_fsm.Fsm.Collections.Sequence.{filter_by, contains}
use ru_fsm.Fsm.Collections.Sequence.Membership.{contains-append, contains-filter, beq_refl}
use ru_fsm.Fsm.Collections.OrderedSet.{
  OrderedSet, is_member, add, delete, union, has_intersection, add_all,
}

-- No element stands twice in the list.
abbrev pub Unique {ℓ} : {T : Type ℓ} ⦃e : PartialEq T⦄ → List T → Type ℓ
Unique [] = Unit
Unique (x ∷ s) = (contains s x ≡ false) × Unique s

module _ {ℓ} {T : Type ℓ} ⦃e : PartialEq T⦄ where
  pub contains-add : (s : OrderedSet T) (x a : T) → contains (add s x) a ≡ (contains s a || x == a)
  unfolding add contains
  contains-add s x a = ground (arith, contains-append s (x ∷ []) a, e.eq_iff x a)

  pub add_of_not-contains :
      (s : OrderedSet T) (x : T) → contains s x ≡ false → add s x ≡ s ++ (x ∷ [])
  unfolding add
  add_of_not-contains s x h = rw h

  pub contains-delete :
      (s : OrderedSet T) (x a : T) → contains (delete s x) a ≡ (contains s a && not (a == x))
  unfolding delete
  contains-delete s x a = contains-filter (λ y. not (y == x)) s a

  pub contains-union :
      (s t : OrderedSet T) (a : T) → contains (union s t) a ≡ (contains s a || contains t a)
  unfolding union is_member contains
  contains-union s [] a = ground arith
  contains-union s (x ∷ t) a =
      ground (
        arith,
        contains-union s t a,
        contains-union (add s x) t a,
        contains-add s x a,
        e.eq_iff x a,
      )

  pub contains-add_all :
      (s : OrderedSet T) (l : List T) (a : T)
      → contains (add_all s l) a ≡ (contains s a || contains l a)
  unfolding add_all contains
  contains-add_all s [] a = ground arith
  contains-add_all s (x ∷ l) a = ground (arith, contains-add_all (add s x) l a, contains-add s x a)

  -- `hasIntersection` finds a common member exactly if there is one.
  pub has_intersection_of_common :
      (s t : OrderedSet T) (a : T)
      → contains s a ≡ true
      → contains t a ≡ true
      → has_intersection s t ≡ true
  unfolding has_intersection is_member contains
  has_intersection_of_common [] t a h k = cc
  has_intersection_of_common (x ∷ s) t a h k =
      ground (arith, has_intersection_of_common s t a, e.eq_iff x a)

  pub common_of_has_intersection :
      (s t : OrderedSet T)
      → has_intersection s t ≡ true
      → (a : T) × (contains s a ≡ true) × (contains t a ≡ true)
  unfolding has_intersection is_member contains
  common_of_has_intersection [] t h = cc
  common_of_has_intersection (x ∷ s) t h = elim (Bool-cases (contains t x)) [
    | inl p ↦ (x, ground (arith, beq_refl x), p)
    | inr p ↦ let (a, m, q) = common_of_has_intersection s t (ground arith) in (a, ground arith, q)
  ]

  Unique-append : (s : List T) (x : T) → Unique s → contains s x ≡ false → Unique (s ++ (x ∷ []))
  unfolding contains
  Unique-append [] x u h = (refl, tt)
  Unique-append (y ∷ s) x u h =
      ground
        (arith, Unique-append s x u.1, contains-append s (x ∷ []) y, e.eq_iff x y, e.eq_iff y x)

  pub Unique-add : (s : OrderedSet T) (x : T) → Unique s → Unique (add s x)
  unfolding add
  Unique-add s x u = elim (Bool-cases (contains s x)) [
    | inl h ↦ ground arith
    | inr h ↦ ground (arith, Unique-append s x u h)
  ]

  pub Unique-filter : (f : T → Bool) (s : List T) → Unique s → Unique (filter_by f s)
  unfolding filter_by
  Unique-filter f [] u = tt
  Unique-filter f (x ∷ s) u = ground (arith, Unique-filter f s u.1, contains-filter f s x)

  pub Unique-delete : (s : OrderedSet T) (x : T) → Unique s → Unique (delete s x)
  unfolding delete
  Unique-delete s x u = Unique-filter (λ y. not (y == x)) s u

  pub Unique-union : (s t : OrderedSet T) → Unique s → Unique (union s t)
  unfolding union is_member
  Unique-union s [] u = u
  Unique-union s (x ∷ t) u =
      ground (arith, Unique-union s t u, Unique-union (add s x) t, Unique-add s x u)

  pub Unique-add_all : (s : OrderedSet T) (l : List T) → Unique s → Unique (add_all s l)
  unfolding add_all
  Unique-add_all s [] u = u
  Unique-add_all s (x ∷ l) u = Unique-add_all (add s x) l (Unique-add s x u)
