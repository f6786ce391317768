-- ===== src/Fsm/Collections/Sorting/Order.antt =====
-- A sorted list has the members of the list, no duplicates that it had not, and its order.
use ru_fsm.Common.{false, ◌||◌, List, [], ◌∷◌, PartialEq, ◌==◌, ◌≡◌, ◌≢◌, refl, arith}
use ru_fsm.Fsm.Collections.Sequence.{contains}
use ru_fsm.Fsm.Collections.OrderedSet.Laws.{Unique}
use ru_fsm.Fsm.Collections.Sorting.{insert_sorted, sort}
use Prim.Native.Nat.{Ordering}

module _ {ℓ} {A : Type ℓ} ⦃e : PartialEq A⦄ (compare : A → A → Ordering) where
  contains-insert_sorted :
      (x : A) (ys : List A) (a : A)
      → contains (insert_sorted compare x ys) a ≡ (x == a || contains ys a)
  unfolding insert_sorted contains
  contains-insert_sorted x [] a = refl
  contains-insert_sorted x (y ∷ ys) a = ground (arith, contains-insert_sorted x ys a)

  pub contains-sort : (xs : List A) (a : A) → contains (sort compare xs) a ≡ contains xs a
  unfolding sort contains
  contains-sort [] a = refl
  contains-sort (x ∷ xs) a =
      ground (arith, contains-insert_sorted x (sort compare xs) a, contains-sort xs a)

  Unique-insert_sorted :
      (x : A) (ys : List A)
      → Unique ys
      → contains ys x ≡ false
      → Unique (insert_sorted compare x ys)
  unfolding insert_sorted contains
  Unique-insert_sorted x [] u h = (refl, tt)
  Unique-insert_sorted x (y ∷ ys) u h = ground (
    arith,
    Unique-insert_sorted x ys u.1,
    contains-insert_sorted x ys y,
    e.eq_iff x y,
    e.eq_iff y x,
  )

  pub Unique-sort : (xs : List A) → Unique xs → Unique (sort compare xs)
  unfolding sort
  Unique-sort [] u = tt
  Unique-sort (x ∷ xs) u =
      Unique-insert_sorted x (sort compare xs) (Unique-sort xs u.1)
        (ground (arith, contains-sort xs x))

-- Each element is not greater than any that comes behind it.
abbrev pub Sorted {ℓ} : {A : Type ℓ} → (A → A → Ordering) → List A → Type 0
Sorted compare [] = Unit
Sorted compare (x ∷ []) = Unit
Sorted compare (x ∷ y ∷ ys) = (compare x y ≢ Ordering.gt) × Sorted compare (y ∷ ys)

module _ {ℓ} {A : Type ℓ} (compare : A → A → Ordering)
    (flip : (x y : A) → compare x y ≡ Ordering.gt → compare y x ≢ Ordering.gt) where
  Sorted-insert_sorted :
      (x : A) (ys : List A) → Sorted compare ys → Sorted compare (insert_sorted compare x ys)
  unfolding insert_sorted
  Sorted-insert_sorted x [] h = tt
  Sorted-insert_sorted x (y ∷ []) h = ground (arith, flip x y)
  Sorted-insert_sorted x (y ∷ z ∷ ys) h =
      ground (arith, flip x y, flip x z, Sorted-insert_sorted x (z ∷ ys) h.1)

  -- For a comparison that never puts each of two elements behind the other, the list is in order.
  pub sort-Sorted : (xs : List A) → Sorted compare (sort compare xs)
  unfolding sort
  sort-Sorted [] = tt
  sort-Sorted (x ∷ xs) = Sorted-insert_sorted x (sort compare xs) (sort-Sorted xs)
