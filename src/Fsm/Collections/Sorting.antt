-- ===== src/Fsm/Collections/Sorting.antt =====
-- `sort` of `List` and of `OrderedSet`, and `sort_by` on a vector: the standard library's stable sort,
-- here by insertion, which gives the same list for every total preorder.
pub mod Order
use ru_fsm.Common.{List, [], ◌∷◌}
use Prim.Native.Nat.{Ordering}

module _ {ℓ} {A : Type ℓ} (compare : A → A → Ordering) where
  -- `x` goes before the first element that is not smaller than it: it was before them all.
  unfoldable pub insert_sorted : A → List A → List A
  insert_sorted x [] = x ∷ []
  insert_sorted x (y ∷ ys) =
      let rest = insert_sorted x ys in
      elim (compare x y) [ Ordering.gt ↦ y ∷ rest | _ ↦ x ∷ y ∷ ys ]

  unfoldable pub sort : List A → List A
  unfolding insert_sorted
  sort [] = []
  sort (x ∷ xs) = insert_sorted x (sort xs)
