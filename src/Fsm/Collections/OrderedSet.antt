-- ===== src/Fsm/Collections/OrderedSet.antt =====
-- `OrderedSet<T>` of src/fsm.rs: a struct around one `Vec<T>`, so a list whose order is that of
-- insertion; `toList` and `iterator` are the list itself. `some`, `every` and `sort` are those of
-- `Sequence` and `Sorting`.
pub mod Laws
use ru_fsm.Common.{Bool, true, false, List, [], ◌∷◌, if◌then◌else◌, PartialEq, ◌==◌}
use ru_fsm.Fsm.Collections.Sequence.{push, filter_by, contains}
use mathlib.Core.Bool.{not}

abbrev pub OrderedSet {ℓ} : Type ℓ → Type ℓ
OrderedSet T = List T

module _ {ℓ} {T : Type ℓ} ⦃e : PartialEq T⦄ where
  unfoldable pub is_member : OrderedSet T → T → Bool
  unfolding contains
  is_member s a = contains s a

  unfoldable pub add : OrderedSet T → T → OrderedSet T
  unfolding push contains
  add s a = if not (contains s a) then push s a else s

  -- `retain(|x| *x != *e)`
  unfoldable pub delete : OrderedSet T → T → OrderedSet T
  unfolding filter_by
  delete s a = filter_by (λ x. not (x == a)) s

  unfoldable pub union : OrderedSet T → OrderedSet T → OrderedSet T
  unfolding add is_member
  union s [] = s
  union s (si ∷ t) = union (if not (is_member s si) then add s si else s) t

  unfoldable pub has_intersection : OrderedSet T → OrderedSet T → Bool
  unfolding is_member
  has_intersection [] t = false
  has_intersection (si ∷ s) t =
      let rest = has_intersection s t in if is_member t si then true else rest

  -- `List::to_set`, and the loops of the interpreter that add the items of a list to a set.
  unfoldable pub add_all : OrderedSet T → List T → OrderedSet T
  unfolding add
  add_all s [] = s
  add_all s (a ∷ l) = add_all (add s a) l

  unfoldable pub to_set : List T → OrderedSet T
  unfolding add_all
  to_set l = add_all [] l

unfoldable pub is_empty {ℓ} : {T : Type ℓ} → OrderedSet T → Bool
is_empty [] = true
is_empty (a ∷ s) = false
