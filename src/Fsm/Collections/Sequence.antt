-- ===== src/Fsm/Collections/Sequence.antt =====
-- `List<T>` of src/fsm.rs: a struct around one `Vec<T>`, so a list. `iterator` is the list itself.
pub mod Membership
pub mod Fallible
use ru_fsm.Common.{
  ℕ, Bool, true, false, not, ◌&&◌, ◌||◌, List, [], ◌∷◌, ◌++◌, Run, ok, panic, ◌>>=◌, if◌then◌else◌,
  PartialEq, ◌==◌,
}

module _ {ℓ} {A : Type ℓ} where
  -- `head`, with the panic of `first().unwrap()` on the empty list.
  unfoldable pub head : List A → Run A
  head [] = panic
  head (x ∷ xs) = ok x

  -- `tail`, with the panic of `remove(0)` on the empty list.
  unfoldable pub tail : List A → Run (List A)
  tail [] = panic
  tail (x ∷ xs) = ok xs

  unfoldable pub push : List A → A → List A
  push l t = l ++ (t ∷ [])

  -- `append`, and `append_set` and `push_set` too: the argument's elements are pushed one by one.
  unfoldable pub append : List A → List A → List A
  unfolding push
  append t [] = t
  append t (i ∷ l) = append (push t i) l

  unfoldable pub filter_by : (A → Bool) → List A → List A
  filter_by f [] = []
  filter_by f (i ∷ l) = let rest = filter_by f l in if f i then i ∷ rest else rest

  -- `some` of `List` and of `OrderedSet`.
  unfoldable pub some_by : (A → Bool) → List A → Bool
  some_by f [] = false
  some_by f (si ∷ l) = let rest = some_by f l in if f si then true else rest

  -- `every` of `List` and of `OrderedSet`.
  unfoldable pub every : (A → Bool) → List A → Bool
  every f [] = true
  every f (si ∷ l) = let rest = every f l in if not (f si) then false else rest

  -- `filter_by`, `some` and `every` with a closure that may panic; they stop at the first panic, and
  -- `some` and `every` at the first answer.
  unfoldable pub filter_run : (A → Run Bool) → List A → Run (List A)
  filter_run f [] = ok []
  filter_run f (i ∷ l) = do keep ← f i; rest ← filter_run f l; ok (if keep then i ∷ rest else rest)

  unfoldable pub some_run : (A → Run Bool) → List A → Run Bool
  some_run f [] = ok false
  some_run f (si ∷ l) = f si >>= λ b. elim b [ true ↦ ok true | false ↦ some_run f l ]

  unfoldable pub every_run : (A → Run Bool) → List A → Run Bool
  every_run f [] = ok true
  every_run f (si ∷ l) = f si >>= λ b. elim b [ true ↦ every_run f l | false ↦ ok false ]

-- `Vec::contains`.
module _ {ℓ} {A : Type ℓ} ⦃e : PartialEq A⦄ where
  unfoldable pub contains : List A → A → Bool
  contains [] a = false
  contains (x ∷ xs) a = x == a || contains xs a
