-- ===== src/Fsm/Collections/Sequence/Membership.antt =====
-- Membership in a list, told by `Vec::contains`, under the list operations.
use ru_fsm.Common.{
  Bool, true, ◌&&◌, ◌||◌, List, [], ◌∷◌, ◌++◌, PartialEq, ◌==◌, ◌≡◌, refl, sym, ◌∙◌, arith, inl,
  inr, Bool-cases, append-nil, append_assoc,
}
use ru_fsm.Fsm.Collections.Sequence.{append, filter_by, some_by, every, contains}

pub append_lem {ℓ} : {A : Type ℓ} (t l : List A) → append t l ≡ t ++ l
unfolding append
append_lem t [] = sym (append-nil t)
append_lem t (i ∷ l) = append_lem (t ++ (i ∷ [])) l ∙ append_assoc t (i ∷ []) l

module _ {ℓ} {A : Type ℓ} ⦃e : PartialEq A⦄ where
  pub beq_refl : (a : A) → (a == a) ≡ true
  beq_refl a = (e.eq_iff a a).1 refl

  pub contains-append :
      (xs ys : List A) (a : A) → contains (xs ++ ys) a ≡ (contains xs a || contains ys a)
  unfolding contains
  contains-append [] ys a = refl
  contains-append (x ∷ xs) ys a = ground (arith, contains-append xs ys a)

  pub contains-filter :
      (f : A → Bool) (xs : List A) (a : A) → contains (filter_by f xs) a ≡ (contains xs a && f a)
  unfolding contains filter_by
  contains-filter f [] a = refl
  contains-filter f (x ∷ xs) a = ground (arith, contains-filter f xs a, e.eq_iff x a)

  -- What `some` finds, and what makes it find something.
  pub some_by_of_contains :
      (f : A → Bool) (xs : List A) (a : A) → contains xs a ≡ true → f a ≡ true → some_by f xs ≡ true
  unfolding contains some_by
  some_by_of_contains f [] a m h = cc
  some_by_of_contains f (x ∷ xs) a m h = ground (arith, some_by_of_contains f xs a, e.eq_iff x a)

  pub some_by-eq-true :
      (f : A → Bool) (xs : List A)
      → some_by f xs ≡ true
      → (a : A) × (contains xs a ≡ true) × (f a ≡ true)
  unfolding contains some_by
  some_by-eq-true f [] h = cc
  some_by-eq-true f (x ∷ xs) h = elim (Bool-cases (f x)) [
    | inl p ↦ (x, ground (arith, beq_refl x), p)
    | inr p ↦ let (a, m, q) = some_by-eq-true f xs (ground arith) in (a, ground arith, q)
  ]

  -- `every` is `true` exactly if each member passes the test.
  pub every-eq-true :
      (f : A → Bool) (xs : List A) (a : A) → every f xs ≡ true → contains xs a ≡ true → f a ≡ true
  unfolding contains every
  every-eq-true f [] a h m = cc
  every-eq-true f (x ∷ xs) a h m = ground (arith, every-eq-true f xs a, e.eq_iff x a)

  pub every_of_contains :
      (f : A → Bool) (xs : List A)
      → ((a : A) → contains xs a ≡ true → f a ≡ true)
      → every f xs ≡ true
  unfolding contains every
  every_of_contains f [] h = refl
  every_of_contains f (x ∷ xs) h =
      ground (arith, h x, beq_refl x, every_of_contains f xs (λ a m. h a (ground arith)))
