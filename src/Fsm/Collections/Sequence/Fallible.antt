-- ===== src/Fsm/Collections/Sequence/Fallible.antt =====
-- The loops over a list whose closure may panic, at ids.
use ru_fsm.Common.{
  Bool, true, false, List, [], ◌∷◌, Run, ok, if◌then◌else◌, PartialEq, nat_eq, ◌≡◌, ◌↔◌, inl, inr,
  refl, arith, Bool-cases, >>=-eq-ok,
}
use ru_fsm.Fsm.Collections.Sequence.{contains, filter_run, some_run, every_run}

-- The closure answers on each member.
abbrev pub Answers {ℓ} : {A : Type ℓ} → (A → Run Bool) → List A → Type 0
Answers f [] = Unit
Answers f (x ∷ xs) = ((b : Bool) × (f x ≡ ok b)) × Answers f xs

pub Answers-of {ℓ} :
    {A : Type ℓ} (f : A → Run Bool) (xs : List A)
    → ((a : A) → (b : Bool) × (f a ≡ ok b))
    → Answers f xs
Answers-of f [] h = tt
Answers-of f (x ∷ xs) h = (h x, Answers-of f xs h)

module _ {ℓ} {A : Type ℓ} (f : A → Run Bool) where
  pub every_run_returns : (xs : List A) → Answers f xs → (b : Bool) × (every_run f xs ≡ ok b)
  unfolding every_run
  every_run_returns [] h = (true, refl)
  every_run_returns (x ∷ xs) ((true, e), h) = let (b, q) = every_run_returns xs h in (b, rw e q)
  every_run_returns (x ∷ xs) ((false, e), h) = (false, rw e)

  pub some_run_returns : (xs : List A) → Answers f xs → (b : Bool) × (some_run f xs ≡ ok b)
  unfolding some_run
  some_run_returns [] h = (false, refl)
  some_run_returns (x ∷ xs) ((true, e), h) = (true, rw e)
  some_run_returns (x ∷ xs) ((false, e), h) = let (b, q) = some_run_returns xs h in (b, rw e q)

  pub filter_run_returns : (xs : List A) → Answers f xs → (l : List A) × (filter_run f xs ≡ ok l)
  unfolding filter_run
  filter_run_returns [] h = ([], refl)
  filter_run_returns (x ∷ xs) ((b, e), h) =
      let (l, q) = filter_run_returns xs h in ((if b then x ∷ l else l), rw (e, q))

module _ {ℓ} {A : Type ℓ} ⦃e : PartialEq A⦄ (f : A → Run Bool) where
  pub every_run-eq-true :
      (xs : List A) (a : A) → every_run f xs ≡ ok true → contains xs a ≡ true → f a ≡ ok true
  unfolding every_run contains
  every_run-eq-true [] a h m = cc
  every_run-eq-true (x ∷ xs) a h m = ground (arith, every_run-eq-true xs a, e.eq_iff x a)

  pub every_run_of_all :
      (xs : List A) → ((a : A) → contains xs a ≡ true → f a ≡ ok true) → every_run f xs ≡ ok true
  unfolding every_run contains
  every_run_of_all [] h = refl
  every_run_of_all (x ∷ xs) h =
      rw (h x (ground (arith, e.eq_iff x x))) (every_run_of_all xs (λ a m. h a (ground arith)))

  pub some_run-eq-true :
      (xs : List A) → some_run f xs ≡ ok true → (a : A) × (contains xs a ≡ true) × (f a ≡ ok true)
  unfolding some_run contains
  some_run-eq-true [] h = cc
  some_run-eq-true (x ∷ xs) h =
      let (b, p, q) = >>=-eq-ok (f x) _ h in
      elim (Bool-cases b) [
        | inl t ↦ (x, ground (arith, e.eq_iff x x), ground arith)
        | inr t ↦ let (a, m, r) = some_run-eq-true xs (rw t at q) in (a, ground arith, r)
      ]

  pub some_run-eq-false :
      (xs : List A) (a : A) → some_run f xs ≡ ok false → contains xs a ≡ true → f a ≡ ok false
  unfolding some_run contains
  some_run-eq-false [] a h m = cc
  some_run-eq-false (x ∷ xs) a h m = ground (arith, some_run-eq-false xs a, e.eq_iff x a)

  -- `filter_by` keeps exactly the members on which the closure is true.
  pub contains-filter_run :
      (xs l : List A) (a : A)
      → filter_run f xs ≡ ok l
      → (contains l a ≡ true) ↔ ((contains xs a ≡ true) × (f a ≡ ok true))
  unfolding filter_run contains
  contains-filter_run [] l a h = ground arith
  contains-filter_run (x ∷ xs) l a h =
      let (b, p, q) = >>=-eq-ok (f x) _ h in
      let (r, c, d) = >>=-eq-ok (filter_run f xs) _ q in
      ground (arith, contains-filter_run xs r a c, e.eq_iff x a)
