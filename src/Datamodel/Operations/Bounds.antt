-- ===== src/Datamodel/Operations/Bounds.antt =====
-- The integers that the operations of src/datamodel/mod.rs compute.
use ru_fsm.Common.{
  ℕ, zero, suc, ◌+◌, ◌-◌, ◌*◌, ◌^◌, ◌≤◌, ◌<◌, ◌≡◌, ◌↔◌, ◌⊎◌, refl, ap, arith, Bool-cases, inl, inr,
  leb, Run, ok, panic, stuck, ◌>>=◌, List,
}
use ru_fsm.Datamodel.Cells.{Heap}
use ru_fsm.Common.Float.{Float}
use ru_fsm.Common.Int.{
  ℤ, pos, negsuc, saturate, neg, checked_rem, saturating_add, saturating_sub, saturating_mul,
  InRange, difference, ◌+ℤ◌, ◌*ℤ◌,
}
use ru_fsm.Datamodel.Operations.{
  is_numeric, numeric, operation_plus, with_heap, operation_minus, operation_multiply,
  operation_modulus, arithmetic,
}
use ru_fsm.Datamodel.Value.{Value, integer}

-- The parts of a number: it is `up i` less `down i`.
abbrev pub up : ℤ → ℕ
up (pos n) = n
up (negsuc n) = 0

abbrev pub down : ℤ → ℕ
down (pos n) = 0
down (negsuc n) = n + 1

-- The number of the machine that is nearest to `p` less `q`.
pub data Nearest (p q : ℕ) : ℤ → Type 0 where
  exact : {i : ℤ} → InRange i → up i + q ≡ down i + p → Nearest p q i
  greatest : 2 ^ 63 + q ≤ p → Nearest p q (pos (2 ^ 63 - 1))
  least : 2 ^ 63 + p < q → Nearest p q (negsuc (2 ^ 63 - 1))

saturate-Nearest : (i : ℤ) (p q : ℕ) → up i + q ≡ down i + p → Nearest p q (saturate i)
unfolding saturate
saturate-Nearest (pos n) p q e = elim (Bool-cases (leb n (2 ^ 63 - 1))) [
  | inl y ↦ rw y (exact (ground arith) e)
  | inr m ↦ rw m (greatest (ground arith))
]
saturate-Nearest (negsuc n) p q e = elim (Bool-cases (leb n (2 ^ 63 - 1))) [
  | inl y ↦ rw y (exact (ground arith) e)
  | inr m ↦ rw m (least (ground arith))
]

sum_parts : (a b : ℤ) → up (a +ℤ b) + (down a + down b) ≡ down (a +ℤ b) + (up a + up b)
unfolding ◌+ℤ◌ difference
sum_parts (pos m) (pos n) = omega arith
sum_parts (pos m) (negsuc n) = elim (Bool-cases (leb (n + 1) m)) [
  | inl y ↦ rw y (ground arith)
  | inr z ↦ rw z (ground arith)
]
sum_parts (negsuc m) (pos n) = elim (Bool-cases (leb (m + 1) n)) [
  | inl y ↦ rw y (ground arith)
  | inr z ↦ rw z (ground arith)
]
sum_parts (negsuc m) (negsuc n) = omega arith

up-neg : (i : ℤ) → up (neg i) ≡ down i
unfolding neg
up-neg (pos zero) = refl
up-neg (pos (suc n)) = refl
up-neg (negsuc n) = refl

down-neg : (i : ℤ) → down (neg i) ≡ up i
unfolding neg
down-neg (pos zero) = refl
down-neg (pos (suc n)) = omega arith
down-neg (negsuc n) = refl

difference_parts :
    (a b : ℤ) → up (a +ℤ neg b) + (down a + up b) ≡ down (a +ℤ neg b) + (up a + down b)
difference_parts a b = cc (sum_parts a (neg b), up-neg b, down-neg b)

product_parts :
    (a b : ℤ)
    → up (a *ℤ b) + (up a * down b + down a * up b)
      ≡ down (a *ℤ b) + (up a * up b + down a * down b)
unfolding ◌*ℤ◌
product_parts (pos m) (pos n) = omega arith
product_parts (pos m) (negsuc n) =
    omega (arith, up-neg (pos (m * (n + 1))), down-neg (pos (m * (n + 1))))
product_parts (negsuc m) (pos n) =
    omega (arith, up-neg (pos ((m + 1) * n)), down-neg (pos ((m + 1) * n)))
product_parts (negsuc m) (negsuc n) = omega arith

-- Of two integers `+`, `-` and `*` return the number of 64 bits nearest to their sum, difference and product:
-- the exact one where it is a number of 64 bits, else the greatest or the least of these; `+` keeps the heap.
pub arithmetic-Nearest :
    (F : Float) (h : Heap) (locked : List ℕ) (a b : ℤ)
    → ((i : ℤ) × (operation_plus F h locked (integer a) (integer b) ≡ ok (integer i, h))
        × Nearest (up a + up b) (down a + down b) i)
      × ((i : ℤ) × (operation_minus F (integer a) (integer b) ≡ ok (integer i))
          × Nearest (up a + down b) (down a + up b) i)
      × ((i : ℤ) × (operation_multiply F (integer a) (integer b) ≡ ok (integer i))
          × Nearest (up a * up b + down a * down b) (up a * down b + down a * up b) i)
unfolding operation_plus operation_minus operation_multiply arithmetic is_numeric numeric with_heap
    saturating_add saturating_sub saturating_mul
arithmetic-Nearest F h locked a b = (
  (saturate (a +ℤ b), refl, saturate-Nearest _ _ _ (sum_parts a b)),
  (saturate (a +ℤ neg b), refl, saturate-Nearest _ _ _ (difference_parts a b)),
  (saturate (a *ℤ b), refl, saturate-Nearest _ _ _ (product_parts a b)),
)

abbrev Undefined : ℤ → ℤ → Type 0
Undefined a b = (b ≡ pos 0) ⊎ ((a ≡ negsuc (2 ^ 63 - 1)) × (b ≡ negsuc 0))

rem_panics : (a b : ℤ) → checked_rem a b ≡ panic → Undefined a b
unfolding checked_rem
rem_panics (pos m) (pos n) h = inl (ap pos (ground arith))
rem_panics (negsuc m) (pos n) h = inl (ap pos (ground arith))
rem_panics (pos m) (negsuc n) h = absurd (ground arith)
rem_panics (negsuc m) (negsuc n) h = inr (ap negsuc (ground arith), ap negsuc (ground arith))

panics_rem : (a b : ℤ) → Undefined a b → checked_rem a b ≡ panic
unfolding checked_rem
panics_rem a b (inl e) = rw e refl
panics_rem a b (inr (e, f)) = rw e (rw f refl)

bind_panics : (m : Run ℤ) → (m >>= λ i. ok (integer i)) ≡ panic → m ≡ panic
bind_panics (ok i) h = cc
bind_panics panic h = refl
bind_panics stuck h = cc

modulus_panics :
    (F : Float) (l r : Value)
    → operation_modulus F l r ≡ panic
    → (a : ℤ) × (b : ℤ) × (l ≡ integer a) × (r ≡ integer b) × Undefined a b
unfolding operation_modulus arithmetic is_numeric numeric
modulus_panics F (integer a) (integer b) h =
    (a, b, refl, refl, rem_panics a b (bind_panics (checked_rem a b) h))
modulus_panics F _ _ h = absurd (ground arith)

panics_modulus :
    (F : Float) (a b : ℤ) → Undefined a b → operation_modulus F (integer a) (integer b) ≡ panic
unfolding operation_modulus arithmetic is_numeric numeric
panics_modulus F a b u = rw (panics_rem a b u) refl

-- `operation_modulus` panics where both sides are integers and the divisor is 0, or the dividend is the least
-- integer and the divisor -1, and on no other two values.
pub operation_modulus_panics :
    (F : Float) (l r : Value)
    → (operation_modulus F l r ≡ panic) ↔ (
        (a : ℤ) × (b : ℤ) × (l ≡ integer a)
        × (r ≡ integer b)
        × ((b ≡ pos 0) ⊎ ((a ≡ negsuc (2 ^ 63 - 1)) × (b ≡ negsuc 0))))
operation_modulus_panics F l r =
    (modulus_panics F l r, λ (a, b, p, q, u). rw p (rw q (panics_modulus F a b u)))
