-- ===== src/Common/Loop.antt =====
-- Rust's `loop` and `while` as the repetition of a step, with fuel, and what a measure that falls gives.
use Prim.Native.Nat.{ℕ, zero, suc, ◌<◌}
use mathlib.Core.Path.{◌≡◌, refl, ap, ◌∙◌}
use native.Mathlib.Omega.{arith}
use ru_fsm.Common.Outcome.{Run, ok, stuck, ◌>>=◌}
use ru_fsm.Common.Tests.{if◌then◌else◌}
use mathlib.Core.Bool.{Bool, true, false}

-- One pass through the body: on to the next with a new state, or out with a result.
pub data Pass {ℓ κ} (S : Type ℓ) (A : Type κ) : Type (ℓ ⊔ κ) where
  again : S → Pass S A
  finish : A → Pass S A

-- The call returns a good result.
pub record Returns {κ ν} {A : Type κ} (Q : A → Type ν) (run : Run A) : Type (κ ⊔ ν) where
  pub value : A
  pub returns : run ≡ ok value
  pub good : Q value

module _ {ℓ κ} {S : Type ℓ} {A : Type κ} where
  unfoldable pub repeat : (S → Pass S A) → ℕ → S → Run A
  repeat body zero s = stuck
  repeat body (suc fuel) s = elim (body s) [ again next ↦ repeat body fuel next | finish a ↦ ok a ]

  -- The pass keeps the invariant and lowers the measure, or ends with a result that is good.
  abbrev pub Advances {μ ν} : (S → Type μ) → (S → ℕ) → (A → Type ν) → S → Pass S A → Type (μ ⊔ ν)
  Advances I m Q s (again next) = I next × (m next < m s) × Unit {ν}
  Advances I m Q s (finish a) = Q a × Unit {μ}

  -- Fuel above the measure is enough.
  pub repeat-Returns {μ ν} :
      (I : S → Type μ) (m : S → ℕ) (Q : A → Type ν) (body : S → Pass S A)
      → ((s : S) → I s → Advances I m Q s (body s))
      → (fuel : ℕ) (s : S) → I s
      → m s < fuel
      → Returns Q (repeat body fuel s)
  unfolding repeat
  repeat-Returns I m Q body adv zero s i lt = absurd (omega arith)
  repeat-Returns I m Q body adv (suc fuel) s i lt =
      let go : (p : Pass S A)
          → Advances I m Q s p
          → Returns Q (elim p [ again next ↦ repeat body fuel next | finish a ↦ ok a ]) =
        elim [
          | again next ↦ λ (j, less, _). repeat-Returns I m Q body adv fuel next j (omega arith)
          | finish a ↦ λ (q, _). record { value = a; returns = refl; good = q }
        ] in
      go (body s) (adv s i)

pub ok-Returns {κ ν} : {A : Type κ} {Q : A → Type ν} (a : A) → Q a → Returns Q (ok a)
ok-Returns a q = record { value = a; returns = refl; good = q }

pub if-Returns {κ ν} :
    {A : Type κ} {Q : A → Type ν} (b : Bool) {x y : Run A}
    → (b ≡ true → Returns Q x)
    → (b ≡ false → Returns Q y)
    → Returns Q (if b then x else y)
if-Returns true x y = x refl
if-Returns false x y = y refl

-- A call and what follows it.
pub bind-Returns {κ κ' ν ν'} :
    {A : Type κ} {B : Type κ'} {P : A → Type ν} {Q : B → Type ν'} {run : Run A} (next : A → Run B)
    → Returns P run
    → ((a : A) → P a → Returns Q (next a))
    → Returns Q (run >>= next)
bind-Returns next r k =
    let after = k r.value r.good in
    record {
      value = after.value;
      returns = ap (λ m. m >>= next) r.returns ∙ after.returns;
      good = after.good;
    }

pub weaken-Returns {κ ν ν'} :
    {A : Type κ} {P : A → Type ν} {Q : A → Type ν'} {run : Run A}
    → Returns P run
    → ((a : A) → P a → Q a)
    → Returns Q run
weaken-Returns r k = record { value = r.value; returns = r.returns; good = k r.value r.good }

-- A loop that ends in its first pass.
pub repeat-finish {ℓ κ} :
    {S : Type ℓ} {A : Type κ} (body : S → Pass S A) (fuel : ℕ) (s : S) {a : A}
    → 0 < fuel
    → body s ≡ finish a
    → repeat body fuel s ≡ ok a
unfolding repeat
repeat-finish body zero s h e = absurd (omega arith)
repeat-finish body (suc fuel) s h e = rw (e, repeat) refl
