-- ===== src/Common/After.antt =====
-- Partial correctness of a call: what holds of the result, if it returns.
use mathlib.Core.Bool.{Bool, true, false}
use ru_fsm.Common.Outcome.{Run, ok, panic, stuck, ◌>>=◌}
use ru_fsm.Common.Tests.{if◌then◌else◌}

-- What holds of the result, if the run returns.
abbrev pub After {ℓ} : {A : Type ℓ} → (A → Type 0) → Run A → Type 0
After P (ok r) = P r
After P _ = Unit

pub After-bind {ℓ κ} :
    {A : Type ℓ} {B : Type κ} (P : A → Type 0) (Q : B → Type 0) (m : Run A) (next : A → Run B)
    → After P m
    → ((a : A) → P a → After Q (next a))
    → After Q (m >>= next)
After-bind P Q stuck next p k = tt
After-bind P Q panic next p k = tt
After-bind P Q (ok a) next p k = k a p

pub After-weaken {ℓ} :
    {A : Type ℓ} (P Q : A → Type 0) (m : Run A) → After P m → ((a : A) → P a → Q a) → After Q m
After-weaken P Q stuck p k = tt
After-weaken P Q panic p k = tt
After-weaken P Q (ok a) p k = k a p

pub if-After {ℓ} :
    {A : Type ℓ} (P : A → Type 0) (b : Bool) (x y : Run A)
    → After P x
    → After P y
    → After P (if b then x else y)
if-After P true x y p q = p
if-After P false x y p q = q
