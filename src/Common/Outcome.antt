-- ===== src/Common/Outcome.antt =====
-- What a call of a Rust function can do: return, panic, or, in the model only, use up the fuel of
-- a loop that has no other bound.
use Prim.Native.Nat.{ℕ}
use mathlib.Core.List.{List}
use mathlib.Core.Path.{◌≡◌, refl}
use mathlib.Core.Option.{Option, none, some}

pub data Run {ℓ} (A : Type ℓ) : Type ℓ where
  ok : A → Run A
  panic : Run A
  stuck : Run A

infixl 5 ◌>>=◌
abbrev pub ◌>>=◌ {ℓ κ} : {A : Type ℓ} {B : Type κ} → Run A → (A → Run B) → Run B
stuck >>= next = stuck
panic >>= next = panic
ok result >>= next = next result

-- `unwrap`
abbrev pub unwrap {ℓ} : {A : Type ℓ} → Option A → Run A
unwrap none = panic
unwrap (some a) = ok a

-- Inversion of a successful bind.
pub >>=-eq-ok {ℓ κ} :
    {A : Type ℓ} {B : Type κ} (m : Run A) (f : A → Run B) {b : B}
    → (m >>= f) ≡ ok b
    → (value : A) × (m ≡ ok value) × (f value ≡ ok b)
>>=-eq-ok panic f h = cc
>>=-eq-ok stuck f h = cc
>>=-eq-ok (ok a) f h = (a, refl, h)

-- `Result<_, String>`
pub data Result {ℓ} (A : Type ℓ) : Type ℓ where
  success : A → Result A
  failure : List ℕ → Result A

pub ok-eq-ok {ℓ} : {A : Type ℓ} {a b : A} → ok a ≡ ok b → a ≡ b
ok-eq-ok h = cc
