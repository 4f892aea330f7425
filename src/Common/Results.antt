-- ===== src/Common/Results.antt =====
-- Results of code that may stop: an assertion that fails, a call of `Debugger`, which raises
-- SIGSTOP, a call of `out_of_memory`, a fault (undefined behaviour of the C code), or a loop of the model that is given too little fuel.
use mathlib.Core.Bool.{Bool, true, false}

pub data Stop : Type 0 where
  assertion debugger out_of_memory fault out_of_fuel : Stop

pub data Run {ℓ} (A : Type ℓ) : Type ℓ where
  ok : A → Run A
  stopped : Stop → Run A

infixl 5 ◌>>=◌ ◌>>◌
abbrev pub ◌>>=◌ {ℓ κ} : {A : Type ℓ} {B : Type κ} → Run A → (A → Run B) → Run B
ok a >>= f = f a
stopped e >>= f = stopped e

abbrev pub ◌>>◌ {ℓ} : {B : Type ℓ} → Run (Unit {0}) → Run B → Run B
m >> k = m >>= λ _. k

-- `guard c e` goes on if the condition holds.
abbrev pub guard : Bool → Stop → Run (Unit {0})
guard true e = ok tt
guard false e = stopped e

-- The run is not stopped, and its result has the property.
pub data Returns {ℓ κ} {A : Type ℓ} (P : A → Type κ) : Run A → Type (ℓ ⊔ κ) where
  returns : {a : A} → P a → Returns P (ok a)

module _ {ℓ} {A : Type ℓ} where
  pub Returns-mono {κ μ} :
      {P : A → Type κ} {Q : A → Type μ} {r : Run A}
      → Returns P r
      → ((a : A) → P a → Q a)
      → Returns Q r
  Returns-mono (returns p) f = returns (f _ p)

  pub Returns-bind {κ μ ν} :
      {B : Type ν} {P : A → Type κ} {Q : B → Type μ} {r : Run A} {k : A → Run B}
      → Returns P r
      → ((a : A) → P a → Returns Q (k a))
      → Returns Q (r >>= k)
  Returns-bind (returns p) f = f _ p
