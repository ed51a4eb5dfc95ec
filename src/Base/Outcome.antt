-- ===== src/Base/Outcome.antt =====
-- How a call ends: with a value, by undefined behaviour or a failed `assert`, or because the
-- model's fuel ran out; and the rules for calls that end well.
use mathlib.Core.Path.{◌≡◌}
use mathlib.Core.Bool.{Bool, true, false}
use mathlib.Core.Option.{Option, none, some}

pub data Run {ℓ} (A : Type ℓ) : Type ℓ where
  fault out_of_fuel : Run A
  ok : A → Run A

module _ {ℓ κ} {A : Type ℓ} {B : Type κ} where
  infixl 5 ◌>>=◌
  abbrev pub ◌>>=◌ : Run A → (A → Run B) → Run B
  out_of_fuel >>= next = out_of_fuel
  fault >>= next = fault
  ok a >>= next = next a

infixl 5 ◌>>◌
abbrev pub ◌>>◌ {κ} : {B : Type κ} → Run (Unit {0}) → Run B → Run B
before >> after = before >>= λ _. after

-- The value of a cell that may hold none.
abbrev pub or_fault {ℓ} : {A : Type ℓ} → Option A → Run A
or_fault none = fault
or_fault (some a) = ok a

-- C's `assert`.
abbrev pub check : Bool → Run (Unit {0})
check false = fault
check true = ok tt

-- `Returns P m`: the call `m` ends, and its value has the property `P`.
pub data Returns {ℓ κ} {A : Type ℓ} (P : A → Type κ) : Run A → Type (ℓ ⊔ κ) where
  returns : {value : A} → P value → Returns P (ok value)

-- `Safe P m`: the call `m` does not fault; if it ends, its value has the property.
pub data Safe {ℓ κ} {A : Type ℓ} (P : A → Type κ) : Run A → Type (ℓ ⊔ κ) where
  running : Safe P out_of_fuel
  safe : {value : A} → P value → Safe P (ok value)

module _ {ℓ κ μ ν} {A : Type ℓ} {B : Type μ} {P : A → Type κ} {Q : B → Type ν} where
  pub Returns-bind :
      {m : Run A} {k : A → Run B}
      → Returns P m
      → ((x : A) → P x → Returns Q (k x))
      → Returns Q (m >>= k)
  Returns-bind (returns {value} holds) after = after value holds

  pub Safe-bind :
      {m : Run A} {k : A → Run B} → Returns P m → ((x : A) → P x → Safe Q (k x)) → Safe Q (m >>= k)
  Safe-bind (returns {value} holds) after = after value holds

pub Returns-map {ℓ κ ν} :
    {A : Type ℓ} {P : A → Type κ} {Q : A → Type ν} {m : Run A}
    → Returns P m
    → ((x : A) → P x → Q x)
    → Returns Q m
Returns-map (returns {value} holds) implies = returns (implies value holds)

pub Returns-fault {ℓ κ ν} :
    {A : Type ℓ} {P : A → Type κ} {B : Type ν} {m : Run A} {k : A → Run B}
    → Returns P m
    → ((x : A) → P x → k x ≡ fault)
    → (m >>= k) ≡ fault
Returns-fault (returns {value} holds) after = after value holds
