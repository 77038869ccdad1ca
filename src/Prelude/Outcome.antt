-- ===== src/Prelude/Outcome.antt =====
-- `anyhow::Result` as a value: `ok`, or `err` with the message of the `ensure!`, `bail!` or
-- `context` that raised it. `out_of_fuel` marks a loop that was given too few rounds; the theorems
-- about each loop exclude it.
use Prim.Native.String.{String}
use mathlib.Core.Path.{◌≡◌, refl, subst}
use mathlib.Core.Logic.{◌≢◌, ◌⊎◌, inl, inr}
use mathlib.Core.Bool.{Bool, true, false}
use mathlib.Core.Option.{Option, none, some}
use native.Mathlib.Omega.{arith}

pub data Result {ℓ} (Value : Type ℓ) : Type ℓ where
  out_of_fuel : Result Value
  err : String → Result Value
  ok : Value → Result Value

infixl 5 ◌>>=◌ ◌>>◌
abbrev pub ◌>>=◌ {ℓ κ} :
    {Value : Type ℓ} {Next : Type κ} → Result Value → (Value → Result Next) → Result Next
out_of_fuel >>= rest = out_of_fuel
err message >>= rest = err message
ok value >>= rest = rest value

abbrev pub ◌>>◌ {ℓ} : {Next : Type ℓ} → Result (Unit {0}) → Result Next → Result Next
done >> rest = done >>= λ u. rest

-- `ensure!(test, message)`
abbrev pub ensure : Bool → String → Result (Unit {0})
ensure true e = ok tt
ensure false e = err e

-- `option.context(message)`
abbrev pub context {ℓ} : {A : Type ℓ} → Option A → String → Result A
context none e = err e
context (some a) e = ok a

-- Inversion of a successful bind, test and `context`.
pub >>=-eq-ok {ℓ κ} :
    {Value : Type ℓ} {Next : Type κ} (first : Result Value) (rest : Value → Result Next)
    {out : Next}
    → (first >>= rest) ≡ ok out
    → (value : Value) × (first ≡ ok value) × (rest value ≡ ok out)
>>=-eq-ok out_of_fuel rest done = cc
>>=-eq-ok (err message) rest done = cc
>>=-eq-ok (ok value) rest done = (value, refl, done)

pub ensure-eq-ok {ℓ} :
    {B : Type ℓ} (b : Bool) (e : String) (k : Result B) {v : B}
    → (ensure b e >> k) ≡ ok v
    → (b ≡ true) × (k ≡ ok v)
ensure-eq-ok true e k h = (refl, h)
ensure-eq-ok false e k h = cc

pub context-eq-ok {ℓ} :
    {A : Type ℓ} (o : Option A) (e : String) {a : A} → context o e ≡ ok a → o ≡ some a
context-eq-ok none e h = cc
context-eq-ok (some a) e h = cc

pub >>=-ne-out_of_fuel {ℓ κ} :
    {Value : Type ℓ} {Next : Type κ} (first : Result Value) (rest : Value → Result Next)
    → first ≢ out_of_fuel
    → ((value : Value) → first ≡ ok value → rest value ≢ out_of_fuel)
    → (first >>= rest) ≢ out_of_fuel
>>=-ne-out_of_fuel out_of_fuel rest fueled next = absurd (fueled refl)
>>=-ne-out_of_fuel (err message) rest fueled next = λ p. cc
>>=-ne-out_of_fuel (ok value) rest fueled next = next value refl

-- What holds of the value, if there is one.
abbrev pub IfOk {ℓ κ} : {Value : Type ℓ} → (Value → Type κ) → Result Value → Type κ
IfOk P out_of_fuel = Unit
IfOk P (err message) = Unit
IfOk P (ok value) = P value

pub IfOk-ok {ℓ κ} :
    {Value : Type ℓ} (P : Value → Type κ) (done : Result Value) {value : Value}
    → IfOk P done
    → done ≡ ok value
    → P value
IfOk-ok P out_of_fuel holds e = cc
IfOk-ok P (err message) holds e = cc
IfOk-ok P (ok v) holds e = let same : v ≡ _ = ground (arith, e) in subst P same holds

pub Result-cases {ℓ} :
    {Value : Type ℓ} (done : Result Value)
    → ((value : Value) × (done ≡ ok value))
      ⊎ (((message : String) × (done ≡ err message)) ⊎ (done ≡ out_of_fuel))
Result-cases out_of_fuel = inr (inr refl)
Result-cases (err message) = inr (inl (message, refl))
Result-cases (ok value) = inl (value, refl)

-- What holds of a bind's value, from what holds of its first step's.
pub IfOk-bind {ℓ κ μ} :
    {A : Type ℓ} {B : Type κ} (P : A → Type μ) (Q : B → Type μ) (first : Result A)
    (rest : A → Result B)
    → IfOk P first
    → ((a : A) → P a → IfOk Q (rest a))
    → IfOk Q (first >>= rest)
IfOk-bind P Q out_of_fuel rest h next = tt
IfOk-bind P Q (err e) rest h next = tt
IfOk-bind P Q (ok a) rest h next = next a h

pub Unit-IfOk {ℓ} : {A : Type ℓ} (done : Result A) → IfOk (λ a. Unit {0}) done
Unit-IfOk out_of_fuel = tt
Unit-IfOk (err e) = tt
Unit-IfOk (ok a) = tt
