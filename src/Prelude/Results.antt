-- ===== src/Prelude/Results.antt =====
-- What a method does to its object: it returns a value or raises, and in both cases leaves a state
-- behind (what was written before a raise stays written).

use mathlib.Core.Path.{◌≡◌, refl}
use mathlib.Core.Logic.{◌⊎◌, inl, inr}
use mathlib.Core.Bool.{Bool, true, false, not}
use s_llm.Prelude.Tests.{if◌then◌else◌}

pub data Error : Type 0 where
  value_error key_error index_error out_of_capacity collectives_error shard_error runtime_error
        type_error safetensors_error zero_division_error overflow_error http_error :
      Error

pub data Outcome {ℓ} (S A : Type ℓ) : Type ℓ where
  returns : A → S → Outcome S A
  raises : Error → S → Outcome S A

-- A pure function that may raise.
pub data Result {ℓ} (A : Type ℓ) : Type ℓ where
  ok : A → Result A
  err : Error → Result A

module _ {ℓ} {S A : Type ℓ} where
  abbrev pub state_of : Outcome S A → S
  state_of (returns a s) = s
  state_of (raises e s) = s

pub Outcome-cases {ℓ} :
    {S A : Type ℓ} (o : Outcome S A)
    → ((a : A) × (s : S) × (o ≡ returns a s)) ⊎ ((e : Error) × (s : S) × (o ≡ raises e s))
Outcome-cases (returns a s) = inl (a, s, refl)
Outcome-cases (raises e s) = inr (e, s, refl)

infixl 5 ◌>>=◌
abbrev pub ◌>>=◌ {ℓ κ} : {A : Type ℓ} {B : Type κ} → Result A → (A → Result B) → Result B
ok a >>= f = f a
err e >>= f = err e

-- The parts of a chain that succeeds.
pub >>=-eq-ok {ℓ κ} :
    {S : Type ℓ} {T : Type κ} (first : Result S) (rest : S → Result T) {last : T}
    → (first >>= rest) ≡ ok last
    → (between : S) × (first ≡ ok between) × (rest between ≡ ok last)
>>=-eq-ok (err x) rest done = cc
>>=-eq-ok (ok between) rest done = (between, refl, done)

-- Where a chain that fails has failed.
pub >>=-eq-err {ℓ κ} :
    {S : Type ℓ} {T : Type κ} (first : Result S) (rest : S → Result T) {x : Error}
    → (first >>= rest) ≡ err x
    → (first ≡ err x) ⊎ ((between : S) × (first ≡ ok between) × (rest between ≡ err x))
>>=-eq-err (err y) rest failed = inl cc
>>=-eq-err (ok between) rest failed = inr (between, refl, failed)

pub ok_inj {ℓ} : {A : Type ℓ} {a b : A} → ok a ≡ ok b → a ≡ b
ok_inj h = cc

-- A check that was passed.
pub checked :
    {A : Type 0} (b : Bool) (e : Error) (x : Result A) (v : A)
    → (if not b then err e else x) ≡ ok v
    → (b ≡ true) × (x ≡ ok v)
checked true e x v h = (refl, h)
checked false e x v h = cc

pub Result-cases {ℓ} :
    {A : Type ℓ} (r : Result A) → ((a : A) × (r ≡ ok a)) ⊎ ((e : Error) × (r ≡ err e))
Result-cases (ok a) = inl (a, refl)
Result-cases (err e) = inr (e, refl)
