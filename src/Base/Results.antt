-- ===== src/Base/Results.antt =====
-- Code that may throw. An exception is a value; the code of the program tells exceptions apart
-- only by whether there is one, and the model keeps a reason for each `throw`.
use mathlib.Core.Path.{◌≡◌, refl}
use mathlib.Core.Bool.{Bool, true, false}
use mathlib.Core.Option.{some}

pub data Error : Type 0 where
  odd_length : Error
  bad_digit : Error
  bad_length : Error
  type_error : Error
  out_of_range : Error
  not_seeded : Error
  no_memory : Error
  bad_config : Error
  undefined_behaviour : Error

pub data Result {κ} (R : Type κ) : Type κ where
  err : (why : Error) → Result R
  ok : (value : R) → Result R

-- `if (!b) throw e;`
abbrev pub require : (test : Bool) (why : Error) → Result (Unit {0})
require false why = err why
require true why = ok tt

infixl 5 ◌>>=◌ ◌>>◌
abbrev pub ◌>>=◌ {κ μ} :
    {R : Type κ} {S : Type μ} (first : Result R) (then_do : R → Result S) → Result S
err why >>= then_do = err why
ok value >>= then_do = then_do value

-- A step whose value nothing uses.
abbrev pub ◌>>◌ {μ} : {S : Type μ} (first : Result (Unit {0})) (second : Result S) → Result S
first >> second = first >>= λ u. second

-- Both parts of a sequence that succeeded have succeeded.
pub >>=-eq-ok {κ μ} :
    {R : Type κ} {S : Type μ} (first : Result R) (then_do : R → Result S) {last : S}
    → (first >>= then_do) ≡ ok last
    → (value : R) × (first ≡ ok value) × (then_do value ≡ ok last)
>>=-eq-ok (err why) then_do done = cc
>>=-eq-ok (ok value) then_do done = (value, refl, done)

pub ok-injective {ℓ} : {A : Type ℓ} {a b : A} → ok a ≡ ok b → a ≡ b
ok-injective h = cc

pub ok-ne-err {ℓ} : {A : Type ℓ} {a : A} {e : Error} → ok a ≡ err e → ⊥
ok-ne-err h = cc

pub some-injective {ℓ} : {A : Type ℓ} {a b : A} → some a ≡ some b → a ≡ b
some-injective h = cc

-- A check that passed.
pub require-eq-ok :
    (test : Bool) (why : Error) {u : Unit {0}} → require test why ≡ ok u → test ≡ true
require-eq-ok true why done = refl
require-eq-ok false why done = cc
