-- ===== src/Mex/Outcome.antt =====
-- How a C++ call of a MEX function ends: by a value, or by one of the ways in which it stops.
-- `mex_abort` (srsran_mex_dispatcher.h) calls MATLAB's `error`, which throws, so that nothing
-- after it runs.
use srs_ran_matlab.Prelude.{
  ℕ, String, ◌≡◌, refl, ap, Bool, true, false, List, Option, none, some, ◌⊎◌, inl, inr,
}

-- What a message quotes.
pub data Arg : Type 0 where
  num : ℕ → Arg
  text : String → Arg

pub data Error : Type 0 where
  -- `mex_abort`: the format string and what is put into it
  abort : String → List Arg → Error
  -- `srsran_terminate`, which ends the process
  terminate : String → List Arg → Error
  -- a failed `srsran_assert`
  assertion : String → Error
  -- an exception of the MATLAB API: an element or field that is not there, a wrong type
  exception : Error
  -- a call through a null `unique_ptr`
  null_dereference : Error
  -- a division by zero, which C++ leaves undefined
  undefined : Error

pub data Result {ℓ} (A : Type ℓ) : Type ℓ where
  ok : A → Result A
  err : Error → Result A

infixl 5 ◌>>=◌
abbrev pub ◌>>=◌ {ℓ κ} : {A : Type ℓ} {B : Type κ} → Result A → (A → Result B) → Result B
err stopped >>= next = err stopped
ok value >>= next = next value

-- `if (test) { mex_abort(message); }`
abbrev pub abort_if : Bool → String → List Arg → Result (Unit {0})
abort_if true message args = err (abort message args)
abort_if false message args = ok tt

infixl 5 ◌>>◌
abbrev pub ◌>>◌ {κ} : {B : Type κ} → Result (Unit {0}) → Result B → Result B
check >> rest = check >>= λ _. rest

-- `srsran_assert(test, message);`
abbrev pub assert : Bool → String → Result (Unit {0})
assert true message = ok tt
assert false message = err (assertion message)

-- `pointer->`, where `none` is a null pointer
abbrev pub dereference {ℓ} : {A : Type ℓ} → Option A → Result A
dereference none = err null_dereference
dereference (some object) = ok object

-- A sequence that returns has run both of its parts.
pub >>=-eq-ok {ℓ κ} :
    {A : Type ℓ} {B : Type κ} (first : Result A) (next : A → Result B) {final : B}
    → (first >>= next) ≡ ok final
    → (value : A) × (first ≡ ok value) × (next value ≡ ok final)
>>=-eq-ok (err stopped) next returned = cc
>>=-eq-ok (ok value) next returned = (value, refl, returned)

pub Result-cases {ℓ} :
    {A : Type ℓ} (r : Result A) → ((e : Error) × (r ≡ err e)) ⊎ ((a : A) × (r ≡ ok a))
Result-cases (ok a) = inr (a, refl)
Result-cases (err e) = inl (e, refl)

abbrev result_or {ℓ} : {A : Type ℓ} → A → Result A → A
result_or d (ok a) = a
result_or d (err e) = d

pub ok-injective {ℓ} : {A : Type ℓ} (a b : A) → ok a ≡ ok b → a ≡ b
ok-injective a b e = ap (result_or a) e

pub abort_if-eq-ok {κ} :
    {B : Type κ} (test : Bool) (message : String) (args : List Arg) (rest : Result B) {b : B}
    → (abort_if test message args >> rest) ≡ ok b
    → (test ≡ false) × (rest ≡ ok b)
abort_if-eq-ok true message args rest h = cc
abort_if-eq-ok false message args rest h = (refl, h)

pub dereference-eq-ok {ℓ} : {A : Type ℓ} (o : Option A) (a : A) → dereference o ≡ ok a → o ≡ some a
dereference-eq-ok none a h = cc
dereference-eq-ok (some object) a h = ap some (ok-injective object a h)
