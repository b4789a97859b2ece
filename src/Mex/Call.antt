-- ===== src/Mex/Call.antt =====
-- Methods that change the MEX object: a call takes the object's state and leaves one, also when it
-- stops. The operators are the `do` notation of such methods.
use srs_ran_matlab.Prelude.{◌≡◌, refl}
use srs_ran_matlab.Mex.Outcome.{Error, Result, ok, err}

pub data Outcome (S A : Type 0) : Type 0 where
  done : A → S → Outcome S A
  stop : Error → S → Outcome S A

abbrev pub Call : Type 0 → Type 0 → Type 0
Call S A = S → Outcome S A

-- What follows a step runs only if the step returned.
abbrev pub resume : {S A B : Type 0} → (A → Call S B) → Outcome S A → Outcome S B
resume f (done a s) = f a s
resume f (stop e s) = stop e s

infixl 5 ◌>>=◌ ◌>>◌
abbrev pub ◌>>=◌ : {S A B : Type 0} → Call S A → (A → Call S B) → Call S B
◌>>=◌ m f s = resume f (m s)

abbrev pub ◌>>◌ : {S B : Type 0} → Call S (Unit {0}) → Call S B → Call S B
m >> k = m >>= λ _. k

-- A step that neither reads nor changes the object.
abbrev pub lift : {S A : Type 0} → Result A → Call S A
lift (ok a) s = done a s
lift (err e) s = stop e s

-- The object that a call leaves, whether it returns or stops.
abbrev pub left : {S A : Type 0} → Outcome S A → S
left (done a s) = s
left (stop e s) = s

-- A call that returns after such a step has run it.
pub lift-done :
    {S A B : Type 0} (s : S) (r : Result A) (f : A → Call S B) {b : B} {t : S}
    → resume f (lift r s) ≡ done b t
    → (a : A) × (r ≡ ok a) × (f a s ≡ done b t)
lift-done s (ok a) f h = (a, refl, h)
lift-done s (err e) f h = cc
