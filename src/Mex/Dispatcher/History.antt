-- ===== src/Mex/Dispatcher/History.antt =====
-- srsran_mex_dispatcher.h: an object that is called any number of times.
use srs_ran_matlab.Prelude.{
  ℕ, String, str_eq, Bool-cases, Bool, true, false, ◌||◌, List, [], ◌∷◌, ◌≡◌, ◌⊎◌, inl, inr, refl,
  sym, subst, arith,
}
use srs_ran_matlab.Mex.Outcome.{Result, ok, err, Error, Result-cases}
use srs_ran_matlab.Mex.Inputs.{Matlab, char, is_type}
use srs_ran_matlab.Mex.Call.{Outcome, done, stop, left}
use srs_ran_matlab.Mex.Dispatcher.{Callbacks, create_callbacks, dispatch, find, run_action}
use srs_ran_matlab.Mex.Dispatcher.Table.{Distinct, find_registered}

-- A call from MATLAB: how many outputs it wants, and its inputs.
pub record Request (Array : Type 0) : Type 0 where
  pub outputs : ℕ
  pub inputs : List Array

-- What the caller sees of a call.
abbrev pub result_of : {S A : Type 0} → Outcome S A → Result A
result_of (done a s) = ok a
result_of (stop e s) = err e

module _ {Out : Type 0} where
  abbrev pub holds_of : (Out → Bool) → Result Out → Bool
  holds_of test (ok out) = test out
  holds_of test (err e) = false

  -- No answer of the second kind stands before the first one of the first kind; `opened` says whether
  -- there has been one.
  abbrev pub IsAfter : (Out → Bool) → (Out → Bool) → Bool → List (Result Out) → Type 0
  IsAfter opens needs opened [] = Unit {0}
  IsAfter opens needs opened (r ∷ results) =
      ((holds_of needs r ≡ false) ⊎ (opened ≡ true))
      × IsAfter opens needs (opened || holds_of opens r) results

module _ {Array S Out : Type 0} (P : Outcome S Out → Type 0) (s : S) (outputs : ℕ)
    (inputs : List Array) where
  -- Every method of the table ends in an outcome of this kind.
  abbrev pub AllMethods : Callbacks Array S Out → Type 0
  AllMethods [] = Unit {0}
  AllMethods ((name, method) ∷ table) = P (method outputs inputs s) × AllMethods table

  run_found :
      (name : String) (table : Callbacks Array S Out)
      → ((e : Error) → P (stop e s))
      → AllMethods table
      → P (run_action name (find name table) outputs inputs s)
  unfolding find run_action
  run_found name [] stops all = stops _
  run_found name ((key, method) ∷ table) stops (one, rest) = elim (Bool-cases (str_eq key name)) [
    | inl same ↦ rw same one
    | inr other ↦ rw other (run_found name table stops rest)
  ]

module _ (m : Matlab) {S Out : Type 0} where
  -- A call depends on what the names stand for only.
  pub dispatch_same :
      (callbacks others : Callbacks m.Array S Out) (outputs : ℕ) (inputs : List m.Array) (s : S)
      → ((name : String) → find name callbacks ≡ find name others)
      → dispatch m callbacks outputs inputs s ≡ dispatch m others outputs inputs s
  unfolding dispatch
  dispatch_same callbacks others outputs [] s same = refl
  dispatch_same callbacks others outputs (first ∷ rest) s same =
      elim (Bool-cases (is_type (m.get_type first) char)) [
        | inr other ↦ rw other refl
        | inl char_array ↦ rw char_array (elim (Result-cases (m.to_ascii first)) [
          | inl (_, unread) ↦ rw unread refl
          | inr (name, read) ↦ rw (read, same name) refl
        ])
      ]

module _ (m : Matlab) {S Out : Type 0} (P : Outcome S Out → Type 0) (s : S) where
  -- What holds of every method, and of stopping with the object as it is, holds of every call.
  pub dispatch-AllMethods :
      (callbacks : Callbacks m.Array S Out) (outputs : ℕ) (inputs : List m.Array)
      → ((e : Error) → P (stop e s))
      → AllMethods P s outputs inputs callbacks
      → P (dispatch m callbacks outputs inputs s)
  unfolding dispatch
  dispatch-AllMethods callbacks outputs [] stops all = stops _
  dispatch-AllMethods callbacks outputs (first ∷ rest) stops all =
      elim (Bool-cases (is_type (m.get_type first) char)) [
        | inr other ↦ rw other (stops _)
        | inl char_array ↦ rw char_array (elim (Result-cases (m.to_ascii first)) [
          | inl (_, unread) ↦ rw unread (stops _)
          | inr (name, read) ↦
              rw read (run_found P s outputs (first ∷ rest) name callbacks stops all)
        ])
      ]

  -- The same for what a constructor has registered.
  pub dispatch_registered-AllMethods :
      (table callbacks : Callbacks m.Array S Out) (outputs : ℕ) (inputs : List m.Array)
      → Distinct table
      → create_callbacks table [] ≡ ok callbacks
      → ((e : Error) → P (stop e s))
      → AllMethods P s outputs inputs table
      → P (dispatch m callbacks outputs inputs s)
  dispatch_registered-AllMethods table callbacks outputs inputs distinct registered stops all =
      subst P
        (dispatch_same m table callbacks outputs inputs s
          λ name. sym (find_registered table callbacks distinct registered name))
        (dispatch-AllMethods table outputs inputs stops all)

module _ (m : Matlab) {S Out : Type 0} where
  -- The answers to calls that are made one after the other, an error ending its call only.
  unfoldable pub serve :
      Callbacks m.Array S Out → List (Request m.Array) → S → List (Result Out) × S
  serve callbacks [] s = ([], s)
  serve callbacks (request ∷ requests) s =
      let o = dispatch m callbacks request.outputs request.inputs s in
      let (results, t) = serve callbacks requests (left o) in (result_of o ∷ results, t)

  module _ (opens needs : Out → Bool) (closed : S) where
    -- A call of a closed object gives no answer of the second kind, and leaves it closed or gives an
    -- answer of the first.
    abbrev pub Opens : Outcome S Out → Type 0
    Opens o =
        (holds_of needs (result_of o) ≡ false)
        × ((holds_of opens (result_of o) ≡ true) ⊎ (left o ≡ closed))

    opened_after : (opened : Bool) (b : Bool) → opened ≡ true → (opened || b) ≡ true
    opened_after true b e = refl
    opened_after false b e = ground arith

    opens_after : (opened : Bool) (b : Bool) → b ≡ true → (opened || b) ≡ true
    opens_after true b e = refl
    opens_after false b e = e

    module _ (callbacks : Callbacks m.Array S Out)
        (law : (outputs : ℕ) (inputs : List m.Array)
          → Opens (dispatch m callbacks outputs inputs closed)) where
      serve-open :
          (requests : List (Request m.Array)) (opened : Bool) (s : S)
          → opened ≡ true
          → IsAfter opens needs opened (serve callbacks requests s).0
      unfolding serve
      serve-open [] opened s e = tt
      serve-open (request ∷ requests) opened s e =
          let o = dispatch m callbacks request.outputs request.inputs s in
          (
            inr e,
            serve-open requests (opened || holds_of opens (result_of o)) (left o)
                (opened_after opened (holds_of opens (result_of o)) e),
          )

      pub serve-IsAfter :
          (requests : List (Request m.Array)) (opened : Bool) (s : S)
          → s ≡ closed
          → IsAfter opens needs opened (serve callbacks requests s).0
      unfolding serve
      serve-IsAfter [] opened s e = tt
      serve-IsAfter (request ∷ requests) opened s e =
          let o = dispatch m callbacks request.outputs request.inputs s in
          let lawful : Opens o =
            subst (λ t. Opens (dispatch m callbacks request.outputs request.inputs t)) (sym e)
              (law request.outputs request.inputs) in
          (
            inl lawful.0,
            elim lawful.1 [
              | inl opening ↦
                  serve-open requests (opened || holds_of opens (result_of o)) (left o)
                    (opens_after opened (holds_of opens (result_of o)) opening)
              | inr still ↦
                  serve-IsAfter requests (opened || holds_of opens (result_of o)) (left o) still
            ],
          )
