-- ===== src/Mex/Dispatcher.antt =====
-- srsran_mex_dispatcher.h: the table of actions and the call operator that looks the first input up
-- in it. `S` is the state of the MEX function that inherits from the dispatcher, and `Out` what its
-- methods put into `outputs`.

pub mod Table
pub mod History
use srs_ran_matlab.Prelude.{
  ℕ, String, Bool, true, false, not, List, [], ◌∷◌, Option, none, some, str_eq, if◌then◌else◌,
}
use srs_ran_matlab.Mex.Outcome.{Result, ok, abort, text, abort_if}
use srs_ran_matlab.Mex.Outcome.{◌>>=◌ as bind}
use srs_ran_matlab.Mex.Inputs.{Matlab, char, is_type, input}
use srs_ran_matlab.Mex.Call.{Call, stop, lift, ◌>>=◌, ◌>>◌}

-- `std::function<void(ArgumentList outputs, ArgumentList inputs)>`: the number of outputs that the
-- caller wants, and the inputs.
abbrev pub Method : Type 0 → Type 0 → Type 0 → Type 0
Method Array S Out = ℕ → List Array → Call S Out

abbrev pub Callbacks : Type 0 → Type 0 → Type 0 → Type 0
Callbacks Array S Out = List (String × Method Array S Out)

module _ {Array S Out : Type 0} where
  -- `callbacks.find(name)`
  unfoldable pub find : String → Callbacks Array S Out → Option (Method Array S Out)
  find name [] = none
  find name ((key, method) ∷ callbacks) =
      if str_eq key name then some method else find name callbacks

  abbrev pub is_some : Option (Method Array S Out) → Bool
  is_some none = false
  is_some (some method) = true

  unfoldable pub create_callback :
      String → Method Array S Out → Callbacks Array S Out → Result (Callbacks Array S Out)
  create_callback name method callbacks =
      bind (abort_if (is_some (find name callbacks)) "Action {} already exists." (text name ∷ []))
        (λ _. ok ((name, method) ∷ callbacks))

  -- The calls of `create_callback` in a constructor, in their order.
  unfoldable pub create_callbacks :
      Callbacks Array S Out → Callbacks Array S Out → Result (Callbacks Array S Out)
  create_callbacks [] callbacks = ok callbacks
  create_callbacks ((name, method) ∷ rest) callbacks =
      bind (create_callback name method callbacks) (create_callbacks rest)

  -- `action_iter->second(outputs, inputs)`, or the abort
  unfoldable pub run_action : String → Option (Method Array S Out) → Method Array S Out
  run_action name none outputs inputs = stop (abort "Unknown action: {}." (text name ∷ []))
  run_action name (some method) outputs inputs = method outputs inputs

module _ (m : Matlab) {S Out : Type 0} where
  -- `operator()`
  unfoldable pub dispatch : Callbacks m.Array S Out → Method m.Array S Out
  unfolding run_action
  dispatch callbacks outputs inputs = do
    first ← lift (input m inputs 0)
    lift (abort_if (not (is_type (m.get_type first) char)) "First input must be a char." [])
    action_name ← lift (m.to_ascii first)
    run_action action_name (find action_name callbacks) outputs inputs
