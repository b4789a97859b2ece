-- ===== src/Decoder/Dispatch.antt =====
-- srsran_mex_dispatcher.h over pusch_decoder_mex.cpp: a call of the object, from its first input on,
-- implements the call of the specification.
use srs_ran_matlab.Prelude.{
  ℕ, String, Bool, true, false, List, [], ◌∷◌, Option, none, some, ◌≡◌, refl, inl, inr, Bool-cases,
  str_eq, if◌then◌else◌,
}
use srs_ran_matlab.Mex.{Matlab, ok, Result-cases, is_type, char}
use srs_ran_matlab.Mex.Dispatcher.{Callbacks, Method, find, create_callbacks, dispatch, run_action}
use srs_ran_matlab.Mex.Dispatcher.Table.{Distinct, find_registered}
use srs_ran_matlab.Decoder.Api.{DecoderApi, Runtime, IsRuntime}
use srs_ran_matlab.Decoder.Methods.{
  DecoderMex, Reply, method_new, method_step, method_reset_crcs, method_release, callback_table,
}
use srs_ran_matlab.Decoder.Spec.{Abstract, spec_new, spec_step, spec_reset_crcs, spec_release, view}
use srs_ran_matlab.Decoder.Retrieve.{IsValid}
use srs_ran_matlab.Decoder.Refines.{Refines}
use srs_ran_matlab.Decoder.Contract.{
  method_step-Refines, method_reset_crcs-Refines, method_release-Refines,
}
use srs_ran_matlab.Decoder.New.{next_key, method_new-Refines}

module _ (m : Matlab) (api : DecoderApi m.Number) (rt : Runtime) where
  abbrev Concrete : Type 0
  Concrete = Method m.Array (DecoderMex m api rt) (Reply m api rt)

  abbrev Specified : Type 0
  Specified = Method m.Array (Abstract m api rt) (Reply m api rt)

  -- The actions of the specification, where the next pool gets the key.
  abbrev pub spec_table : ℕ → Callbacks m.Array (Abstract m api rt) (Reply m api rt)
  spec_table key =
      ("new", spec_new m api rt key)
      ∷ ("step", spec_step m api rt)
      ∷ ("reset_crcs", spec_reset_crcs m api rt)
      ∷ ("release", spec_release m api rt)
      ∷ []

  pub callback_table-Distinct : Distinct (callback_table m api rt)
  unfolding find
  callback_table-Distinct = (refl, (refl, (refl, (refl, tt))))

  module _ (laws : IsRuntime rt) where
    action-Refines :
        (name : String) (outputs : ℕ) (inputs : List m.Array) (s : DecoderMex m api rt)
        → IsValid m api rt s
        → Refines m api rt
            (run_action name (find name (callback_table m api rt)) outputs inputs s)
            (run_action name
              (find name (spec_table (next_key m api rt laws s)))
              outputs
              inputs
              (view m api rt s))
    unfolding find run_action
    action-Refines name outputs inputs s v =
        run_if (str_eq "new" name) (method_new m api rt)
          (spec_new m api rt (next_key m api rt laws s)) _ _
          (method_new-Refines m api rt laws outputs inputs s v).0
          (run_if (str_eq "step" name) (method_step m api rt) (spec_step m api rt) _ _
            (method_step-Refines m api rt outputs inputs s v)
            (run_if (str_eq "reset_crcs" name) (method_reset_crcs m api rt)
              (spec_reset_crcs m api rt) _ _ (method_reset_crcs-Refines m api rt outputs inputs s v)
              (run_if (str_eq "release" name) (method_release m api rt) (spec_release m api rt) none
                none (method_release-Refines m api rt outputs inputs s v) (refl, v))))
      where
        run_if :
            (b : Bool) (method : Concrete) (spec : Specified) (o : Option Concrete)
            (p : Option Specified)
            → Refines m api rt (method outputs inputs s) (spec outputs inputs (view m api rt s))
            → Refines m api rt
                (run_action name o outputs inputs s)
                (run_action name p outputs inputs (view m api rt s))
            → Refines m api rt
                (run_action name (if b then some method else o) outputs inputs s)
                (run_action name (if b then some spec else p) outputs inputs (view m api rt s))
        run_if true method spec o p yes' no' = yes'
        run_if false method spec o p yes' no' = no'

    -- A call of a valid object does what the call of the specification does, whatever its inputs.
    pub dispatch-Refines :
        (callbacks : Callbacks m.Array (DecoderMex m api rt) (Reply m api rt)) (outputs : ℕ)
        (inputs : List m.Array) (s : DecoderMex m api rt)
        → create_callbacks (callback_table m api rt) [] ≡ ok callbacks
        → IsValid m api rt s
        → Refines m api rt
            (dispatch m callbacks outputs inputs s)
            (dispatch m (spec_table (next_key m api rt laws s)) outputs inputs (view m api rt s))
    unfolding dispatch
    dispatch-Refines callbacks outputs [] s e v = (refl, v)
    dispatch-Refines callbacks outputs (first ∷ rest) s e v =
        elim (Bool-cases (is_type (m.get_type first) char)) [
          | inr other ↦ rw other (refl, v)
          | inl char_array ↦ rw char_array (elim (Result-cases (m.to_ascii first)) [
            | inl (_, unread) ↦ rw unread (refl, v)
            | inr (name, read) ↦
                rw
                  (
                    read,
                    find_registered (callback_table m api rt) callbacks callback_table-Distinct e
                        name,
                  )
                  (action-Refines name outputs (first ∷ rest) s v)
          ])
        ]
