-- ===== src/Demodulator/History.antt =====
-- pusch_demodulator_mex.h and pusch_demodulator_mex.cpp: the object over any history of calls.
use srs_ran_matlab.Prelude.{ℕ, Bool, true, false, List, none, ◌≡◌, refl, inl, inr, Option-cases}
use srs_ran_matlab.Mex.{Matlab, Error, ok, Result-cases}
use srs_ran_matlab.Mex.Call.{Outcome, stop}
use srs_ran_matlab.Mex.Dispatcher.{Callbacks, find}
use srs_ran_matlab.Mex.Dispatcher.Table.{Distinct, construct_registered}
use srs_ran_matlab.Mex.Dispatcher.History.{
  Request, serve, IsAfter, Opens, serve-IsAfter, dispatch_registered-AllMethods,
}
use srs_ran_matlab.Grid.{GridApi}
use srs_ran_matlab.Demodulator.Api.{DemodulatorApi}
use srs_ran_matlab.Demodulator.Factory.{create_pusch_demodulator}
use srs_ran_matlab.Demodulator.Inputs.{read_equalizer}
use srs_ran_matlab.Demodulator.Methods.{
  Mex, Reply, no_outputs, soft_bits, create, method_new, method_step, callback_table, construct,
}
use srs_ran_matlab.Demodulator.Steps.{StopsIn, step_before_new}

module _ (m : Matlab) (grids : GridApi m.Complex) {Llr : Type 0}
    (api : DemodulatorApi m.Number m.Complex grids.Grid Llr) where
  -- The replies of a `new`, and of a step.
  abbrev pub is_made : Reply m grids api → Bool
  is_made no_outputs = true
  is_made (soft_bits llrs) = false

  abbrev pub is_demodulated : Reply m grids api → Bool
  is_demodulated no_outputs = false
  is_demodulated (soft_bits llrs) = true

  abbrev Lawful : Outcome (Mex m grids api) (Reply m grids api) → Type 0
  Lawful = Opens m is_made is_demodulated none

  stop-Lawful : (e : Error) → Lawful (stop e none)
  stop-Lawful e = (refl, inr refl)

  StopsIn-Lawful : (o : Outcome (Mex m grids api) (Reply m grids api)) → StopsIn none o → Lawful o
  StopsIn-Lawful o (e, stopped) = rw stopped (stop-Lawful e)

  method_new-Lawful :
      (outputs : ℕ) (inputs : List m.Array) → Lawful (method_new m grids api outputs inputs none)
  unfolding method_new create
  method_new-Lawful outputs inputs = elim (Result-cases (read_equalizer m outputs inputs)) [
    | inl (e, stopped) ↦ rw stopped (stop-Lawful e)
    | inr (type, read) ↦ elim (Result-cases (create_pusch_demodulator api.factories type)) [
      | inl (e, stopped) ↦ rw (read, stopped) (stop-Lawful e)
      | inr (created, made) ↦ elim (Option-cases created) [
        | inl missing ↦ rw (read, made, missing) (refl, inr refl)
        | inr (demodulator, there) ↦ rw (read, made, there) (refl, inl refl)
      ]
    ]
  ]

  callback_table-Distinct : Distinct (callback_table m grids api)
  unfolding find
  callback_table-Distinct = (refl, (refl, tt))

  -- Whatever calls an object gets after it is loaded, with whatever inputs: no call answers with soft
  -- bits before a `new` has returned.
  pub loaded-demodulated-IsAfter :
      (s : Mex m grids api) (callbacks : Callbacks m.Array (Mex m grids api) (Reply m grids api))
      (requests : List (Request m.Array))
      → construct m grids api ≡ ok (s, callbacks)
      → IsAfter is_made is_demodulated false (serve m callbacks requests s).0
  unfolding construct
  loaded-demodulated-IsAfter s callbacks requests e =
      let (registered, start) =
        construct_registered (callback_table m grids api) callbacks none s e in
      serve-IsAfter m is_made is_demodulated none callbacks
        (λ outputs inputs.
          dispatch_registered-AllMethods m Lawful none (callback_table m grids api) callbacks
            outputs inputs callback_table-Distinct registered stop-Lawful
            (
              method_new-Lawful outputs inputs,
              (
                StopsIn-Lawful (method_step m grids api outputs inputs none)
                    (step_before_new m grids api outputs inputs),
                tt,
              ),
            ))
        requests false s start
