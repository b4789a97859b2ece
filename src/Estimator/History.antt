-- ===== src/Estimator/History.antt =====
-- multiport_channel_estimator_mex.h and multiport_channel_estimator_mex.cpp: the object over any history
-- of calls.
use srs_ran_matlab.Prelude.{ℕ, Bool, true, false, List, none, ◌≡◌, refl, inl, inr, Option-cases}
use srs_ran_matlab.Mex.{Matlab, Error, ok, Result-cases}
use srs_ran_matlab.Mex.Call.{Outcome, stop}
use srs_ran_matlab.Mex.Dispatcher.{Callbacks, find}
use srs_ran_matlab.Mex.Dispatcher.Table.{Distinct, construct_registered}
use srs_ran_matlab.Mex.Dispatcher.History.{
  Request, serve, IsAfter, Opens, serve-IsAfter, dispatch_registered-AllMethods,
}
use srs_ran_matlab.Grid.{GridApi}
use srs_ran_matlab.Estimator.Api.{EstimatorApi}
use srs_ran_matlab.Estimator.Factory.{create_port_channel_estimator}
use srs_ran_matlab.Estimator.Inputs.{read_new}
use srs_ran_matlab.Estimator.Methods.{
  Mex, Reply, no_outputs, estimated, create, method_new, method_step, step_with, callback_table,
  construct,
}

module _ (m : Matlab) (grids : GridApi m.Complex)
    (api : EstimatorApi m.Number m.Complex grids.Grid) where
  -- The replies of a `new`, and of a step.
  abbrev pub is_made : Reply m grids api → Bool
  is_made no_outputs = true
  is_made (estimated estimates rows) = false

  abbrev pub is_estimated : Reply m grids api → Bool
  is_estimated no_outputs = false
  is_estimated (estimated estimates rows) = true

  abbrev Lawful : Outcome (Mex m grids api) (Reply m grids api) → Type 0
  Lawful = Opens m is_made is_estimated none

  stop-Lawful : (e : Error) → Lawful (stop e none)
  stop-Lawful e = (refl, inr refl)

  method_new-Lawful :
      (outputs : ℕ) (inputs : List m.Array) → Lawful (method_new m grids api outputs inputs none)
  unfolding method_new create
  method_new-Lawful outputs inputs = elim (Result-cases (read_new m outputs inputs)) [
    | inl (e, stopped) ↦ rw stopped (stop-Lawful e)
    | inr (read, e) ↦
        let factory = create_port_channel_estimator api.factories read.0 read.1 read.2 in
        elim (Result-cases factory) [
          | inl (failure, stopped) ↦ rw (e, stopped) (stop-Lawful failure)
          | inr (created, made) ↦ elim (Option-cases created) [
            | inl missing ↦ rw (e, made, missing) (refl, inr refl)
            | inr (estimator, there) ↦ rw (e, made, there) (refl, inl refl)
          ]
        ]
  ]

  method_step-Lawful :
      (outputs : ℕ) (inputs : List m.Array) → Lawful (method_step m grids api outputs inputs none)
  unfolding method_step step_with
  method_step-Lawful outputs inputs = (refl, inr refl)

  callback_table-Distinct : Distinct (callback_table m grids api)
  unfolding find
  callback_table-Distinct = (refl, (refl, tt))

  -- Whatever calls an object gets after it is loaded, with whatever inputs: no call answers with
  -- channel estimates before a `new` has returned.
  pub loaded-estimated-IsAfter :
      (s : Mex m grids api) (callbacks : Callbacks m.Array (Mex m grids api) (Reply m grids api))
      (requests : List (Request m.Array))
      → construct m grids api ≡ ok (s, callbacks)
      → IsAfter is_made is_estimated false (serve m callbacks requests s).0
  unfolding construct
  loaded-estimated-IsAfter s callbacks requests e =
      let (registered, start) =
        construct_registered (callback_table m grids api) callbacks none s e in
      serve-IsAfter m is_made is_estimated none callbacks
        (λ outputs inputs.
          dispatch_registered-AllMethods m Lawful none (callback_table m grids api) callbacks
            outputs inputs callback_table-Distinct registered stop-Lawful
            (method_new-Lawful outputs inputs, (method_step-Lawful outputs inputs, tt)))
        requests false s start
