-- ===== src/Tests/After.antt =====
-- pusch_demodulator_mex.h and multiport_channel_estimator_mex.h: a step, a `new`, and a step again.
use srs_ran_matlab.Prelude.{refl, false, List, [], ◌∷◌, none}
use srs_ran_matlab.Mex.{logical}
use srs_ran_matlab.Mex.Dispatcher.{Callbacks, create_callback, create_callbacks, find}
use srs_ran_matlab.Mex.Dispatcher.History.{Request, serve, IsAfter}
use srs_ran_matlab.Demodulator.Methods.{construct, method_new, method_step}
use srs_ran_matlab.Demodulator.Methods.{Mex as DemodulatorMex, Reply as DemodulatorReply}
use srs_ran_matlab.Demodulator.History.{is_made, is_demodulated, loaded-demodulated-IsAfter}
use srs_ran_matlab.Estimator.Methods.{
  construct as construct_estimator, method_new as new_estimator, method_step as step_estimator,
}
use srs_ran_matlab.Estimator.Methods.{Mex as EstimatorMex, Reply as EstimatorReply}
use srs_ran_matlab.Estimator.History.{is_estimated, loaded-estimated-IsAfter}
use srs_ran_matlab.Estimator.History.{is_made as is_estimator_made}
use srs_ran_matlab.Tests.Values.{Value, chars, tensor, matlab}
use srs_ran_matlab.Tests.Grid.{grids}
use srs_ran_matlab.Tests.Delivered.{delivering_api, step_inputs}
use srs_ran_matlab.Tests.Estimated.{sized_api}
use srs_ran_matlab.Tests.Estimated.{step_inputs as estimator_step_inputs}

abbrev requests : List (Request Value)
requests =
    record { outputs = 1; inputs = step_inputs }
    ∷ record { outputs = 0; inputs = chars "new" ∷ chars "MMSE" ∷ [] }
    ∷ record { outputs = 1; inputs = step_inputs }
    ∷ []

abbrev callbacks :
    Callbacks Value
      (DemodulatorMex matlab grids delivering_api)
      (DemodulatorReply matlab grids delivering_api)
callbacks =
    ("step", method_step matlab grids delivering_api)
    ∷ ("new", method_new matlab grids delivering_api)
    ∷ []

loaded-demodulated-IsAfter_example :
    IsAfter
      (is_made matlab grids delivering_api)
      (is_demodulated matlab grids delivering_api)
      false
      (serve matlab callbacks requests none).0
unfolding construct create_callbacks create_callback find
loaded-demodulated-IsAfter_example =
    loaded-demodulated-IsAfter matlab grids delivering_api none callbacks requests refl

abbrev estimator_requests : List (Request Value)
estimator_requests =
    record { outputs = 2; inputs = estimator_step_inputs }
    ∷ record {
      outputs = 0;
      inputs =
          chars "new"
          ∷ chars "filter"
          ∷ chars "average"
          ∷ tensor logical (1 ∷ 1 ∷ []) (1 ∷ [])
          ∷ [];
    }
    ∷ record { outputs = 2; inputs = estimator_step_inputs }
    ∷ []

abbrev estimator_callbacks :
    Callbacks Value (EstimatorMex matlab grids sized_api) (EstimatorReply matlab grids sized_api)
estimator_callbacks =
    ("step", step_estimator matlab grids sized_api)
    ∷ ("new", new_estimator matlab grids sized_api)
    ∷ []

loaded-estimated-IsAfter_example :
    IsAfter
      (is_estimator_made matlab grids sized_api)
      (is_estimated matlab grids sized_api)
      false
      (serve matlab estimator_callbacks estimator_requests none).0
unfolding construct_estimator create_callbacks create_callback find
loaded-estimated-IsAfter_example =
    loaded-estimated-IsAfter matlab grids sized_api none estimator_callbacks estimator_requests refl
