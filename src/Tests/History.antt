-- ===== src/Tests/History.antt =====
-- pusch_decoder_mex.h and pusch_decoder_mex.cpp: a history of calls of a loaded object.
use srs_ran_matlab.Prelude.{ℕ, ◌≡◌, ◌↔◌, refl, true, List, [], ◌∷◌, none, some}
use srs_ran_matlab.Mex.{ok}
use srs_ran_matlab.Mex.Call.{done}
use srs_ran_matlab.Mex.Dispatcher.{create_callback, create_callbacks, find}
use srs_ran_matlab.Mex.Dispatcher.History.{Request, serve}
use srs_ran_matlab.Memento.{store, emplace, get_memento}
use srs_ran_matlab.Memento.{find as find_memento}
use srs_ran_matlab.Decoder.Inputs.{StepInputs, read_new, read_pool_config, read_release, read_key}
use srs_ran_matlab.Decoder.Methods.{
  no_outputs, method_new, method_step, method_release, make_shared, store_memento, construct,
}
use srs_ran_matlab.Decoder.Factory.{DecoderFactories, create_pusch_decoder, load}
use srs_ran_matlab.Decoder.Spec.{view, view_outcome}
use srs_ran_matlab.Decoder.History.{Serves, loaded-Serves}
use srs_ran_matlab.Decoder.Returns.{returned, IsServed, method_step_returns}
use srs_ran_matlab.Decoder.Roundtrip.{new_then_release}
use srs_ran_matlab.Tests.Values.{Value, chars, matlab}
use srs_ran_matlab.Tests.Decoder.{
  decoder_api, runtime, runtime-IsRuntime, new_inputs, step_inputs, release_inputs, fresh,
  fresh-IsValid, one_pool, one_pool-IsValid, callbacks,
}

abbrev factories : DecoderFactories ℕ
factories = record {
  CrcFactory = Unit;
  LdpcDecoderFactory = Unit;
  DematcherFactory = Unit;
  SegmenterFactory = Unit;
  PuschDecoderFactory = ℕ;
  create_crc_calculator_factory_sw = λ type. some tt;
  create_ldpc_decoder_factory_sw = λ type. some tt;
  create_ldpc_rate_dematcher_factory_sw = λ type. some tt;
  create_ldpc_segmenter_rx_factory_sw = some tt;
  max_rb = 275;
  max_nof_layers = 4;
  create_pusch_decoder_factory_sw = λ config. some 0;
  create = λ factory. some factory;
}

-- A pool is made, used, given back, and then there is a call of an action that is not there.
abbrev requests : List (Request Value)
requests =
    record { outputs = 1; inputs = new_inputs }
    ∷ record { outputs = 2; inputs = step_inputs }
    ∷ record { outputs = 0; inputs = release_inputs }
    ∷ record { outputs = 0; inputs = chars "reset" ∷ [] }
    ∷ []

loaded-Serves_example :
    (decoder : ℕ) × (create_pusch_decoder factories ≡ ok (some decoder))
    × Serves matlab decoder_api runtime
        (record { decoder = decoder; pools = λ key. none })
        requests
        (serve matlab callbacks requests fresh).0
        (view matlab decoder_api runtime (serve matlab callbacks requests fresh).1)
unfolding load create_pusch_decoder construct create_callbacks create_callback find
loaded-Serves_example =
    loaded-Serves matlab decoder_api runtime runtime-IsRuntime factories fresh callbacks requests
      refl

method_step_returns_example :
    (returned (method_step matlab decoder_api runtime 2 step_inputs one_pool) ≡ true) ↔ (
      (step : StepInputs ℕ) × (pool : ℕ) × IsServed matlab decoder_api runtime 2 step_inputs
        (view matlab decoder_api runtime one_pool)
        step
        pool)
method_step_returns_example =
    method_step_returns matlab decoder_api runtime 2 step_inputs one_pool one_pool-IsValid

new_then_release_example :
    view_outcome matlab decoder_api runtime
      (method_release matlab decoder_api runtime 0 release_inputs one_pool)
    ≡ done no_outputs (view matlab decoder_api runtime fresh)
unfolding method_new make_shared store_memento store emplace get_memento find_memento read_new
    read_pool_config read_release read_key
new_then_release_example =
    new_then_release matlab decoder_api runtime runtime-IsRuntime 1 0 new_inputs release_inputs 1
      fresh one_pool fresh-IsValid refl refl
