-- ===== src/Tests/Isolation.antt =====
-- pusch_decoder_mex.cpp with two pools, of which the calls use one.
use srs_ran_matlab.Prelude.{◌≡◌, refl, List, [], ◌∷◌, some, arith}
use srs_ran_matlab.Mex.Dispatcher.{create_callback, create_callbacks, find}
use srs_ran_matlab.Mex.Dispatcher.History.{Request, serve}
use srs_ran_matlab.Memento.{get_memento}
use srs_ran_matlab.Memento.{find as find_memento}
use srs_ran_matlab.Convert.{matlab_to_srs_base_graph, matlab_to_srs_modulation}
use srs_ran_matlab.Decoder.Heap.{pool_at}
use srs_ran_matlab.Decoder.Inputs.{
  read_release, read_key, read_step, check_step_outputs_inputs, read_configuration, read_buffer_id,
  read_reset,
}
use srs_ran_matlab.Decoder.Methods.{DecoderMex}
use srs_ran_matlab.Decoder.Spec.{view}
use srs_ran_matlab.Decoder.Retrieve.{IsValid}
use srs_ran_matlab.Decoder.Isolation.{serve_other_keys}
use srs_ran_matlab.Tests.Values.{Value, matlab}
use srs_ran_matlab.Tests.Decoder.{
  decoder_api, runtime, runtime-IsRuntime, callbacks, new_inputs, step_inputs, release_inputs,
}

-- Pools of two and of seven free buffers, under the keys 1 and 2.
abbrev two_pools : DecoderMex matlab decoder_api runtime
two_pools = record { decoder = 0; storage = (1, 1) ∷ (2, 2) ∷ []; heap = (1, 2) ∷ (2, 7) ∷ [] }

two_pools-IsValid : IsValid matlab decoder_api runtime two_pools
unfolding get_memento find_memento pool_at
two_pools-IsValid = record {
  consistent = (refl, ground arith, refl, (refl, ground arith, refl, tt));
  live = λ k n. ground arith;
}

-- A step with the key 1, the release of that key, a second step with it, and a new pool.
abbrev requests : List (Request Value)
requests =
    (record { outputs = 2; inputs = step_inputs })
    ∷ (record { outputs = 0; inputs = release_inputs })
    ∷ (record { outputs = 2; inputs = step_inputs })
    ∷ (record { outputs = 1; inputs = new_inputs })
    ∷ []

serve_other_keys_example :
    (view matlab decoder_api runtime (serve matlab callbacks requests two_pools).1).pools 2 ≡ some 7
unfolding create_callbacks create_callback find get_memento find_memento pool_at read_release
    read_key read_step check_step_outputs_inputs read_configuration read_buffer_id read_reset
    matlab_to_srs_base_graph matlab_to_srs_modulation
serve_other_keys_example =
    serve_other_keys matlab decoder_api runtime 2 7 runtime-IsRuntime callbacks requests two_pools
      refl two_pools-IsValid (refl, (refl, (refl, (refl, tt)))) refl
