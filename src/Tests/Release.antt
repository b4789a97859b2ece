-- ===== src/Tests/Release.antt =====
-- pusch_decoder_mex.cpp: calls that name a key after its release.
use srs_ran_matlab.Prelude.{ℕ, ◌≡◌, refl, true, [], ◌∷◌}
use srs_ran_matlab.Mex.{abort, num}
use srs_ran_matlab.Mex.Call.{stop}
use srs_ran_matlab.Memento.{release_memento, erase}
use srs_ran_matlab.Memento.{find as find_memento}
use srs_ran_matlab.Decoder.Heap.{destroy}
use srs_ran_matlab.Decoder.Inputs.{
  StepInputs, read_release, read_key, read_step, check_step_outputs_inputs, read_configuration,
  read_buffer_id, read_reset,
}
use srs_ran_matlab.Convert.{bg1, qpsk, matlab_to_srs_base_graph, matlab_to_srs_modulation}
use srs_ran_matlab.Decoder.Methods.{
  no_outputs, method_step, method_reset_crcs, method_release, release_key,
}
use srs_ran_matlab.Decoder.Spec.{view, view_outcome}
use srs_ran_matlab.Decoder.Release.{released_key_unusable}
use srs_ran_matlab.Tests.Values.{matlab}
use srs_ran_matlab.Tests.Decoder.{
  decoder_api, runtime, step_inputs, reset_inputs, release_inputs, fresh, one_pool,
  one_pool-IsValid,
}

abbrev step_read : StepInputs ℕ
step_read = record {
  llrs = 1 ∷ 2 ∷ 3 ∷ 4 ∷ [];
  cfg = record {
    base_graph = bg1;
    mod_scheme = qpsk;
    nof_layers = 1;
    rv = 0;
    nref = 0;
    new_data = true;
    use_early_stop = true;
    nof_ldpc_iterations = 6;
  };
  tbs_bytes = 2;
  buf_id = record { rnti = 17; harq_id = 3 };
  nof_codeblocks = 1;
  key = 1;
}

released_key_unusable_example :
    (method_step matlab decoder_api runtime 2 step_inputs fresh
      ≡ stop (abort "Cannot retrieve rx_softbuffer_pool with key {}." (num 1 ∷ [])) fresh)
    × (method_reset_crcs matlab decoder_api runtime 0 reset_inputs fresh
        ≡ stop (abort "Cannot retrieve rx_softbuffer_pool with key {}." (num 1 ∷ [])) fresh)
    × (view_outcome matlab decoder_api runtime
          (method_release matlab decoder_api runtime 0 release_inputs fresh)
        ≡ stop
            (abort "Something wrong, there was no softbuffer pool with softbufferPoolID {}."
              (num 1 ∷ []))
            (view matlab decoder_api runtime fresh))
unfolding method_release release_key release_memento erase find_memento destroy read_release
    read_key read_step check_step_outputs_inputs read_configuration read_buffer_id read_reset
    matlab_to_srs_base_graph matlab_to_srs_modulation
released_key_unusable_example =
    released_key_unusable matlab decoder_api runtime 0 2 0 release_inputs step_inputs reset_inputs 1
      1 (record { rnti = 17; harq_id = 3 }) no_outputs step_read one_pool fresh one_pool-IsValid
      refl refl refl refl refl
