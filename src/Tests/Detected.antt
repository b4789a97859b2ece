-- ===== src/Tests/Detected.antt =====
-- prach_detector_mex.cpp: a whole step, for a sequence of two samples on two ports.
use srs_ran_matlab.Mex.{ok}
use srs_ran_matlab.Prelude.{◌≡◌, ◌↔◌, refl, List, [], ◌∷◌}
use srs_ran_matlab.Mex.Loop.{for_range}
use srs_ran_matlab.Convert.{matlab_to_srs_restricted_set}
use srs_ran_matlab.Grid.{nof_grid_ports}
use srs_ran_matlab.Prach.Step.{
  check_step_outputs_inputs, read_detector_config, matlab_to_srs_preamble_format, create_buffer,
  fill_buffer, fill_port, fill_symbol, fill_sample, indication, detect_in, method_step,
}
use srs_ran_matlab.Prach.Detected.{IsDetected, method_step-IsDetected}
use srs_ran_matlab.Tests.Values.{Value, chars, structs, leaf_num, leaf_text, matlab}
use srs_ran_matlab.Tests.Prach.{prach_api, symbols, mex, found}

abbrev step_inputs : List Value
step_inputs =
    chars "step"
    ∷ symbols
    ∷ structs (
        (("SequenceIndex", leaf_num 0)
          ∷ ("Format", leaf_text "B4")
          ∷ ("RestrictedSet", leaf_text "UnrestrictedSet")
          ∷ ("ZeroCorrelationZone", leaf_num 0)
          ∷ ("SubcarrierSpacing", leaf_num 15)
          ∷ [])
        ∷ [])
    ∷ []

method_step-IsDetected_example :
    (method_step matlab prach_api mex 1 step_inputs ≡ ok found)
    ↔ IsDetected matlab prach_api mex 1 step_inputs found
method_step-IsDetected_example = method_step-IsDetected matlab prach_api mex 1 step_inputs found

-- The step that the witness speaks of returns.
detection_returns : method_step matlab prach_api mex 1 step_inputs ≡ ok found
unfolding method_step check_step_outputs_inputs read_detector_config matlab_to_srs_preamble_format
    matlab_to_srs_restricted_set nof_grid_ports detect_in create_buffer fill_buffer fill_port
    fill_symbol fill_sample for_range indication
detection_returns = refl
