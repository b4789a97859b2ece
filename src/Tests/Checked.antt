-- ===== src/Tests/Checked.antt =====
-- multiport_channel_estimator_mex.cpp: what a step with a receive port and a layer has checked.
use srs_ran_matlab.Prelude.{ℕ, ◌≡◌, refl, [], ◌∷◌, Option, none, some, replicate}
use srs_ran_matlab.Mex.{ok}
use srs_ran_matlab.Mex.Loop.{for_range}
use srs_ran_matlab.Convert.{matlab_to_srs_cyclic_prefix, matlab_to_srs_subcarrier_spacing}
use srs_ran_matlab.Span.{first, last}
use srs_ran_matlab.Grid.{
  read_resource_grid, read_into, read_symbols, read_symbol, create_resource_grid, create_with,
  nof_grid_ports,
}
use srs_ran_matlab.Grid.{read_ports as read_grid_ports}
use srs_ran_matlab.Bitset.{bitset}
use srs_ran_matlab.Estimator.Inputs.{
  check_columns, count, check_step_outputs_inputs, bits_field, hopping_of, dmrs_patterns,
  dmrs_pattern_of, read_port_indices, read_dmrs_patterns, read_ports, slice_layer, slice_pilots,
  read_estimator_config, first_pattern, read_pilots,
}
use srs_ran_matlab.Estimator.Outputs.{
  Info, write_estimates, write_layer, write_path, port_info, add_port, port_infos, infos, nof_infos,
}
use srs_ran_matlab.Estimator.Methods.{
  StepInputs, estimated, compute_ports, read_step, outputs_of, estimate, step_with, method_step,
}
use srs_ran_matlab.Estimator.Checked.{IsChecked, method_step-IsChecked}
use srs_ran_matlab.Tests.Values.{matlab}
use srs_ran_matlab.Tests.Grid.{grids}
use srs_ran_matlab.Tests.Estimated.{sized_api, step_inputs}

abbrev row : Info sized_api
row = record { noise_var = 1; rsrp = 2; epre = 3; sinr = 4; time_alignment = 5; cfo = none }

method_step-IsChecked_example :
    (estimator : ℕ) × (step : StepInputs matlab grids sized_api) × (◌≡◌ {A = Option ℕ}
      (some 1)
      (some estimator))
    × (read_step matlab grids sized_api 2 step_inputs ≡ ok step)
    × IsChecked matlab grids sized_api 2 step_inputs step
unfolding method_step step_with estimate outputs_of compute_ports write_estimates write_layer
    write_path port_info add_port port_infos infos read_step read_resource_grid read_into
    read_grid_ports read_symbols read_symbol first last create_resource_grid create_with
    nof_grid_ports check_columns count check_step_outputs_inputs bits_field hopping_of dmrs_patterns
    dmrs_pattern_of bitset nof_infos read_dmrs_patterns read_port_indices read_ports slice_layer
    slice_pilots read_estimator_config first_pattern read_pilots matlab_to_srs_cyclic_prefix
    matlab_to_srs_subcarrier_spacing for_range
method_step-IsChecked_example =
    method_step-IsChecked matlab grids sized_api 2 step_inputs (some 1) (some 1)
      (estimated (replicate 12 0) (some row ∷ [])) refl
