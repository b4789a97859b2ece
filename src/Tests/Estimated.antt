-- ===== src/Tests/Estimated.antt =====
-- multiport_channel_estimator_mex.cpp: a step with two receive ports and a layer, on estimates of which
-- only the size of a path is kept.
use srs_ran_matlab.Prelude.{
  ℕ, ◌+◌, ◌*◌, ◌≡◌, refl, true, List, [], ◌∷◌, Option, none, some, replicate, length-replicate,
  arith,
}
use srs_ran_matlab.Mex.{complex_single, double}
use srs_ran_matlab.Mex.Call.{done}
use srs_ran_matlab.Mex.Loop.{for_range}
use srs_ran_matlab.Convert.{
  normal, khz15, matlab_to_srs_cyclic_prefix, matlab_to_srs_subcarrier_spacing,
}
use srs_ran_matlab.Span.{first, last}
use srs_ran_matlab.Grid.{
  read_resource_grid, read_into, read_symbols, read_symbol, create_resource_grid, create_with,
  nof_grid_ports,
}
use srs_ran_matlab.Grid.{read_ports as read_grid_ports}
use srs_ran_matlab.Estimator.Api.{EstimatorApi, IsSized, LayerDmrsPattern}
use srs_ran_matlab.Bitset.{bitset}
use srs_ran_matlab.Estimator.Inputs.{
  check_columns, count, check_step_outputs_inputs, bits_field, hopping_of, dmrs_patterns,
  dmrs_pattern_of, read_port_indices, read_dmrs_patterns, read_ports, slice_layer, slice_pilots,
  read_estimator_config, first_pattern, read_pilots,
}
use srs_ran_matlab.Estimator.Outputs.{Info}
use srs_ran_matlab.Estimator.Methods.{StepInputs, estimated, read_step, method_step}
use srs_ran_matlab.Estimator.Estimated.{IsReply, method_step_estimates}
use srs_ran_matlab.Tests.Values.{
  Value, chars, tensor, structs, leaf_num, leaf_text, leaf_empty, matlab,
}
use srs_ran_matlab.Tests.Grid.{Elements, grids}
use srs_ran_matlab.Tests.Estimator.{estimator_api}

abbrev pub sized_api : EstimatorApi ℕ ℕ Elements
sized_api = record estimator_api {
  channel_estimate = λ dims. dims.nof_prb * 12 * dims.nof_symbols;
  get_path_ch_estimate = λ e p l. replicate e (p + l);
}

sized_api-IsSized : IsSized sized_api
sized_api-IsSized = record {
  path-channel_estimate =
      λ dims p l hp hl. length-replicate (dims.nof_prb * 12 * dims.nof_symbols) (p + l);
  path-compute = λ estimator e grid port pilots cfg p l. refl;
}

abbrev pub config : Value
config = structs (
    (("CyclicPrefix", leaf_text "normal")
      ∷ ("SubcarrierSpacing", leaf_num 15)
      ∷ ("Symbols", leaf_num 1)
      ∷ ("RBMask", leaf_num 1)
      ∷ ("RBMask2", leaf_empty)
      ∷ ("HoppingIndex", leaf_empty)
      ∷ ("REPatternCDM0", leaf_num 1)
      ∷ ("REPatternCDM1", leaf_empty)
      ∷ ("BetaScaling", leaf_num 1)
      ∷ ("PortIndices", leaf_num 0)
      ∷ [])
    ∷ [])

-- One port, since the index of a port is a scalar here.
abbrev pub one_port : Value
one_port = tensor complex_single (2 ∷ 2 ∷ []) (0 ∷ 1 ∷ 2 ∷ 3 ∷ [])

abbrev pub step_inputs : List Value
step_inputs =
    chars "step"
    ∷ one_port
    ∷ tensor double (1 ∷ 2 ∷ []) (0 ∷ 14 ∷ [])
    ∷ tensor complex_single (1 ∷ 1 ∷ []) (9 ∷ [])
    ∷ config
    ∷ []

abbrev pub pattern : LayerDmrsPattern
pattern = record {
  symbols = true ∷ [];
  rb_mask = true ∷ [];
  hopping_symbol_index = none;
  rb_mask2 = [];
  re_pattern = true ∷ [];
}

abbrev pub empty_port : Elements
empty_port = record { ports = 1; symbols = 2; subc = 2; at = λ p l k. some 0 }

abbrev pub step : StepInputs matlab grids sized_api
step = record {
  cfg = record {
    cp = normal;
    scs = khz15;
    first_symbol = 0;
    nof_symbols = 14;
    dmrs_pattern = pattern ∷ [];
    scaling = 1;
    rx_ports = 0 ∷ [];
  };
  nof_layers = 1;
  dmrs_pattern = pattern;
  grid = grids.put (grids.put empty_port 0 0 0 (0 ∷ 1 ∷ [])) 0 1 0 (2 ∷ 3 ∷ []);
  pilots =
      sized_api.set_slice
        (sized_api.dmrs_symbol_list (record { nof_subc = 1; nof_symbols = 1; nof_slices = 1 }))
        (9 ∷ []) 0;
}

method_step_estimates_example :
    (estimator : ℕ) × (out : List ℕ) × (rows : List (Option (Info sized_api))) × (method_step matlab
        grids sized_api 2 step_inputs
        (some 1)
      ≡ done (estimated out rows) (some estimator))
    × IsReply matlab grids sized_api step 1 estimator out rows
unfolding read_step read_resource_grid read_into read_grid_ports read_symbols read_symbol first last
    create_resource_grid create_with nof_grid_ports check_columns count check_step_outputs_inputs
    bits_field hopping_of dmrs_patterns dmrs_pattern_of bitset read_dmrs_patterns read_port_indices
    read_ports slice_layer slice_pilots read_estimator_config first_pattern read_pilots
    matlab_to_srs_cyclic_prefix matlab_to_srs_subcarrier_spacing for_range
method_step_estimates_example =
    method_step_estimates matlab grids sized_api sized_api-IsSized 2 step_inputs 1 step refl
      (ground arith)
