-- ===== src/Tests/Delivered.antt =====
-- pusch_demodulator_mex.cpp: a step whose demodulator delivers five soft bits in two blocks.
use srs_ran_matlab.Prelude.{
  ℕ, ◌⊎◌, ◌≡◌, ◌≤◌, refl, true, false, inl, List, [], ◌∷◌, some, length, replicate, arith,
}
use srs_ran_matlab.Mex.{complex_double, double}
use srs_ran_matlab.Mex.Call.{done}
use srs_ran_matlab.Mex.Loop.{for_range}
use srs_ran_matlab.Bitset.{bitset}
use srs_ran_matlab.Convert.{qpsk, type1, matlab_to_srs_modulation, matlab_to_srs_dmrs_type}
use srs_ran_matlab.Span.{first, last}
use srs_ran_matlab.Grid.{
  read_resource_grid, read_into, read_symbols, read_symbol, create_resource_grid, create_with,
  nof_grid_ports,
}
use srs_ran_matlab.Grid.{read_ports as read_grid_ports}
use srs_ran_matlab.Demodulator.Codeword.{
  get_next_block_view, write_at, on_new_block, on_end_codeword,
}
use srs_ran_matlab.Demodulator.Codeword.Deliver.{
  Delivery, in_place, own_memory, deliver, write_through,
}
use srs_ran_matlab.Demodulator.Factory.{mmse}
use srs_ran_matlab.Demodulator.Api.{BufferCall, DemodulatorApi, DemodulatorConfiguration}
use srs_ran_matlab.Demodulator.Inputs.{
  check_step_outputs_inputs, field_elements, push_rx_ports, read_demodulator_config, divide,
  copy_path, set_noise, estimate_port, estimate_layer, set_estimates, read_estimates, run_calls,
}
use srs_ran_matlab.Demodulator.Methods.{soft_bits, demodulated, method_step}
use srs_ran_matlab.Demodulator.Output.{IsOneCodeword, is_ended, nof_delivered, demodulated_bounded}
use srs_ran_matlab.Demodulator.Delivered.{codeword_calls, method_step_delivers}
use srs_ran_matlab.Tests.Values.{Value, chars, tensor, structs, leaf_num, leaf_text, matlab}
use srs_ran_matlab.Tests.Grid.{Elements, grids, rx_grid}
use srs_ran_matlab.Tests.Demodulator.{demodulator_api}

abbrev pub blocks : List (Delivery ℕ)
blocks = in_place (1 ∷ 2 ∷ 3 ∷ []) ∷ own_memory 10 (4 ∷ 5 ∷ []) ∷ []

abbrev pub calls : List (BufferCall ℕ)
calls = codeword_calls blocks

abbrev bits : List ℕ
bits = 1 ∷ 2 ∷ 3 ∷ 4 ∷ 5 ∷ []

-- A demodulator that delivers the blocks.
abbrev pub delivering_api : DemodulatorApi ℕ ℕ Elements ℕ
delivering_api = record demodulator_api {
  demodulate = λ demodulator grid estimates config. (demodulator, calls);
}

demodulated_bounded_example :
    (length bits ≡ 5)
    × (nof_delivered calls ≤ 5)
    × IsOneCodeword calls
    × ((is_ended calls ≡ false) ⊎ (nof_delivered calls ≡ 5))
unfolding demodulated run_calls deliver write_through get_next_block_view write_at on_new_block
    on_end_codeword
demodulated_bounded_example =
    demodulated_bounded matlab grids delivering_api 5 calls bits (ground arith) refl

abbrev dem_config : Value
dem_config = structs (
    (("RNTI", leaf_num 17)
      ∷ ("RBMask", leaf_num 1)
      ∷ ("Modulation", leaf_text "QPSK")
      ∷ ("StartSymbolIndex", leaf_num 0)
      ∷ ("NumSymbols", leaf_num 14)
      ∷ ("DMRSSymbPos", leaf_num 1)
      ∷ ("DMRSConfigType", leaf_num 1)
      ∷ ("NumCDMGroupsWithoutData", leaf_num 2)
      ∷ ("NID", leaf_num 1)
      ∷ ("NumLayers", leaf_num 1)
      ∷ ("TransformPrecoding", leaf_num 0)
      ∷ ("RxPorts", leaf_num 0)
      ∷ ("NumOutputLLR", leaf_num 5)
      ∷ [])
    ∷ [])

abbrev pub step_inputs : List Value
step_inputs =
    chars "step"
    ∷ rx_grid
    ∷ tensor complex_double (168 ∷ 1 ∷ []) (replicate 168 7)
    ∷ tensor double (1 ∷ 1 ∷ []) (3 ∷ [])
    ∷ dem_config
    ∷ []

abbrev read_config : DemodulatorConfiguration
read_config = record {
  rnti = 17;
  rb_mask = true ∷ [];
  modulation = qpsk;
  start_symbol_index = 0;
  nof_symbols = 14;
  dmrs_symb_pos = true ∷ [];
  dmrs_config_type = type1;
  nof_cdm_groups_without_data = 2;
  n_id = 1;
  nof_tx_layers = 1;
  enable_transform_precoding = false;
  rx_ports = 0 ∷ [];
}

method_step_delivers_example :
    method_step matlab grids delivering_api 1 step_inputs (some mmse)
    ≡ done (soft_bits bits) (some mmse)
unfolding read_resource_grid read_into read_grid_ports read_symbols read_symbol first last
    create_resource_grid create_with nof_grid_ports check_step_outputs_inputs field_elements
    push_rx_ports read_demodulator_config divide copy_path set_noise estimate_port estimate_layer
    set_estimates read_estimates matlab_to_srs_modulation matlab_to_srs_dmrs_type for_range bitset
method_step_delivers_example =
    method_step_delivers matlab grids delivering_api 1 step_inputs mmse mmse read_config _ _ 5
      blocks
      (record {
        checked = refl;
        in1 = rx_grid;
        has_in1 = refl;
        in_dem_cfg = dem_config;
        has_config = refl;
        configured = refl;
        has_grid = refl;
        estimated = refl;
        requested = refl;
      })
      (ground arith) refl refl (tt, (inl (ground arith), tt))
