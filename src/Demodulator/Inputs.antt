-- ===== src/Demodulator/Inputs.antt =====
-- pusch_demodulator_mex.cpp: the checks, the configuration and the channel estimates that are read from
-- the inputs.
use srs_ran_matlab.Prelude.{
  ℕ, ◌-◌, ◌/◌, String, not, List, [], ◌∷◌, ◌++◌, ◌==◌, str_eq, length, map, if◌then◌else◌,
}
use srs_ran_matlab.Mex.{
  Matlab, Result, ok, err, abort, num, text, assertion, undefined, abort_if, input, is_type,
  not_scalar, char, complex_single, complex_double, double, struct, unsigned_field, bool_field,
  text_field, ◌>>=◌, ◌>>◌,
}
use srs_ran_matlab.Mex.Loop.{for_range}
use srs_ran_matlab.Convert.{matlab_to_srs_modulation, matlab_to_srs_dmrs_type}
use srs_ran_matlab.Bitset.{bitset}
use srs_ran_matlab.Span.{first, last, u32}
use srs_ran_matlab.Demodulator.Codeword.{CodewordBuffer, on_end_codeword}
use srs_ran_matlab.Demodulator.Codeword.Deliver.{deliver}
use srs_ran_matlab.Demodulator.Factory.{EqualizerType, zf, mmse}
use srs_ran_matlab.Demodulator.Api.{
  DemodulatorConfiguration, BufferCall, delivers, ends, DemodulatorApi,
}

-- The equalizer of a name.
unfoldable pub equalizer_type : String → Result EqualizerType
equalizer_type eq_type_string =
    if str_eq eq_type_string "MMSE"
    then ok mmse
    else if str_eq eq_type_string "ZF"
    then ok zf
    else err (abort "Unknown equalizer type {}." (text eq_type_string ∷ []))

-- What the demodulator does to the codeword buffer.
unfoldable pub run_calls :
    {Llr : Type 0} → List (BufferCall Llr) → CodewordBuffer Llr → Result (CodewordBuffer Llr)
run_calls [] b = ok b
run_calls (delivers d ∷ calls) b = deliver d b >>= run_calls calls
run_calls (ends ∷ calls) b = on_end_codeword b >>= run_calls calls

module _ (m : Matlab) where
  -- `method_new` up to the creation
  unfoldable pub read_equalizer : ℕ → List m.Array → Result EqualizerType
  read_equalizer outputs inputs = do
    abort_if (not (length inputs == 2)) "Wrong number of inputs: expected {}, provided {}."
        (num 2 ∷ num (length inputs) ∷ [])
    in1 ← input m inputs 1
    abort_if (not (is_type (m.get_type in1) char)) "Input 'equalizerType' must be a string." []
    eq_type_string ← m.to_ascii in1
    eq_type ← equalizer_type eq_type_string
    abort_if (not (outputs == 0)) "Wrong number of outputs: expected 0, provided {}."
        (num outputs ∷ [])
    ok eq_type

  unfoldable pub check_step_outputs_inputs : ℕ → List m.Array → Result (Unit {0})
  check_step_outputs_inputs outputs inputs = do
    abort_if (not (length inputs == 5)) "Wrong number of inputs." []
    in1 ← input m inputs 1
    abort_if (not (is_type (m.get_type in1) complex_single))
        "Input 'rxSymbols' must be an array of complex floats." []
    in2 ← input m inputs 2
    abort_if (not (is_type (m.get_type in2) complex_double))
        "Input 'cest' must be an array of complex doubles." []
    in3 ← input m inputs 3
    abort_if (not_scalar m double in3) "Input 'noiseVar' must be a scalar double." []
    in4 ← input m inputs 4
    abort_if (not_scalar m struct in4) "Input 'PUSCHDemConfig' must be a scalar structure." []
    abort_if (not (outputs == 1)) "Wrong number of outputs." []

  -- the elements of a `TypedArray` in a field of the configuration
  unfoldable pub field_elements : m.Array → String → Result (List m.Number)
  field_elements in_dem_cfg name = do value ← m.field in_dem_cfg 0 name; m.elements value

  -- `for (double rxp : rx_ports_in) { rx_ports.push_back(static_cast<uint8_t>(rxp)); }`
  unfoldable pub push_rx_ports : List m.Number → List ℕ → List ℕ
  push_rx_ports [] rx_ports = rx_ports
  push_rx_ports (rxp ∷ rx_ports_in) rx_ports =
      push_rx_ports rx_ports_in (rx_ports ++ (m.as_uint8 rxp ∷ []))

module _ (m : Matlab) {Grid Llr : Type 0} (api : DemodulatorApi m.Number m.Complex Grid Llr) where
  unfoldable pub read_demodulator_config : m.Array → Result DemodulatorConfiguration
  read_demodulator_config in_dem_cfg = do
    rnti ← unsigned_field m in_dem_cfg "RNTI"
    rb_mask_in ← field_elements m in_dem_cfg "RBMask"
    rb_mask ← bitset api.max_nof_crbs (map m.as_bool rb_mask_in)
    modulation_in ← text_field m in_dem_cfg "Modulation"
    modulation ← matlab_to_srs_modulation modulation_in
    start_symbol_index ← unsigned_field m in_dem_cfg "StartSymbolIndex"
    nof_symbols ← unsigned_field m in_dem_cfg "NumSymbols"
    dmrs_pos_in ← field_elements m in_dem_cfg "DMRSSymbPos"
    dmrs_symb_pos ← bitset api.max_nsymb_per_slot (map m.as_bool dmrs_pos_in)
    dmrs_type_in ← unsigned_field m in_dem_cfg "DMRSConfigType"
    dmrs_config_type ← matlab_to_srs_dmrs_type dmrs_type_in
    nof_cdm_groups_without_data ← unsigned_field m in_dem_cfg "NumCDMGroupsWithoutData"
    n_id ← unsigned_field m in_dem_cfg "NID"
    nof_tx_layers ← unsigned_field m in_dem_cfg "NumLayers"
    enable_transform_precoding ← bool_field m in_dem_cfg "TransformPrecoding"
    rx_ports_in ← field_elements m in_dem_cfg "RxPorts"
    ok (record {
      rnti = rnti;
      rb_mask = rb_mask;
      modulation = modulation;
      start_symbol_index = start_symbol_index;
      nof_symbols = nof_symbols;
      dmrs_symb_pos = dmrs_symb_pos;
      dmrs_config_type = dmrs_config_type;
      nof_cdm_groups_without_data = nof_cdm_groups_without_data;
      n_id = n_id;
      nof_tx_layers = nof_tx_layers;
      enable_transform_precoding = enable_transform_precoding;
      rx_ports = push_rx_ports m rx_ports_in [];
    })

-- `a / b` on unsigned numbers
unfoldable pub divide : ℕ → ℕ → Result ℕ
divide a b = if b == 0 then err undefined else ok (a / b)

module _ {Number Complex Grid Llr : Type 0} (api : DemodulatorApi Number Complex Grid Llr) where
  open api use {ChannelEstimate, Real}

  -- The locals of the loops.
  pub record Estimating : Type 0 where
    pub ce_port_view : List Complex
    pub chan_estimates : ChannelEstimate

  -- `srsvec::copy(chan_estimates.get_path_ch_estimate(rx_port, tx_layer), values)`, which converts
  -- the elements
  unfoldable pub copy_path : ℕ → ℕ → List Complex → ChannelEstimate → Result ChannelEstimate
  copy_path i_rx_port i_tx_layer values chan_estimates =
      if api.path_size chan_estimates == length values
      then ok (api.set_path chan_estimates i_rx_port i_tx_layer (map api.to_cbf16 values))
      else err (assertion "copy")

  -- The noise variance of a port is set with the first layer.
  unfoldable pub set_noise : Real → ℕ → ℕ → ChannelEstimate → ChannelEstimate
  set_noise noise_var i_tx_layer i_rx_port chan_estimates =
      if i_tx_layer == 0
      then api.set_noise_variance chan_estimates noise_var i_rx_port
      else chan_estimates

  unfoldable pub estimate_port : ℕ → Real → ℕ → ℕ → Estimating → Result Estimating
  estimate_port nof_ch_re_port noise_var i_tx_layer i_rx_port s = do
    values ← first nof_ch_re_port s.ce_port_view
    copied ← copy_path i_rx_port i_tx_layer values s.chan_estimates
    rest ← last (length s.ce_port_view - nof_ch_re_port) s.ce_port_view
    ok (record {
      ce_port_view = rest;
      chan_estimates = set_noise noise_var i_tx_layer i_rx_port copied;
    })

  unfoldable pub estimate_layer : ℕ → Real → ℕ → ℕ → Estimating → Result Estimating
  estimate_layer nof_ch_re_port noise_var nof_rx_ports i_tx_layer =
      for_range nof_rx_ports 0 (estimate_port nof_ch_re_port noise_var i_tx_layer)

  unfoldable pub set_estimates : ℕ → Real → ℕ → ℕ → Estimating → Result Estimating
  set_estimates nof_ch_re_port noise_var nof_rx_ports nof_tx_layers =
      for_range nof_tx_layers 0 (estimate_layer nof_ch_re_port noise_var nof_rx_ports)

-- The channel estimates, from the third and the fourth input.
unfoldable pub read_estimates :
    (m : Matlab) {Grid Llr : Type 0} (api : DemodulatorApi m.Number m.Complex Grid Llr)
    → List m.Array
    → DemodulatorConfiguration
    → Result api.ChannelEstimate
read_estimates m api inputs demodulator_config = do
  in_ce_cft_array ← input m inputs 2
  let nof_rx_ports = length demodulator_config.rx_ports
  let chan_estimates = api.channel_estimate (record {
    nof_prb = length demodulator_config.rb_mask;
    nof_symbols = api.max_nsymb_per_slot;
    nof_rx_ports = nof_rx_ports;
    nof_tx_layers = demodulator_config.nof_tx_layers;
  })
  in3 ← input m inputs 3
  noise_var ← m.element in3 0
  nof_ch_re ← divide (m.get_number_of_elements in_ce_cft_array) nof_rx_ports
  nof_ch_re_port ← divide nof_ch_re demodulator_config.nof_tx_layers
  ce_port_view ← m.complex_elements in_ce_cft_array
  set ←
      set_estimates api (u32 nof_ch_re_port) (api.to_float noise_var) nof_rx_ports
        demodulator_config.nof_tx_layers
        (record { ce_port_view = ce_port_view; chan_estimates = chan_estimates })
  ok set.chan_estimates
