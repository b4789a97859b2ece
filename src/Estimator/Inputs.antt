-- ===== src/Estimator/Inputs.antt =====
-- multiport_channel_estimator_mex.cpp: the checks, the strategies, the configuration and the pilots
-- that are read from the inputs.
use srs_ran_matlab.Prelude.{
  ℕ, zero, suc, ◌+◌, ◌-◌, ◌*◌, String, Bool, true, false, not, ◌||◌, ◌&&◌, List, [], ◌∷◌, Option,
  none, some, ◌==◌, ltb, str_eq, length, map, if◌then◌else◌,
}
use srs_ran_matlab.Mex.{
  Matlab, Result, ok, err, abort, num, text, Arg, abort_if, input, is_type, not_scalar, char,
  logical, complex_single, double, struct, unsigned_field, text_field, ◌>>=◌, ◌>>◌,
}
use srs_ran_matlab.Mex.Loop.{for_range}
use srs_ran_matlab.Convert.{matlab_to_srs_cyclic_prefix, matlab_to_srs_subcarrier_spacing}
use srs_ran_matlab.Span.{first, last, u32}
use srs_ran_matlab.Bitset.{bitset}
use srs_ran_matlab.Grid.{dim}
use srs_ran_matlab.Estimator.Factory.{
  FdSmoothing, none_strategy, filter, mean, TdInterpolation, average, interpolate,
}
use srs_ran_matlab.Estimator.Api.{LayerDmrsPattern, EstimatorConfiguration, EstimatorApi}

unfoldable pub fd_smoothing_of : String → Result FdSmoothing
fd_smoothing_of fd_smoothing_string =
    if str_eq fd_smoothing_string "filter"
    then ok filter
    else if str_eq fd_smoothing_string "mean"
    then ok mean
    else if str_eq fd_smoothing_string "none"
    then ok none_strategy
    else err (abort "Unknown FD smoothing strategy {}." (text fd_smoothing_string ∷ []))

unfoldable pub td_interpolation_of : String → Result TdInterpolation
td_interpolation_of td_interpolation_string =
    if str_eq td_interpolation_string "interpolate"
    then ok interpolate
    else if str_eq td_interpolation_string "average"
    then ok average
    else err (abort "Unknown TD interpolation strategy {}." (text td_interpolation_string ∷ []))

abbrev quoted : List ℕ → List Arg
quoted [] = []
quoted (n ∷ ns) = num n ∷ quoted ns

-- `(dims.size() != 1) && (dims[1] > 4)`
unfoldable pub check_columns : List ℕ → Result (Unit {0})
check_columns (rows ∷ []) = ok tt
check_columns dims = do
  columns ← dim dims 1
  abort_if (ltb 4 columns)
      "Input 'refSym' can have at most 4 columns (i.e., 4 Tx layers) - provided size {}."
      (num columns ∷ [])

-- `bitmap.count()`
unfoldable pub count : List Bool → ℕ
count [] = 0
count (true ∷ bits) = count bits + 1
count (false ∷ bits) = count bits

module _ (m : Matlab) where
  -- `method_new` up to the creation
  unfoldable pub read_new : ℕ → List m.Array → Result (FdSmoothing × TdInterpolation × Bool)
  read_new outputs inputs = do
    abort_if (not (length inputs == 4)) "Wrong number of inputs: expected {}, provided {}."
        (num 4 ∷ num (length inputs) ∷ [])
    in1 ← input m inputs 1
    abort_if (not (is_type (m.get_type in1) char)) "Input 'smoothing' must be a string." []
    fd_smoothing_string ← m.to_ascii in1
    fd_smoothing ← fd_smoothing_of fd_smoothing_string
    in2 ← input m inputs 2
    abort_if (not (is_type (m.get_type in2) char)) "Input 'interpolation' must be a string." []
    td_interpolation_string ← m.to_ascii in2
    td_interpolation ← td_interpolation_of td_interpolation_string
    in3 ← input m inputs 3
    abort_if (not (is_type (m.get_type in3) logical) && ltb 1 (m.get_number_of_elements in3))
        "Input 'compensateCFO' should be a scalar logical." []
    compensate_cfo ← m.element in3 0
    abort_if (not (outputs == 0)) "Wrong number of outputs: expected 0, provided {}."
        (num outputs ∷ [])
    ok (fd_smoothing, td_interpolation, m.as_bool compensate_cfo)

  unfoldable pub check_step_outputs_inputs : ℕ → List m.Array → Result (Unit {0})
  check_step_outputs_inputs outputs inputs = do
    abort_if (not (length inputs == 5)) "Wrong number of inputs: expected {}, provided {}."
        (num 5 ∷ num (length inputs) ∷ [])
    in1 ← input m inputs 1
    let in1_dims = m.get_dimensions in1
    abort_if
        (not (is_type (m.get_type in1) complex_single)
          || ltb (length in1_dims) 2
          || ltb 3 (length in1_dims))
        "Input 'rxGrid' should be a 2- or 3-dimensional array of complex floats, provided [{}]."
        (quoted in1_dims)
    in2 ← input m inputs 2
    abort_if (not (is_type (m.get_type in2) double) || not (m.get_number_of_elements in2 == 2))
        "Input 'symbolAllocation' should contain two elements only." []
    in3 ← input m inputs 3
    abort_if (not (is_type (m.get_type in3) complex_single))
        "Input 'refSym' should contain complex float symbols." []
    let in3dims = m.get_dimensions in3
    abort_if (ltb 2 (length in3dims))
        "Input 'refSym' can have at most 2 dimensions provided size {}." (num (length in3dims) ∷ [])
    check_columns in3dims
    in4 ← input m inputs 4
    abort_if (not_scalar m struct in4) "Input 'config' should be a scalar structure." []
    abort_if (not (outputs == 2)) "Wrong number of outputs: expected {}, provided {}."
        (num 2 ∷ num outputs ∷ [])

  -- a `TypedArray<bool>` in a field of the configuration
  unfoldable pub bits_field : m.Array → String → Result (List Bool)
  bits_field in_cfg name = do
    value ← m.field in_cfg 0 name
    elements ← m.elements value
    ok (map m.as_bool elements)

  -- `cfg.rx_ports[i_port] = static_cast<unsigned>(in_port_indices[i_port])`, from the port `i_port` on
  unfoldable pub read_port_indices : m.Array → ℕ → ℕ → Result (List ℕ)
  read_port_indices in_port_indices zero i_port = ok []
  read_port_indices in_port_indices (suc left) i_port = do
    index ← m.element in_port_indices i_port
    indices ← read_port_indices in_port_indices left (i_port + 1)
    ok (m.as_unsigned index ∷ indices)

  unfoldable pub read_ports : m.Array → ℕ → Result (List ℕ)
  read_ports in_cfg nof_rx_ports = do
    in_port_indices ← m.field in_cfg 0 "PortIndices"
    let nof_port_indices = u32 (m.get_number_of_elements in_port_indices)
    abort_if (not (nof_port_indices == nof_rx_ports))
        "PortIndices and number of resource grid ports do not match: {} vs. {}."
        (num nof_port_indices ∷ num nof_rx_ports ∷ [])
    read_port_indices in_port_indices nof_rx_ports 0

module _ (m : Matlab) {Grid : Type 0} (api : EstimatorApi m.Number m.Complex Grid) where
  -- The members of a pattern that depend on the hopping index.
  unfoldable pub hopping_of : List m.Number → List Bool → Result (Option ℕ × List Bool)
  hopping_of [] in_rb_mask2 = ok (none, [])
  hopping_of (index ∷ in_hop) in_rb_mask2 = do
    rb_mask2 ← bitset api.max_nof_crbs in_rb_mask2
    ok (some (m.as_unsigned index), rb_mask2)

  -- The resource elements of a layer.
  abbrev pub re_pattern_of : List Bool → List Bool → ℕ → List Bool
  re_pattern_of cdm0 cdm1 i_layer = if ltb i_layer 2 then cdm0 else cdm1

  -- The pattern of a layer; the bitmaps are those of the fields.
  unfoldable pub dmrs_pattern_of :
      List Bool
      → List Bool
      → Result (Option ℕ × List Bool)
      → List Bool
      → List Bool
      → ℕ
      → Result LayerDmrsPattern
  dmrs_pattern_of in_symbols in_rb_mask hopping cdm0 cdm1 i_layer = do
    symbols ← bitset api.max_nsymb_per_slot in_symbols
    rb_mask ← bitset api.max_nof_crbs in_rb_mask
    hop ← hopping
    re_pattern ← bitset 12 (re_pattern_of cdm0 cdm1 i_layer)
    ok (record {
      symbols = symbols;
      rb_mask = rb_mask;
      hopping_symbol_index = hop.0;
      rb_mask2 = hop.1;
      re_pattern = re_pattern;
    })

  -- The patterns of the layers from `i_layer` on.
  unfoldable pub dmrs_patterns :
      List Bool
      → List Bool
      → Result (Option ℕ × List Bool)
      → List Bool
      → List Bool
      → ℕ
      → ℕ
      → Result (List LayerDmrsPattern)
  dmrs_patterns symbols rb_mask hopping cdm0 cdm1 zero i_layer = ok []
  dmrs_patterns symbols rb_mask hopping cdm0 cdm1 (suc left) i_layer = do
    pattern ← dmrs_pattern_of symbols rb_mask hopping cdm0 cdm1 i_layer
    patterns ← dmrs_patterns symbols rb_mask hopping cdm0 cdm1 left (i_layer + 1)
    ok (pattern ∷ patterns)

  unfoldable pub read_dmrs_patterns : m.Array → ℕ → Result (List LayerDmrsPattern)
  read_dmrs_patterns in_cfg nof_layers = do
    in_symbols ← bits_field m in_cfg "Symbols"
    in_rb_mask ← bits_field m in_cfg "RBMask"
    in_rb_mask2 ← bits_field m in_cfg "RBMask2"
    hop ← m.field in_cfg 0 "HoppingIndex"
    in_hop ← m.elements hop
    in_re_pattern_cdm0 ← bits_field m in_cfg "REPatternCDM0"
    in_re_pattern_cdm1 ← bits_field m in_cfg "REPatternCDM1"
    abort_if (ltb 2 nof_layers && (length in_re_pattern_cdm1 == 0))
        "Configuration with {} layers but only one RE pattern." (num nof_layers ∷ [])
    dmrs_patterns in_symbols in_rb_mask (hopping_of in_hop in_rb_mask2) in_re_pattern_cdm0
        in_re_pattern_cdm1 nof_layers 0

module _ {Number Complex Grid : Type 0} (api : EstimatorApi Number Complex Grid) where
  -- The locals of the loop over the layers.
  pub record Slicing : Type 0 where
    pub pilot_view : List Complex
    pub pilots : api.Pilots

  unfoldable pub slice_layer : ℕ → ℕ → Slicing → Result Slicing
  slice_layer nof_pilot_layer i_layer s = do
    slice ← first nof_pilot_layer s.pilot_view
    rest ← last (length s.pilot_view - nof_pilot_layer) s.pilot_view
    ok (record { pilot_view = rest; pilots = api.set_slice s.pilots slice i_layer })

  unfoldable pub slice_pilots : ℕ → ℕ → Slicing → Result Slicing
  slice_pilots nof_pilot_layer nof_layers = for_range nof_layers 0 (slice_layer nof_pilot_layer)

module _ (m : Matlab) {Grid : Type 0} (api : EstimatorApi m.Number m.Complex Grid) where
  -- The configuration, and the number of layers; the receive ports are set once there is a grid.
  unfoldable pub read_estimator_config :
      List m.Array → m.Array → Result (EstimatorConfiguration api.Float × ℕ)
  read_estimator_config inputs in_cfg = do
    in_cp ← text_field m in_cfg "CyclicPrefix"
    cp ← matlab_to_srs_cyclic_prefix in_cp
    scs_in ← unsigned_field m in_cfg "SubcarrierSpacing"
    scs ← matlab_to_srs_subcarrier_spacing scs_in
    in_allocation ← input m inputs 2
    first_symbol ← m.element in_allocation 0
    nof_symbols ← m.element in_allocation 1
    in3 ← input m inputs 3
    columns ← dim (m.get_dimensions in3) 1
    dmrs_pattern ← read_dmrs_patterns m api in_cfg (u32 columns)
    scaling_field ← m.field in_cfg 0 "BetaScaling"
    scaling ← m.element scaling_field 0
    ok (
      record {
        cp = cp;
        scs = scs;
        first_symbol = m.as_unsigned first_symbol;
        nof_symbols = m.as_unsigned nof_symbols;
        dmrs_pattern = dmrs_pattern;
        scaling = api.to_float scaling;
        rx_ports = [];
      },
      u32 columns,
    )

  -- `cfg.dmrs_pattern[0]`
  unfoldable pub first_pattern : List LayerDmrsPattern → Result LayerDmrsPattern
  first_pattern [] = api.pattern_of_none
  first_pattern (pattern ∷ patterns) = ok pattern

  -- The DM-RS, one slice for each layer.
  unfoldable pub read_pilots : List m.Array → LayerDmrsPattern → ℕ → Result api.Pilots
  read_pilots inputs dmrs_pattern nof_layers = do
    let nof_pilot_res = u32 (count dmrs_pattern.rb_mask * count dmrs_pattern.re_pattern)
    let nof_pilot_symbols = count dmrs_pattern.symbols
    let nof_expected = u32 (nof_pilot_res * nof_pilot_symbols * nof_layers)
    in_pilots ← input m inputs 3
    abort_if (not (m.get_number_of_elements in_pilots == nof_expected))
        "Expected {} DM-RS symbols over {} layers, received {}."
        (num nof_expected ∷ num nof_layers ∷ num (m.get_number_of_elements in_pilots) ∷ [])
    pilot_view ← m.complex_elements in_pilots
    s ← slice_pilots api (u32 (nof_pilot_res * nof_pilot_symbols)) nof_layers (record {
      pilot_view = pilot_view;
      pilots = api.dmrs_symbol_list (record {
        nof_subc = nof_pilot_res;
        nof_symbols = nof_pilot_symbols;
        nof_slices = nof_layers;
      });
    })
    ok s.pilots
