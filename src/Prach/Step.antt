-- ===== src/Prach/Step.antt =====
-- prach_detector_mex.h and prach_detector_mex.cpp: the checks and `method_step`.
use srs_ran_matlab.Prelude.{
  ℕ, String, not, ◌&&◌, List, [], ◌∷◌, Option, none, some, ◌==◌, length, map, take, if◌then◌else◌,
}
use srs_ran_matlab.Mex.{
  Matlab, Result, ok, err, abort, num, text, Arg, abort_if, input, is_type, not_scalar,
  complex_double, struct, unsigned_field, text_field, dereference, ◌>>=◌, ◌>>◌,
}
use srs_ran_matlab.Mex.Call.{lift}
use srs_ran_matlab.Mex.Loop.{for_range}
use srs_ran_matlab.Mex.Dispatcher.{Callbacks, create_callbacks}
use srs_ran_matlab.Convert.{matlab_to_srs_restricted_set}
use srs_ran_matlab.Span.{u32}
use srs_ran_matlab.Grid.{dim, nof_grid_ports}
use srs_ran_matlab.Prach.Api.{DetectionResult, DetectorConfiguration, PrachApi}

-- The fields of the structure that is returned.
pub record PreambleIndication (Real : Type 0) : Type 0 where
  pub num_detected_preambles : ℕ
  pub rssi_decibel : Real
  pub time_resolution : Real
  pub max_time_advance : Real
  pub preamble_indices : List ℕ
  pub time_advance : List Real
  pub normalized_metric : List Real

abbrev quoted : List ℕ → List Arg
quoted [] = []
quoted (n ∷ ns) = num n ∷ quoted ns

-- The output structure. Its arrays have `nof_detections` elements, which the loop fills preamble by
-- preamble.
unfoldable pub indication : {Real : Type 0} → DetectionResult Real → PreambleIndication Real
indication result =
    let nof_detections = u32 (length result.preambles) in
    let detected = take nof_detections result.preambles in
    record {
      num_detected_preambles = nof_detections;
      rssi_decibel = result.rssi_db;
      time_resolution = result.time_resolution;
      max_time_advance = result.time_advance_max;
      preamble_indices = map (λ p. p.preamble_index) detected;
      time_advance = map (λ p. p.time_advance) detected;
      normalized_metric = map (λ p. p.detection_metric) detected;
    }

module _ (m : Matlab) where
  unfoldable pub check_step_outputs_inputs : ℕ → List m.Array → Result (Unit {0})
  check_step_outputs_inputs outputs inputs = do
    abort_if (not (length inputs == 3)) "Wrong number of inputs." []
    in1 ← input m inputs 1
    abort_if (not (is_type (m.get_type in1) complex_double))
        "Input 'prach_symbols' must be an array of double." []
    in2 ← input m inputs 2
    abort_if (not_scalar m struct in2) "Input 'config' must be a scalar structure." []
    abort_if (not (outputs == 1)) "Wrong number of outputs." []

module _ (m : Matlab) (api : PrachApi m.Number m.Complex) where
  open api use {Buffer, Format, RaScs, Real, Detector, Validator}

  abbrev pub Config : Type 0
  Config = DetectorConfiguration Format RaScs

  -- srsRAN's own conversion
  unfoldable pub matlab_to_srs_preamble_format : String → Format
  matlab_to_srs_preamble_format preamble_format = api.to_prach_format_type preamble_format

  unfoldable pub read_detector_config : String → String → m.Array → ℕ → Result Config
  read_detector_config restricted_set_in format_in in_det_cfg nof_rx_ports = do
    restricted_set ← matlab_to_srs_restricted_set restricted_set_in
    root_sequence_index ← unsigned_field m in_det_cfg "SequenceIndex"
    zero_correlation_zone ← unsigned_field m in_det_cfg "ZeroCorrelationZone"
    scs_field ← m.field in_det_cfg 0 "SubcarrierSpacing"
    scs ← m.element scs_field 0
    ok (record {
      restricted_set = restricted_set;
      root_sequence_index = root_sequence_index;
      format = matlab_to_srs_preamble_format format_in;
      zero_correlation_zone = zero_correlation_zone;
      start_preamble_index = 0;
      nof_preamble_indices = 64;
      ra_scs = api.to_ra_subcarrier_spacing (api.khz_to_hz scs);
      nof_rx_ports = nof_rx_ports;
    })

  abbrev pub made : Option Buffer → Result Buffer
  made none = err (abort "Cannot create srsRAN PRACH buffer." [])
  made (some buffer) = ok buffer

  -- The buffer for the number of samples of a symbol.
  unfoldable pub create_buffer : ℕ → ℕ → List ℕ → Result Buffer
  create_buffer nof_re nof_rx_ports buffer_dimensions =
      if nof_re == api.long_sequence_length
      then made (api.create_prach_buffer_long nof_rx_ports 1)
      else if nof_re == api.short_sequence_length
      then made (api.create_prach_buffer_short nof_rx_ports 1 1)
      else err (abort "Invalid number of samples. Dimensions=[{}]." (quoted buffer_dimensions))

  unfoldable pub fill_sample : m.Array → ℕ → ℕ → ℕ → Buffer → Result Buffer
  fill_sample in_cft_array i_rx_port i_symbol i_sample buffer = do
    sample ← m.complex_element in_cft_array i_sample i_symbol i_rx_port
    api.put buffer i_rx_port i_symbol i_sample (api.to_cbf16 (api.to_cf sample))

  unfoldable pub fill_symbol : m.Array → ℕ → ℕ → ℕ → Buffer → Result Buffer
  fill_symbol in_cft_array nof_re i_rx_port i_symbol =
      for_range nof_re 0 (fill_sample in_cft_array i_rx_port i_symbol)

  unfoldable pub fill_port : m.Array → ℕ → ℕ → ℕ → Buffer → Result Buffer
  fill_port in_cft_array nof_re nof_symbols i_rx_port =
      for_range nof_symbols 0 (fill_symbol in_cft_array nof_re i_rx_port)

  unfoldable pub fill_buffer : m.Array → ℕ → ℕ → ℕ → Buffer → Result Buffer
  fill_buffer in_cft_array nof_re nof_symbols nof_rx_ports =
      for_range nof_rx_ports 0 (fill_port in_cft_array nof_re nof_symbols)

  -- The members of `MexFunction`, `none` for a null pointer.
  pub record PrachMex : Type 0 where
    pub detector : Option Detector
    pub validator : Option Validator

  unfoldable pub detect_in :
      PrachMex → m.Array → List ℕ → ℕ → ℕ → ℕ → Config → Result (PreambleIndication Real)
  detect_in mex in_cft_array dims nof_re nof_symbols nof_rx_ports detector_config = do
    validator ← dereference mex.validator
    abort_if (not (api.is_valid validator detector_config)) "Invalid configuration:\n {:n}."
        (text (api.describe detector_config) ∷ [])
    buffer ← create_buffer nof_re nof_rx_ports dims
    filled ← fill_buffer in_cft_array nof_re nof_symbols nof_rx_ports buffer
    detector ← dereference mex.detector
    ok (indication (api.detect detector filled detector_config))

  unfoldable pub method_step : PrachMex → ℕ → List m.Array → Result (PreambleIndication Real)
  method_step mex outputs inputs = do
    check_step_outputs_inputs m outputs inputs
    in_det_cfg ← input m inputs 2
    restricted_set_in ← text_field m in_det_cfg "RestrictedSet"
    format_in ← text_field m in_det_cfg "Format"
    in_cft_array ← input m inputs 1
    let dims = m.get_dimensions in_cft_array
    abort_if (not (length dims == 2) && not (length dims == 3))
        "Invalid number of dimensions (i.e., {})." (num (length dims) ∷ [])
    nof_re ← dim dims 0
    nof_symbols ← dim dims 1
    detector_config ←
        read_detector_config restricted_set_in format_in in_det_cfg (nof_grid_ports dims)
    detect_in mex in_cft_array dims (u32 nof_re) (u32 nof_symbols) (nof_grid_ports dims)
        detector_config

  abbrev pub callback_table : Callbacks m.Array PrachMex (PreambleIndication Real)
  callback_table = ("step", λ outputs inputs mex. lift (method_step mex outputs inputs) mex) ∷ []

  -- The constructor, for the members that were made. It does not look at the validator.
  unfoldable pub construct :
      Option Detector
      → Option Validator
      → Result (PrachMex × Callbacks m.Array PrachMex (PreambleIndication Real))
  construct none validator = err (abort "Cannot create srsran PRACH detector." [])
  construct (some detector) validator = do
    callbacks ← create_callbacks callback_table []
    ok (record { detector = some detector; validator = validator }, callbacks)
