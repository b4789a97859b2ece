-- ===== src/Prach/Detected.antt =====
-- prach_detector_mex.cpp: what `method_step` has checked and computed when it returns.
use srs_ran_matlab.Prelude.{
  ℕ, String, ◌≡◌, ◌↔◌, ◌⊎◌, refl, sym, ap, ◌∙◌, subst, false, not, ◌&&◌, List, [], ◌∷◌, some, true,
  length, arith, ◌==◌,
}
use srs_ran_matlab.Mex.{
  Matlab, ok, >>=-eq-ok, abort_if-eq-ok, text_field, is_type, not_scalar, complex_double, struct,
}
use srs_ran_matlab.Span.{u32}
use srs_ran_matlab.Grid.{dim, nof_grid_ports}
use srs_ran_matlab.Prach.Api.{PrachApi}
use srs_ran_matlab.Prach.Step.{
  PrachMex, Config, PreambleIndication, check_step_outputs_inputs, read_detector_config,
  fill_buffer, method_step,
}
use srs_ran_matlab.Prach.Read.{
  IsConfigured, read_detector_config-IsConfigured, IsConfigured-read_detector_config, indication_of,
  indication_lem,
}
use srs_ran_matlab.Prach.Detect.{IsBufferFor, detect_in_lem, detect_in_complete}

module _ (m : Matlab) where
  check-ok :
      (outputs : ℕ) (inputs : List m.Array)
      → check_step_outputs_inputs m outputs inputs ≡ ok tt
      → (action prach_symbols config : m.Array) × (inputs ≡ action ∷ prach_symbols ∷ config ∷ [])
        × (is_type (m.get_type prach_symbols) complex_double ≡ true)
        × (not_scalar m struct config ≡ false)
        × (outputs ≡ 1)
  unfolding check_step_outputs_inputs
  check-ok outputs [] h = ground arith
  check-ok outputs (a ∷ []) h = ground arith
  check-ok outputs (a ∷ b ∷ []) h = ground arith
  check-ok outputs (a ∷ b ∷ c ∷ d ∷ xs) h = ground arith
  check-ok outputs (a ∷ b ∷ c ∷ []) h =
      let (doubles, h1) = abort_if-eq-ok (not (is_type (m.get_type b) complex_double)) _ _ _ h in
      let (scalar, h2) = abort_if-eq-ok (not_scalar m struct c) _ _ _ h1 in
      (a, b, c, refl, ground (arith, doubles), scalar, ground (arith, h2))

module _ (m : Matlab) (api : PrachApi m.Number m.Complex) where
  -- Three inputs, of which the second is an array of doubles, of two or three dimensions with the
  -- samples of a long or a short sequence, and the third a configuration that the object's validator
  -- accepts; and one output, which is what the object's detector finds in the samples.
  pub record IsDetected (mex : PrachMex m api) (outputs : ℕ) (inputs : List m.Array)
      (out : PreambleIndication api.Real) : Type 0 where
    pub action : m.Array
    pub prach_symbols : m.Array
    pub in_det_cfg : m.Array
    pub are_three : inputs ≡ action ∷ prach_symbols ∷ in_det_cfg ∷ []
    pub one_output : outputs ≡ 1
    pub are_doubles : is_type (m.get_type prach_symbols) complex_double ≡ true
    pub is_structure : not_scalar m struct in_det_cfg ≡ false
    pub dims :
        (length (m.get_dimensions prach_symbols) ≡ 2)
        ⊎ (length (m.get_dimensions prach_symbols) ≡ 3)
    pub nof_re : ℕ
    pub has_samples : dim (m.get_dimensions prach_symbols) 0 ≡ ok nof_re
    pub nof_symbols : ℕ
    pub has_symbols : dim (m.get_dimensions prach_symbols) 1 ≡ ok nof_symbols
    pub restricted_set : String
    pub has_restricted_set : text_field m in_det_cfg "RestrictedSet" ≡ ok restricted_set
    pub format : String
    pub has_format : text_field m in_det_cfg "Format" ≡ ok format
    pub config : Config m api
    pub configured :
        IsConfigured m api in_det_cfg restricted_set format
          (nof_grid_ports (m.get_dimensions prach_symbols))
          config
    pub validator : api.Validator
    pub has_validator : mex.validator ≡ some validator
    pub accepted : api.is_valid validator config ≡ true
    pub buffer : api.Buffer
    pub made_for :
        IsBufferFor m api (u32 nof_re) (nof_grid_ports (m.get_dimensions prach_symbols)) buffer
    pub filled : api.Buffer
    pub is_filled :
        fill_buffer m api prach_symbols
          (u32 nof_re)
          (u32 nof_symbols)
          (nof_grid_ports (m.get_dimensions prach_symbols))
          buffer
        ≡ ok filled
    pub detector : api.Detector
    pub has_detector : mex.detector ≡ some detector
    pub detected : indication_of (api.detect detector filled config) ≡ out

  step-IsDetected :
      (mex : PrachMex m api) (action prach_symbols in_det_cfg : m.Array)
      (out : PreambleIndication api.Real)
      → is_type (m.get_type prach_symbols) complex_double ≡ true
      → not_scalar m struct in_det_cfg ≡ false
      → method_step m api mex 1 (action ∷ prach_symbols ∷ in_det_cfg ∷ []) ≡ ok out
      → IsDetected mex 1 (action ∷ prach_symbols ∷ in_det_cfg ∷ []) out
  unfolding method_step
  step-IsDetected mex action prach_symbols in_det_cfg out doubles scalar h =
      let inputs = action ∷ prach_symbols ∷ in_det_cfg ∷ [] in
      let ds = m.get_dimensions prach_symbols in
      let ports = nof_grid_ports ds in
      let (_, checked, h1) = >>=-eq-ok (check_step_outputs_inputs m 1 inputs) _ h in
      let (set_in, has_set, h2) = >>=-eq-ok (text_field m in_det_cfg "RestrictedSet") _ h1 in
      let (format_in, has_format, h3) = >>=-eq-ok (text_field m in_det_cfg "Format") _ h2 in
      let (two_or_three, h4) =
        abort_if-eq-ok (not (length ds == 2) && not (length ds == 3)) _ _ _ h3 in
      let (re, has_re, h5) = >>=-eq-ok (dim ds 0) _ h4 in
      let (symbols, has_symbols, h6) = >>=-eq-ok (dim ds 1) _ h5 in
      let (config, configured, h7) =
        >>=-eq-ok (read_detector_config m api set_in format_in in_det_cfg ports) _ h6 in
      let (detector, validator, empty, filled, d, v, accepted, made_for, is_filled, detected) =
        detect_in_lem m api mex prach_symbols ds (u32 re) (u32 symbols) ports config out h7 in
      record {
        action = action;
        prach_symbols = prach_symbols;
        in_det_cfg = in_det_cfg;
        are_three = refl;
        one_output = refl;
        are_doubles = doubles;
        is_structure = scalar;
        dims = ground (arith, two_or_three);
        nof_re = re;
        has_samples = has_re;
        nof_symbols = symbols;
        has_symbols = has_symbols;
        restricted_set = set_in;
        has_restricted_set = has_set;
        format = format_in;
        has_format = has_format;
        config = config;
        configured =
            read_detector_config-IsConfigured m api in_det_cfg set_in format_in ports config
              configured;
        validator = validator;
        has_validator = v;
        accepted = accepted;
        buffer = empty;
        made_for = made_for;
        filled = filled;
        is_filled = is_filled;
        detector = detector;
        has_detector = d;
        detected = sym (indication_lem (api.detect detector filled config)) ∙ detected;
      }

  method_step_sound :
      (mex : PrachMex m api) (outputs : ℕ) (inputs : List m.Array)
      (out : PreambleIndication api.Real)
      → method_step m api mex outputs inputs ≡ ok out
      → IsDetected mex outputs inputs out
  unfolding method_step
  method_step_sound mex outputs inputs out h =
      let (_, checked, _) = >>=-eq-ok (check_step_outputs_inputs m outputs inputs) _ h in
      let (action, prach_symbols, config, three, doubles, scalar, one) =
        check-ok m outputs inputs checked in
      let there : IsDetected mex 1 (action ∷ prach_symbols ∷ config ∷ []) out =
        step-IsDetected mex action prach_symbols config out doubles scalar (
          subst (λ xs. method_step m api mex 1 xs ≡ ok out) three
            (subst (λ n. method_step m api mex n inputs ≡ ok out) one h)) in
      subst (λ n. IsDetected mex n inputs out) (sym one)
        (subst (λ xs. IsDetected mex 1 xs out) (sym three) there)

  checks_complete :
      (action prach_symbols in_det_cfg : m.Array)
      → is_type (m.get_type prach_symbols) complex_double ≡ true
      → not_scalar m struct in_det_cfg ≡ false
      → check_step_outputs_inputs m 1 (action ∷ prach_symbols ∷ in_det_cfg ∷ []) ≡ ok tt
  unfolding check_step_outputs_inputs
  checks_complete action prach_symbols in_det_cfg doubles scalar =
      let typed : (not (is_type (m.get_type prach_symbols) complex_double)) ≡ false =
        ground (arith, doubles) in
      rw (typed, scalar) refl

  method_step_complete :
      (mex : PrachMex m api) (outputs : ℕ) (inputs : List m.Array)
      (out : PreambleIndication api.Real) (d : IsDetected mex outputs inputs out)
      → method_step m api mex 1 (d.action ∷ d.prach_symbols ∷ d.in_det_cfg ∷ []) ≡ ok out
  unfolding method_step
  method_step_complete mex outputs inputs out d =
      let ds = m.get_dimensions d.prach_symbols in
      let two_or_three : (not (length ds == 2) && not (length ds == 3)) ≡ false =
        ground (arith, d.dims) in
      rw
        (
          checks_complete d.action d.prach_symbols d.in_det_cfg d.are_doubles d.is_structure,
          d.has_restricted_set,
          d.has_format,
          two_or_three,
          d.has_samples,
          d.has_symbols,
          IsConfigured-read_detector_config m api d.in_det_cfg d.restricted_set d.format
              (nof_grid_ports ds) d.config d.configured,
        )
        (detect_in_complete m api mex d.prach_symbols ds (u32 d.nof_re) (u32 d.nof_symbols)
            (nof_grid_ports ds) d.config d.detector d.validator d.buffer d.filled d.has_detector
            d.has_validator d.accepted d.made_for d.is_filled
          ∙ ap ok (indication_lem (api.detect d.detector d.filled d.config) ∙ d.detected))

  -- `method_step` returns exactly for one output and three inputs: an array of complex doubles of two
  -- or three dimensions whose first is the length of a long or a short sequence, and a scalar structure
  -- with a configuration, each member from its own field and with all 64 preambles to search, which is
  -- accepted by the object's validator, and the validator and the detector have to be there; and where
  -- the buffer for this sequence and the array's ports can be made, and `fill_buffer` fills it from the
  -- array. What is returned has, field by field, what the object's detector finds in the buffer.
  pub method_step-IsDetected :
      (mex : PrachMex m api) (outputs : ℕ) (inputs : List m.Array)
      (out : PreambleIndication api.Real)
      → (method_step m api mex outputs inputs ≡ ok out) ↔ IsDetected mex outputs inputs out
  method_step-IsDetected mex outputs inputs out = (
    method_step_sound mex outputs inputs out,
    λ d.
        ap (λ n. method_step m api mex n inputs) d.one_output
        ∙ ap (method_step m api mex 1) d.are_three
        ∙ method_step_complete mex outputs inputs out d,
  )
