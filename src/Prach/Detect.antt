-- ===== src/Prach/Detect.antt =====
-- prach_detector_mex.cpp: what `method_step` has checked, and what it runs the detector on.
use srs_ran_matlab.Prelude.{
  ℕ, ◌≡◌, ◌≢◌, ◌⊎◌, refl, inl, inr, ap, not, List, Option, none, some, true, false, ◌==◌, arith,
}
use srs_ran_matlab.Mex.{
  Matlab, ok, >>=-eq-ok, abort_if-eq-ok, ok-injective, dereference, dereference-eq-ok,
}
use srs_ran_matlab.Prach.Api.{PrachApi}
use srs_ran_matlab.Prach.Step.{
  PrachMex, Config, PreambleIndication, indication, create_buffer, made, fill_buffer, detect_in,
}

module _ (m : Matlab) (api : PrachApi m.Number m.Complex) where
  -- The buffer is the one that srsRAN makes for the sequence length.
  abbrev pub IsBufferFor : ℕ → ℕ → api.Buffer → Type 0
  IsBufferFor nof_re nof_rx_ports b =
      ((nof_re ≡ api.long_sequence_length) × (api.create_prach_buffer_long nof_rx_ports 1 ≡ some b))
      ⊎ ((nof_re ≢ api.long_sequence_length)
          × (nof_re ≡ api.short_sequence_length)
          × (api.create_prach_buffer_short nof_rx_ports 1 1 ≡ some b))

  made-ok : (o : Option api.Buffer) (b : api.Buffer) → made m api o ≡ ok b → o ≡ some b
  made-ok none b h = cc
  made-ok (some c) b h = ap some (ok-injective c b h)

  create_buffer-ok :
      (nof_re nof_rx_ports : ℕ) (dims : List ℕ) (b : api.Buffer)
      → create_buffer m api nof_re nof_rx_ports dims ≡ ok b
      → IsBufferFor nof_re nof_rx_ports b
  unfolding create_buffer
  create_buffer-ok nof_re nof_rx_ports dims b h = ground (
    arith,
    made-ok (api.create_prach_buffer_long nof_rx_ports 1) b,
    made-ok (api.create_prach_buffer_short nof_rx_ports 1 1) b,
  )

  IsBufferFor-create_buffer :
      (nof_re nof_rx_ports : ℕ) (dims : List ℕ) (b : api.Buffer)
      → IsBufferFor nof_re nof_rx_ports b
      → create_buffer m api nof_re nof_rx_ports dims ≡ ok b
  unfolding create_buffer
  IsBufferFor-create_buffer nof_re nof_rx_ports dims b (inl (long, there)) =
      let is_long : (nof_re == api.long_sequence_length) ≡ true = ground (arith, long) in
      rw (is_long, there) refl
  IsBufferFor-create_buffer nof_re nof_rx_ports dims b (inr (not_long, short, there)) =
      let other : (nof_re == api.long_sequence_length) ≡ false = ground (arith, not_long) in
      let is_short : (nof_re == api.short_sequence_length) ≡ true = ground (arith, short) in
      rw (other, is_short, there) refl

  -- The rest of `method_step`, once the configuration is read: it returns only where the object has a
  -- validator that accepts the configuration, and the number of samples is that of a long or a short
  -- sequence; the buffer for this sequence is then filled from the array, and what is returned is what
  -- the object's detector finds in it.
  pub detect_in_lem :
      (mex : PrachMex m api) (a : m.Array) (dims : List ℕ) (nof_re nof_symbols nof_rx_ports : ℕ)
      (config : Config m api) (out : PreambleIndication api.Real)
      → detect_in m api mex a dims nof_re nof_symbols nof_rx_ports config ≡ ok out
      → (detector : api.Detector) × (validator : api.Validator) × (empty filled : api.Buffer)
        × (mex.detector ≡ some detector)
        × (mex.validator ≡ some validator)
        × (api.is_valid validator config ≡ true)
        × IsBufferFor nof_re nof_rx_ports empty
        × (fill_buffer m api a nof_re nof_symbols nof_rx_ports empty ≡ ok filled)
        × (indication (api.detect detector filled config) ≡ out)
  unfolding detect_in
  detect_in_lem mex a dims nof_re nof_symbols nof_rx_ports config out h =
      let (validator, has_validator, h1) = >>=-eq-ok (dereference mex.validator) _ h in
      let (accepted, h2) = abort_if-eq-ok (not (api.is_valid validator config)) _ _ _ h1 in
      let (empty, made_for, h3) = >>=-eq-ok (create_buffer m api nof_re nof_rx_ports dims) _ h2 in
      let (filled, filling, h4) =
        >>=-eq-ok (fill_buffer m api a nof_re nof_symbols nof_rx_ports empty) _ h3 in
      let (detector, has_detector, h5) = >>=-eq-ok (dereference mex.detector) _ h4 in
      (
        detector,
        validator,
        empty,
        filled,
        dereference-eq-ok mex.detector detector has_detector,
        dereference-eq-ok mex.validator validator has_validator,
        ground (arith, accepted),
        create_buffer-ok nof_re nof_rx_ports dims empty made_for,
        filling,
        ok-injective _ out h5,
      )

  pub detect_in_complete :
      (mex : PrachMex m api) (a : m.Array) (dims : List ℕ) (nof_re nof_symbols nof_rx_ports : ℕ)
      (config : Config m api) (detector : api.Detector) (validator : api.Validator)
      (empty filled : api.Buffer)
      → mex.detector ≡ some detector
      → mex.validator ≡ some validator
      → api.is_valid validator config ≡ true
      → IsBufferFor nof_re nof_rx_ports empty
      → fill_buffer m api a nof_re nof_symbols nof_rx_ports empty ≡ ok filled
      → detect_in m api mex a dims nof_re nof_symbols nof_rx_ports config
        ≡ ok (indication (api.detect detector filled config))
  unfolding detect_in
  detect_in_complete mex a dims nof_re nof_symbols nof_rx_ports config detector validator empty
        filled has_detector has_validator accepted made_for filling =
      rw
        (
          has_validator,
          accepted,
          IsBufferFor-create_buffer nof_re nof_rx_ports dims empty made_for,
          filling,
          has_detector,
        )
        refl
