-- ===== src/Prach/Read.antt =====
-- prach_detector_mex.cpp: the configuration that is read, and the structure that is returned, field by
-- field.
use srs_ran_matlab.Prelude.{ℕ, ◌≡◌, refl, sym, ap, String, length, map, take}
use srs_ran_matlab.Mex.{Matlab, ok, >>=-eq-ok, ok-injective, unsigned_field}
use srs_ran_matlab.Convert.{matlab_to_srs_restricted_set, RestrictedSet, qpsk, normal}
use srs_ran_matlab.Convert.Domains.{restricted_set_name, names_iff}
use srs_ran_matlab.Span.{u32}
use srs_ran_matlab.Prach.Api.{PrachApi, DetectionResult}
use srs_ran_matlab.Prach.Step.{
  Config, PreambleIndication, indication, read_detector_config, matlab_to_srs_preamble_format,
}

-- The structure has the four numbers of the result, and in each array one value of every preamble.
abbrev pub indication_of : {Real : Type 0} → DetectionResult Real → PreambleIndication Real
indication_of result = record {
  num_detected_preambles = u32 (length result.preambles);
  rssi_decibel = result.rssi_db;
  time_resolution = result.time_resolution;
  max_time_advance = result.time_advance_max;
  preamble_indices =
      map (λ p. p.preamble_index) (take (u32 (length result.preambles)) result.preambles);
  time_advance = map (λ p. p.time_advance) (take (u32 (length result.preambles)) result.preambles);
  normalized_metric =
      map (λ p. p.detection_metric) (take (u32 (length result.preambles)) result.preambles);
}

pub indication_lem :
    {Real : Type 0} (result : DetectionResult Real) → indication result ≡ indication_of result
unfolding indication
indication_lem result = refl

module _ (m : Matlab) (api : PrachApi m.Number m.Complex) (in_det_cfg : m.Array) where
  -- The members come from the fields; the search is over the 64 preambles from 0 on.
  pub record IsConfigured (set_in format_in : String) (nof_rx_ports : ℕ) (cfg : Config m api)
      : Type 0 where
    pub set : RestrictedSet
    pub has_set : set_in ≡ restricted_set_name set
    pub root : ℕ
    pub has_root : unsigned_field m in_det_cfg "SequenceIndex" ≡ ok root
    pub zone : ℕ
    pub has_zone : unsigned_field m in_det_cfg "ZeroCorrelationZone" ≡ ok zone
    pub scs_field : m.Array
    pub has_scs_field : m.field in_det_cfg 0 "SubcarrierSpacing" ≡ ok scs_field
    pub khz : m.Number
    pub has_khz : m.element scs_field 0 ≡ ok khz
    pub members : cfg ≡ record {
      restricted_set = set;
      root_sequence_index = root;
      format = api.to_prach_format_type format_in;
      zero_correlation_zone = zone;
      start_preamble_index = 0;
      nof_preamble_indices = 64;
      ra_scs = api.to_ra_subcarrier_spacing (api.khz_to_hz khz);
      nof_rx_ports = nof_rx_ports;
    }

  pub read_detector_config-IsConfigured :
      (set_in format_in : String) (ports : ℕ) (cfg : Config m api)
      → read_detector_config m api set_in format_in in_det_cfg ports ≡ ok cfg
      → IsConfigured set_in format_in ports cfg
  unfolding read_detector_config matlab_to_srs_preamble_format
  read_detector_config-IsConfigured set_in format_in ports cfg h =
      let (set, named, h1) = >>=-eq-ok (matlab_to_srs_restricted_set set_in) _ h in
      let (root, has_root, h2) = >>=-eq-ok (unsigned_field m in_det_cfg "SequenceIndex") _ h1 in
      let (zone, has_zone, h3) =
        >>=-eq-ok (unsigned_field m in_det_cfg "ZeroCorrelationZone") _ h2 in
      let (scs_field, has_field, h4) = >>=-eq-ok (m.field in_det_cfg 0 "SubcarrierSpacing") _ h3 in
      let (khz, has_khz, h5) = >>=-eq-ok (m.element scs_field 0) _ h4 in
      record {
        set = set;
        has_set = (names_iff set_in qpsk normal set).4.0 named;
        root = root;
        has_root = has_root;
        zone = zone;
        has_zone = has_zone;
        scs_field = scs_field;
        has_scs_field = has_field;
        khz = khz;
        has_khz = has_khz;
        members = sym (ok-injective _ cfg h5);
      }

  pub IsConfigured-read_detector_config :
      (set_in format_in : String) (ports : ℕ) (cfg : Config m api)
      → IsConfigured set_in format_in ports cfg
      → read_detector_config m api set_in format_in in_det_cfg ports ≡ ok cfg
  unfolding read_detector_config matlab_to_srs_preamble_format
  IsConfigured-read_detector_config set_in format_in ports cfg c =
      let named = (names_iff set_in qpsk normal c.set).4.1 c.has_set in
      rw (named, c.has_root, c.has_zone, c.has_scs_field, c.has_khz) (ap ok (sym c.members))
