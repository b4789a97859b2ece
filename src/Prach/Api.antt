-- ===== src/Prach/Api.antt =====
-- What the PRACH detector MEX function uses of srsRAN: the configuration, the buffer, the detector and
-- its validator.
use srs_ran_matlab.Prelude.{ℕ, ◌<◌, ◌≡◌, ◌≢◌, ◌⊎◌, Bool, List, Option, some, String}
use srs_ran_matlab.Mex.{Result, ok}
use srs_ran_matlab.Convert.{RestrictedSet}

-- `prach_detection_result::preamble_indication`
pub record Preamble (Real : Type 0) : Type 0 where
  pub preamble_index : ℕ
  pub time_advance : Real
  pub detection_metric : Real

-- `prach_detection_result`
pub record DetectionResult (Real : Type 0) : Type 0 where
  pub rssi_db : Real
  pub time_resolution : Real
  pub time_advance_max : Real
  pub preambles : List (Preamble Real)

-- `prach_detector::configuration`
pub record DetectorConfiguration (Format RaScs : Type 0) : Type 0 where
  pub restricted_set : RestrictedSet
  pub root_sequence_index : ℕ
  pub format : Format
  pub zero_correlation_zone : ℕ
  pub start_preamble_index : ℕ
  pub nof_preamble_indices : ℕ
  pub ra_scs : RaScs
  pub nof_rx_ports : ℕ

pub record PrachApi (Number Complex : Type 0) : Type 1 where
  pub Format : Type 0
  pub RaScs : Type 0
  pub Real : Type 0
  pub Buffer : Type 0
  -- `static_cast<cf_t>`, and what `cbf16_t` keeps of a `cf_t`
  pub Single : Type 0
  pub to_cf : Complex → Single
  pub Sample : Type 0
  pub to_cbf16 : Single → Sample
  -- `to_prach_format_type`, `static_cast<unsigned>(1000.0 * khz)` and `to_ra_subcarrier_spacing`
  pub to_prach_format_type : String → Format
  pub khz_to_hz : Number → ℕ
  pub to_ra_subcarrier_spacing : ℕ → RaScs
  -- `prach_detector` and `prach_detector_validator`
  pub Detector : Type 0
  pub Validator : Type 0
  pub is_valid : Validator → DetectorConfiguration Format RaScs → Bool
  pub describe : DetectorConfiguration Format RaScs → String
  -- for a number of ports, of time-domain and of frequency-domain occasions
  pub create_prach_buffer_long : ℕ → ℕ → Option Buffer
  pub create_prach_buffer_short : ℕ → ℕ → ℕ → Option Buffer
  pub long_sequence_length : ℕ
  pub short_sequence_length : ℕ
  pub nof_ports : Buffer → ℕ
  pub nof_symbols : Buffer → ℕ
  pub nof_samples : Buffer → ℕ
  -- the sample of a port, a symbol and an index, all of the first occasion
  pub get : Buffer → ℕ → ℕ → ℕ → Option Sample
  -- `get_symbol(port, 0, 0, symbol)[i] = sample`, a failed assertion out of range
  pub put : Buffer → ℕ → ℕ → ℕ → Sample → Result Buffer
  pub detect : Detector → Buffer → DetectorConfiguration Format RaScs → DetectionResult Real

-- What is documented of the buffer: a write in range succeeds and changes this sample alone.
pub record IsBuffer {Number Complex : Type 0} (api : PrachApi Number Complex) : Type 0 where
  pub put-in_range :
      (b : api.Buffer) (p l i : ℕ) (x : api.Sample)
      → p < api.nof_ports b
      → l < api.nof_symbols b
      → i < api.nof_samples b
      → (c : api.Buffer) × (api.put b p l i x ≡ ok c)
        × (api.nof_ports c ≡ api.nof_ports b)
        × (api.nof_symbols c ≡ api.nof_symbols b)
        × (api.nof_samples c ≡ api.nof_samples b)
        × (api.get c p l i ≡ some x)
        × ((q n j : ℕ) → (q ≢ p) ⊎ (n ≢ l) ⊎ (j ≢ i) → api.get c q n j ≡ api.get b q n j)
