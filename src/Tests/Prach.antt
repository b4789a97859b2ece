-- ===== src/Tests/Prach.antt =====
-- prach_detector_mex.cpp with a buffer that is a function, and sequences of two or three samples.
use srs_ran_matlab.Prelude.{
  ℕ, ◌+◌, ◌*◌, ◌/◌, ◌<◌, ◌≡◌, ◌≢◌, ◌⊎◌, refl, inl, inr, ◌&&◌, true, [], ◌∷◌, Option, some, ◌==◌,
  ltb, if◌then◌else◌, arith,
}
use srs_ran_matlab.Mex.{ok, err, assertion, Result, complex_double}
use srs_ran_matlab.Convert.{unrestricted}
use srs_ran_matlab.Prach.Api.{PrachApi, IsBuffer}
use srs_ran_matlab.Prach.Step.{PrachMex, Config, PreambleIndication, fill_buffer}
use srs_ran_matlab.Prach.Fill.{fill_buffer_lem}
use srs_ran_matlab.Tests.Values.{Value, tensor, matlab}

pub record Samples : Type 0 where
  pub ports : ℕ
  pub symbols : ℕ
  pub samples : ℕ
  pub at : ℕ → ℕ → ℕ → Option ℕ

abbrev pub put_at : Samples → ℕ → ℕ → ℕ → ℕ → ℕ → ℕ → ℕ → Option ℕ
put_at b p l i x q n j = if (q == p) && (n == l) && (j == i) then some x else b.at q n j

abbrev pub put : Samples → ℕ → ℕ → ℕ → ℕ → Result Samples
put b p l i x =
    if ltb p b.ports && ltb l b.symbols && ltb i b.samples
    then ok (record b { at = put_at b p l i x })
    else err (assertion "get_symbol")

abbrev pub empty : ℕ → ℕ → Samples
empty ports samples = record { ports = ports; symbols = 2; samples = samples; at = λ p l i. some 0 }

-- A conversion that loses precision: two neighbours become one.
abbrev pub halved : ℕ → ℕ
halved x = x / 2

abbrev pub prach_api : PrachApi ℕ ℕ
prach_api = record {
  Format = Unit;
  RaScs = ℕ;
  Real = ℕ;
  Buffer = Samples;
  Single = ℕ;
  to_cf = λ x. x;
  Sample = ℕ;
  to_cbf16 = halved;
  to_prach_format_type = λ name. tt;
  khz_to_hz = λ khz. 1000 * khz;
  to_ra_subcarrier_spacing = λ hz. hz;
  Detector = Unit;
  Validator = Unit;
  is_valid = λ validator config. true;
  describe = λ config. "";
  create_prach_buffer_long = λ ports occasions. some (empty ports 3);
  create_prach_buffer_short = λ ports occasions frequencies. some (empty ports 2);
  long_sequence_length = 3;
  short_sequence_length = 2;
  nof_ports = λ b. b.ports;
  nof_symbols = λ b. b.symbols;
  nof_samples = λ b. b.samples;
  get = λ b. b.at;
  put = put;
  detect = λ detector b config. record {
    rssi_db = 1;
    time_resolution = 2;
    time_advance_max = 3;
    preambles = record { preamble_index = 4; time_advance = 5; detection_metric = 6 } ∷ [];
  };
}

put-in_range :
    (b : Samples) (p l i x : ℕ)
    → p < b.ports
    → l < b.symbols
    → i < b.samples
    → put b p l i x ≡ ok (record b { at = put_at b p l i x })
put-in_range b p l i x hp hl hi = ground arith

put_at_same : (b : Samples) (p l i x : ℕ) → put_at b p l i x p l i ≡ some x
put_at_same b p l i x = ground arith

put_at_other :
    (b : Samples) (p l i x q n j : ℕ)
    → (q ≢ p) ⊎ (n ≢ l) ⊎ (j ≢ i)
    → put_at b p l i x q n j ≡ b.at q n j
put_at_other b p l i x q n j h = ground arith

prach_api-IsBuffer : IsBuffer prach_api
prach_api-IsBuffer = record {
  put-in_range = λ b p l i x hp hl hi. (
    record b { at = put_at b p l i x },
    put-in_range b p l i x hp hl hi,
    refl,
    refl,
    refl,
    put_at_same b p l i x,
    put_at_other b p l i x,
  );
}

abbrev pub symbols : Value
symbols = tensor complex_double (2 ∷ 1 ∷ 2 ∷ []) (10 ∷ 11 ∷ 12 ∷ 13 ∷ [])

abbrev value : ℕ → ℕ → ℕ → ℕ
value q n j = 10 + q * 2 + j

below_two : (q : ℕ) → q < 2 → (q ≡ 0) ⊎ (q ≡ 1)
below_two q h = ground arith

symbols_read :
    (q n j : ℕ) → q < 2 → n < 1 → j < 2 → matlab.complex_element symbols j n q ≡ ok (value q n j)
symbols_read q n j hq hn hj =
    let first : n ≡ 0 = omega arith in
    elim (below_two q hq) [
      | inl e ↦ elim (below_two j hj) [
        | inl f ↦ rw (e, first, f) refl
        | inr f ↦ rw (e, first, f) refl
      ]
      | inr e ↦ elim (below_two j hj) [
        | inl f ↦ rw (e, first, f) refl
        | inr f ↦ rw (e, first, f) refl
      ]
    ]

fill_buffer_lem_example :
    (c : Samples) × (fill_buffer matlab prach_api symbols 2 1 2 (empty 2 2) ≡ ok c)
    × ((q n j : ℕ) → q < 2 → n < 1 → j < 2 → c.at q n j ≡ some (halved (value q n j)))
fill_buffer_lem_example =
    fill_buffer_lem matlab prach_api prach_api-IsBuffer symbols 2 1 2 value symbols_read (empty 2 2)
      (ground arith) (ground arith) (ground arith)

abbrev config : Config matlab prach_api
config = record {
  restricted_set = unrestricted;
  root_sequence_index = 0;
  format = tt;
  zero_correlation_zone = 0;
  start_preamble_index = 0;
  nof_preamble_indices = 64;
  ra_scs = 15000;
  nof_rx_ports = 2;
}

abbrev pub mex : PrachMex matlab prach_api
mex = record { detector = some tt; validator = some tt }

abbrev pub found : PreambleIndication ℕ
found = record {
  num_detected_preambles = 1;
  rssi_decibel = 1;
  time_resolution = 2;
  max_time_advance = 3;
  preamble_indices = 4 ∷ [];
  time_advance = 5 ∷ [];
  normalized_metric = 6 ∷ [];
}
