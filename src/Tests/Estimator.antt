-- ===== src/Tests/Estimator.antt =====
-- multiport_channel_estimator_mex.cpp with pilots and estimates that are functions.
use srs_ran_matlab.Prelude.{
  ℕ, ◌+◌, ◌*◌, ◌<◌, ◌≡◌, ◌≢◌, refl, true, false, List, [], ◌∷◌, Option, ltb, none, some, ◌==◌, take,
  drop, length, get_elem?, if◌then◌else◌, arith,
}
use srs_ran_matlab.Mex.{ok, err, undefined}
use srs_ran_matlab.Estimator.Factory.{EstimatorFactories}
use srs_ran_matlab.Estimator.Api.{EstimatorApi, IsPilots, LayerDmrsPattern}
use srs_ran_matlab.Estimator.Inputs.{Slicing, slice_pilots, dmrs_patterns}
use srs_ran_matlab.Estimator.Outputs.{Info, write_estimates, infos}
use srs_ran_matlab.Estimator.Pilots.{slice_pilots_lem}
use srs_ran_matlab.Estimator.Written.{write_estimates_lem}
use srs_ran_matlab.Estimator.Rows.{AreMetrics, infos_lem}
use srs_ran_matlab.Estimator.Layers.{dmrs_patterns_lem}
use srs_ran_matlab.Tests.Values.{matlab}
use srs_ran_matlab.Tests.Grid.{Elements}

abbrev Slices : Type 0
Slices = ℕ → List ℕ

abbrev estimator_factories : EstimatorFactories ℕ
estimator_factories = record {
  DftFactory = Unit;
  TimeAlignmentFactory = Unit;
  PortEstimatorFactory = Unit;
  create_dft_processor_factory_fftw_slow = some tt;
  create_time_alignment_estimator_dft_factory = λ dft. dft;
  create_port_channel_estimator_factory_sw = λ ta. ta;
  create = λ factory fd td cfo. some 1;
}

abbrev pub estimator_api : EstimatorApi ℕ ℕ Elements
estimator_api = record {
  Float = ℕ;
  Double = ℕ;
  max_nsymb_per_slot = 14;
  max_nof_crbs = 275;
  pattern_of_none = err undefined;
  to_float = λ x. x;
  to_double = λ x. x;
  float_zero = 0;
  float_add = λ x y. x + y;
  float_divide = λ x n. x;
  double_zero = 0;
  double_add = λ x y. x + y;
  double_divide = λ x n. x;
  nan = 0;
  is_nan = λ x. x == 0;
  Estimator = ℕ;
  factories = estimator_factories;
  Pilots = Slices;
  dmrs_symbol_list = λ dims l. [];
  set_slice = λ ps xs l n. if n == l then xs else ps n;
  get_slice = λ ps l. ps l;
  ChannelEstimate = ℕ;
  channel_estimate = λ dims. 0;
  get_path_ch_estimate = λ e p l. p ∷ l ∷ [];
  get_noise_variance = λ e p. 1;
  get_rsrp = λ e p. 2;
  get_epre = λ e p. 3;
  get_snr = λ e p. 4;
  get_time_alignment = λ e p. 5;
  get_cfo_hz = λ e p. none;
  compute = λ estimator e grid port pilots cfg. (estimator, e);
  zero_complex = 0;
}

set_slice_same : (ps : Slices) (xs : List ℕ) (l : ℕ) → (if l == l then xs else ps l) ≡ xs
set_slice_same ps xs l = ground arith

set_slice_other :
    (ps : Slices) (xs : List ℕ) (l n : ℕ) → n ≢ l → (if n == l then xs else ps n) ≡ ps n
set_slice_other ps xs l n h = ground arith

estimator_api-IsPilots : IsPilots estimator_api
estimator_api-IsPilots = record {
  get_slice-set_slice = set_slice_same;
  get_slice-set_slice_ne = set_slice_other;
}

abbrev ref_sym : List ℕ
ref_sym = 1 ∷ 2 ∷ 3 ∷ 4 ∷ 5 ∷ 6 ∷ []

abbrev no_slices : Slices
no_slices l = []

slice_pilots_lem_example :
    (t : Slicing estimator_api) × (slice_pilots estimator_api 3 2
        (record { pilot_view = ref_sym; pilots = no_slices })
      ≡ ok t)
    × ((l : ℕ) → l < 2 → t.pilots l ≡ take 3 (drop (l * 3) ref_sym))
slice_pilots_lem_example =
    slice_pilots_lem estimator_api estimator_api-IsPilots ref_sym 3 2 (ground arith) no_slices

write_estimates_lem_example :
    (out : List ℕ) × (write_estimates estimator_api 0 2 3 12 ≡ ok out)
    × (length out ≡ 12)
    × ((p l : ℕ) → p < 2 → l < 3 → take 2 (drop ((l * 2 + p) * 2) out) ≡ p ∷ l ∷ [])
write_estimates_lem_example = write_estimates_lem estimator_api 0 2 2 3 (λ p l hp hl. refl)

dmrs_patterns_lem_example :
    (patterns : List LayerDmrsPattern) × (dmrs_patterns matlab estimator_api
        (true ∷ [])
        (true ∷ [])
        (ok (none, []))
        (true ∷ [])
        (false ∷ [])
        3
        0
      ≡ ok patterns)
    × (length patterns ≡ 3)
    × ((l : ℕ)
        → l < 3
        → get_elem? patterns l
          ≡ some (record {
            symbols = true ∷ [];
            rb_mask = true ∷ [];
            hopping_symbol_index = none;
            rb_mask2 = [];
            re_pattern = if ltb l 2 then true ∷ [] else false ∷ [];
          }))
dmrs_patterns_lem_example =
    dmrs_patterns_lem matlab estimator_api (true ∷ []) (true ∷ []) (true ∷ []) (false ∷ []) [] none
      (ground arith) (ground arith) (ground arith) (ground arith) 3

infos_lem_example :
    (rows : List (Option (Info estimator_api))) × (infos estimator_api 0 2 ≡ ok rows)
    × AreMetrics estimator_api 0 2 rows
infos_lem_example = infos_lem estimator_api 0 2 (ground arith)
