-- ===== src/Tests/Demodulator.antt =====
-- pusch_demodulator_mex.cpp with channel estimates that are a function, for two ports and two layers.
use srs_ran_matlab.Prelude.{
  ℕ, ◌+◌, ◌*◌, ◌/◌, ◌<◌, ◌≡◌, ◌≢◌, ◌⊎◌, ◌↔◌, refl, ◌&&◌, List, [], ◌∷◌, none, some, ◌==◌, map, take,
  drop, if◌then◌else◌, arith,
}
use srs_ran_matlab.Mex.{ok}
use srs_ran_matlab.Mex.Call.{done}
use srs_ran_matlab.Demodulator.Api.{DemodulatorApi, IsEstimate}
use srs_ran_matlab.Demodulator.Factory.{
  EqualizerType, mmse, DemodulatorFactories, create_pusch_demodulator,
}
use srs_ran_matlab.Demodulator.Inputs.{Estimating, set_estimates, equalizer_type, read_equalizer}
use srs_ran_matlab.Demodulator.Estimates.{at_view, set_estimates_lem}
use srs_ran_matlab.Demodulator.Methods.{no_outputs, create, method_new}
use srs_ran_matlab.Demodulator.Steps.{IsMade, method_new_iff}
use srs_ran_matlab.Tests.Values.{chars, matlab}
use srs_ran_matlab.Tests.Grid.{Elements, grids}

pub record Paths : Type 0 where
  pub size : ℕ
  pub at : ℕ → ℕ → List ℕ

abbrev pub set_at : Paths → ℕ → ℕ → List ℕ → ℕ → ℕ → List ℕ
set_at e p l xs q n = if (q == p) && (n == l) then xs else e.at q n

-- A factory of demodulators is the type of its equalizer.
abbrev pub demodulator_factories : DemodulatorFactories EqualizerType
demodulator_factories = record {
  DftFactory = Unit;
  TransformPrecoderFactory = ℕ;
  EqualizerFactory = EqualizerType;
  MapperFactory = Unit;
  EvmFactory = Unit;
  PrgFactory = Unit;
  PuschDemodulatorFactory = EqualizerType;
  max_rb = 275;
  create_dft_processor_factory_fftw_slow = some tt;
  create_dft_transform_precoder_factory = λ dft n. some n;
  create_channel_equalizer_generic_factory = λ type. some type;
  create_demodulation_mapper_factory = some tt;
  create_pseudo_random_generator_sw_factory = some tt;
  create_pusch_demodulator_factory_sw = λ equalizer precoder mapper evm prg n. equalizer;
  create = λ type. some type;
}

-- A conversion that loses precision: two neighbours become one.
abbrev pub halved : ℕ → ℕ
halved x = x / 2

abbrev pub demodulator_api : DemodulatorApi ℕ ℕ Elements ℕ
demodulator_api = record {
  Demodulator = EqualizerType;
  Real = ℕ;
  factories = demodulator_factories;
  max_nsymb_per_slot = 14;
  max_nof_crbs = 275;
  to_float = λ x. x;
  ChannelEstimate = Paths;
  Coefficient = ℕ;
  to_cbf16 = halved;
  channel_estimate = λ dims. record { size = dims.nof_prb * 12 * dims.nof_symbols; at = λ p l. [] };
  path_size = λ e. e.size;
  get_path_ch_estimate = λ e. e.at;
  set_path = λ e p l xs. record e { at = set_at e p l xs };
  set_noise_variance = λ e x p. e;
  out_address = 100;
  zero_llr = 0;
  demodulate = λ demodulator grid estimates config. (demodulator, []);
}

set_at_same : (e : Paths) (p l : ℕ) (xs : List ℕ) → set_at e p l xs p l ≡ xs
set_at_same e p l xs = ground arith

set_at_other :
    (e : Paths) (p l q n : ℕ) (xs : List ℕ) → (q ≢ p) ⊎ (n ≢ l) → set_at e p l xs q n ≡ e.at q n
set_at_other e p l q n xs h = ground arith

demodulator_api-IsEstimate : IsEstimate demodulator_api
demodulator_api-IsEstimate = record {
  path_size-set_path = λ e p l xs. refl;
  path_size-set_noise_variance = λ e x p. refl;
  get_path-set_path = set_at_same;
  get_path-set_path_ne = set_at_other;
  get_path-set_noise_variance = λ e x p q n. refl;
}

abbrev cest : List ℕ
cest = 1 ∷ 2 ∷ 3 ∷ 4 ∷ 5 ∷ 6 ∷ 7 ∷ 8 ∷ []

abbrev no_paths : Paths
no_paths = record { size = 2; at = λ p l. [] }

set_estimates_lem_example :
    (t : Estimating demodulator_api) × (set_estimates demodulator_api 2 7 2 2
        (at_view demodulator_api demodulator_api-IsEstimate cest no_paths)
      ≡ ok t)
    × ((p l : ℕ)
        → p < 2
        → l < 2
        → t.chan_estimates.at p l ≡ map halved (take 2 (drop ((l * 2 + p) * 2) cest)))
set_estimates_lem_example =
    set_estimates_lem demodulator_api demodulator_api-IsEstimate cest 2 2 2 7 (ground arith)
      no_paths refl

method_new_iff_example :
    (method_new matlab grids demodulator_api 0 (chars "new" ∷ chars "MMSE" ∷ []) none
      ≡ done no_outputs (some mmse))
    ↔ IsMade matlab grids demodulator_api 0 (chars "new" ∷ chars "MMSE" ∷ []) no_outputs (some mmse)
method_new_iff_example =
    method_new_iff matlab grids demodulator_api 0 (chars "new" ∷ chars "MMSE" ∷ []) none (some mmse)
      no_outputs

-- The call that the witness speaks of returns.
new_returns :
    method_new matlab grids demodulator_api 0 (chars "new" ∷ chars "MMSE" ∷ []) none
    ≡ done no_outputs (some mmse)
unfolding method_new create create_pusch_demodulator read_equalizer equalizer_type
new_returns = refl
