-- ===== src/Demodulator/Factory.antt =====
-- pusch_demodulator_mex.h: `create_pusch_demodulator`. The factories are srsRAN's, each a shared
-- pointer that may be null.
use srs_ran_matlab.Prelude.{ℕ, Option, none}
use srs_ran_matlab.Mex.{Result, ok, dereference, ◌>>=◌}

-- `channel_equalizer_algorithm_type`
pub data EqualizerType : Type 0 where
  zf mmse : EqualizerType

pub record DemodulatorFactories (Demodulator : Type 0) : Type 1 where
  pub DftFactory : Type 0
  pub TransformPrecoderFactory : Type 0
  pub EqualizerFactory : Type 0
  pub MapperFactory : Type 0
  pub EvmFactory : Type 0
  pub PrgFactory : Type 0
  pub PuschDemodulatorFactory : Type 0
  pub max_rb : ℕ
  pub create_dft_processor_factory_fftw_slow : Option DftFactory
  pub create_dft_transform_precoder_factory :
      Option DftFactory → ℕ → Option TransformPrecoderFactory
  pub create_channel_equalizer_generic_factory : EqualizerType → Option EqualizerFactory
  pub create_demodulation_mapper_factory : Option MapperFactory
  pub create_pseudo_random_generator_sw_factory : Option PrgFactory
  pub create_pusch_demodulator_factory_sw :
      Option EqualizerFactory
      → Option TransformPrecoderFactory
      → Option MapperFactory
      → Option EvmFactory
      → Option PrgFactory
      → ℕ
      → Option PuschDemodulatorFactory
  pub create : PuschDemodulatorFactory → Option Demodulator

module _ {Demodulator : Type 0} (fs : DemodulatorFactories Demodulator) where
  open fs use {
    max_rb, create_dft_processor_factory_fftw_slow, create_dft_transform_precoder_factory,
    create_channel_equalizer_generic_factory, create_demodulation_mapper_factory,
    create_pseudo_random_generator_sw_factory, create_pusch_demodulator_factory_sw,
  }

  unfoldable pub create_pusch_demodulator : EqualizerType → Result (Option Demodulator)
  create_pusch_demodulator eq_type = do
    let dft_proc_factory = create_dft_processor_factory_fftw_slow
    let transform_precod_factory = create_dft_transform_precoder_factory dft_proc_factory max_rb
    let equalizer_factory = create_channel_equalizer_generic_factory eq_type
    let demod_factory = create_demodulation_mapper_factory
    let prg_factory = create_pseudo_random_generator_sw_factory
    pusch_demod_factory ← dereference (
        create_pusch_demodulator_factory_sw equalizer_factory transform_precod_factory demod_factory
          none prg_factory max_rb)
    ok (fs.create pusch_demod_factory)
