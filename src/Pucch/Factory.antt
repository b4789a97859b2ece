-- ===== src/Pucch/Factory.antt =====
-- pucch_processor_mex.h: `create_pucch_processor`, and the load of the MEX object that it is a part of.
-- The factories are srsRAN's, each a shared pointer that may be null.
use srs_ran_matlab.Prelude.{ℕ, ◌+◌, String, Bool, true, false, Option, none, some}
use srs_ran_matlab.Mex.{Matlab, Result, ok, dereference, ◌>>=◌}
use srs_ran_matlab.Mex.Dispatcher.{Callbacks}
use srs_ran_matlab.Grid.{GridApi}
use srs_ran_matlab.Demodulator.Factory.{EqualizerType, zf}
use srs_ran_matlab.Pucch.Api.{PucchApi}
use srs_ran_matlab.Pucch.Processor.{Output}
use srs_ran_matlab.Pucch.Step.{construct}

-- `channel_estimate::channel_estimate_dimensions`
pub record ProcessorDimensions : Type 0 where
  pub nof_tx_layers : ℕ
  pub nof_rx_ports : ℕ
  pub nof_symbols : ℕ
  pub nof_prb : ℕ

pub record PucchFactories (Processor Validator : Type 0) : Type 1 where
  pub PrgFactory : Type 0
  pub LowPaprFactory : Type 0
  pub LowPaprCollectionFactory : Type 0
  pub DftFactory : Type 0
  pub TimeAlignmentFactory : Type 0
  pub PortEstimatorFactory : Type 0
  pub DmrsFactory : Type 0
  pub TransformPrecoderFactory : Type 0
  pub EqualizerFactory : Type 0
  pub DetectorFactory : Type 0
  pub MapperFactory : Type 0
  pub DemodulatorFactory : Type 0
  pub ShortBlockFactory : Type 0
  pub PolarFactory : Type 0
  pub CrcFactory : Type 0
  pub UciDecoderFactory : Type 0
  pub ProcessorFactory : Type 0
  pub format3_max_nprb : ℕ
  pub max_nsymb_per_slot : ℕ
  pub max_rb : ℕ
  pub create_pseudo_random_generator_sw_factory : Option PrgFactory
  pub create_low_papr_sequence_generator_sw_factory : Option LowPaprFactory
  pub create_low_papr_sequence_collection_sw_factory :
      Option LowPaprFactory → Option LowPaprCollectionFactory
  pub create_dft_processor_factory_fftw_slow : Option DftFactory
  pub create_time_alignment_estimator_dft_factory : Option DftFactory → Option TimeAlignmentFactory
  pub create_port_channel_estimator_factory_sw :
      Option TimeAlignmentFactory → Option PortEstimatorFactory
  pub create_dmrs_pucch_estimator_factory_sw :
      Option PrgFactory
      → Option LowPaprCollectionFactory
      → Option LowPaprFactory
      → Option PortEstimatorFactory
      → Option DmrsFactory
  pub create_dft_transform_precoder_factory :
      Option DftFactory → ℕ → Option TransformPrecoderFactory
  pub create_channel_equalizer_generic_factory : EqualizerType → Option EqualizerFactory
  pub create_pucch_detector_factory_sw :
      Option LowPaprCollectionFactory
      → Option PrgFactory
      → Option EqualizerFactory
      → Option DftFactory
      → Option DetectorFactory
  pub create_demodulation_mapper_factory : Option MapperFactory
  pub create_pucch_demodulator_factory_sw :
      Option EqualizerFactory
      → Option MapperFactory
      → Option PrgFactory
      → Option TransformPrecoderFactory
      → Option DemodulatorFactory
  pub create_short_block_detector_factory_sw : Option ShortBlockFactory
  pub create_polar_factory_sw : Option PolarFactory
  pub create_crc_calculator_factory_sw : String → Option CrcFactory
  pub create_uci_decoder_factory_generic :
      Option ShortBlockFactory → Option PolarFactory → Option CrcFactory → Option UciDecoderFactory
  pub create_pucch_processor_factory_sw :
      Option DmrsFactory
      → Option DetectorFactory
      → Option DemodulatorFactory
      → Option UciDecoderFactory
      → ProcessorDimensions
      → Option ProcessorFactory
  pub create : ProcessorFactory → Option Processor
  pub create_validator : ProcessorFactory → Option Validator

module _ {Processor Validator : Type 0} (fs : PucchFactories Processor Validator) where
  abbrev pub channel_estimate_dimensions : ProcessorDimensions
  channel_estimate_dimensions = record {
    nof_tx_layers = 1;
    nof_rx_ports = 4;
    nof_symbols = fs.max_nsymb_per_slot;
    nof_prb = fs.max_rb;
  }

  -- `processor_factory`, from all the factories that it is made of
  unfoldable pub create_processor_factory : Option fs.ProcessorFactory
  create_processor_factory =
      let prg_factory = fs.create_pseudo_random_generator_sw_factory in
      let lpapr_generator_factory = fs.create_low_papr_sequence_generator_sw_factory in
      let lpapr_collection_factory =
        fs.create_low_papr_sequence_collection_sw_factory lpapr_generator_factory in
      let dft_factory = fs.create_dft_processor_factory_fftw_slow in
      let ta_est_factory = fs.create_time_alignment_estimator_dft_factory dft_factory in
      let estimator_factory = fs.create_port_channel_estimator_factory_sw ta_est_factory in
      let dmrs_factory =
        fs.create_dmrs_pucch_estimator_factory_sw prg_factory lpapr_collection_factory
          lpapr_generator_factory estimator_factory in
      let precoding_factory =
        fs.create_dft_transform_precoder_factory dft_factory (fs.format3_max_nprb + 1) in
      let equalizer_factory = fs.create_channel_equalizer_generic_factory zf in
      let detector_factory =
        fs.create_pucch_detector_factory_sw lpapr_collection_factory prg_factory equalizer_factory
          dft_factory in
      let demodulation_factory = fs.create_demodulation_mapper_factory in
      let demodulator_factory =
        fs.create_pucch_demodulator_factory_sw equalizer_factory demodulation_factory prg_factory
          precoding_factory in
      let short_block_dec_factory = fs.create_short_block_detector_factory_sw in
      let polar_dec_factory = fs.create_polar_factory_sw in
      let crc_calc_factory = fs.create_crc_calculator_factory_sw "auto" in
      let uci_dec_factory =
        fs.create_uci_decoder_factory_generic short_block_dec_factory polar_dec_factory
          crc_calc_factory in
      fs.create_pucch_processor_factory_sw dmrs_factory detector_factory demodulator_factory
        uci_dec_factory channel_estimate_dimensions

  unfoldable pub create_pucch_processor : Result (Option Processor × Option Validator)
  unfolding create_processor_factory
  create_pucch_processor = do
    processor_factory ← dereference create_processor_factory
    ok (fs.create processor_factory, fs.create_validator processor_factory)

abbrev pub is_made : {A : Type 0} → Option A → Bool
is_made none = false
is_made (some object) = true

module _ (m : Matlab) (grids : GridApi m.Complex) (api : PucchApi grids.Grid)
    {Processor Validator : Type 0} (fs : PucchFactories Processor Validator) where
  -- The constructor, from `std::tie(processor, validator) = create_pucch_processor()` on
  unfoldable pub load : Result (Callbacks m.Array (Unit {0}) Output)
  unfolding create_pucch_processor
  load = do
    created ← create_pucch_processor fs
    construct m grids api (is_made created.0) (is_made created.1)
