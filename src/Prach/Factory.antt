-- ===== src/Prach/Factory.antt =====
-- prach_detector_mex.h: `create_prach_detector` and `create_prach_validator`, and the load of the MEX
-- object that they are a part of. The factories are srsRAN's, each a shared pointer that may be null.
use srs_ran_matlab.Prelude.{Option}
use srs_ran_matlab.Mex.{Matlab, Result, ok, dereference, ◌>>=◌}
use srs_ran_matlab.Mex.Dispatcher.{Callbacks}
use srs_ran_matlab.Prach.Api.{PrachApi}
use srs_ran_matlab.Prach.Step.{PrachMex, PreambleIndication, construct}

pub record PrachFactories (Detector Validator : Type 0) : Type 1 where
  pub DftFactory : Type 0
  pub GeneratorFactory : Type 0
  pub DetectorFactory : Type 0
  pub create_dft_processor_factory_generic : Option DftFactory
  pub create_prach_generator_factory_sw : Option GeneratorFactory
  pub create_prach_detector_factory_sw :
      Option DftFactory → Option GeneratorFactory → Option DetectorFactory
  pub create : DetectorFactory → Option Detector
  pub create_validator : DetectorFactory → Option Validator

module _ {Detector Validator : Type 0} (fs : PrachFactories Detector Validator) where
  unfoldable pub create_prach_detector : Result (Option Detector)
  create_prach_detector = do
    let dft_factory = fs.create_dft_processor_factory_generic
    let generator_factory = fs.create_prach_generator_factory_sw
    detector_factory ←
        dereference (fs.create_prach_detector_factory_sw dft_factory generator_factory)
    ok (fs.create detector_factory)

  unfoldable pub create_prach_validator : Result (Option Validator)
  create_prach_validator = do
    let dft_factory = fs.create_dft_processor_factory_generic
    let generator_factory = fs.create_prach_generator_factory_sw
    detector_factory ←
        dereference (fs.create_prach_detector_factory_sw dft_factory generator_factory)
    ok (fs.create_validator detector_factory)

module _ (m : Matlab) (api : PrachApi m.Number m.Complex)
    (fs : PrachFactories api.Detector api.Validator) where
  -- `MexFunction` from the initialisers of its members on
  unfoldable pub load :
      Result (PrachMex m api × Callbacks m.Array (PrachMex m api) (PreambleIndication api.Real))
  unfolding create_prach_detector create_prach_validator
  load = do
    detector ← create_prach_detector fs
    validator ← create_prach_validator fs
    construct m api detector validator
