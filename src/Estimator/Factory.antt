-- ===== src/Estimator/Factory.antt =====
-- multiport_channel_estimator_mex.h: `create_port_channel_estimator`. The factories are srsRAN's, each
-- a shared pointer that may be null.
use srs_ran_matlab.Prelude.{Bool, Option}
use srs_ran_matlab.Mex.{Result, ok, dereference, ◌>>=◌}

-- `port_channel_estimator_fd_smoothing_strategy`
pub data FdSmoothing : Type 0 where
  none_strategy filter mean : FdSmoothing

-- `port_channel_estimator_td_interpolation_strategy`
pub data TdInterpolation : Type 0 where
  average interpolate : TdInterpolation

pub record EstimatorFactories (Estimator : Type 0) : Type 1 where
  pub DftFactory : Type 0
  pub TimeAlignmentFactory : Type 0
  pub PortEstimatorFactory : Type 0
  pub create_dft_processor_factory_fftw_slow : Option DftFactory
  pub create_time_alignment_estimator_dft_factory : Option DftFactory → Option TimeAlignmentFactory
  pub create_port_channel_estimator_factory_sw :
      Option TimeAlignmentFactory → Option PortEstimatorFactory
  pub create : PortEstimatorFactory → FdSmoothing → TdInterpolation → Bool → Option Estimator

module _ {Estimator : Type 0} (fs : EstimatorFactories Estimator) where
  unfoldable pub create_port_channel_estimator :
      FdSmoothing → TdInterpolation → Bool → Result (Option Estimator)
  create_port_channel_estimator fd_smoothing td_interpolation compensate_cfo = do
    let dft_factory = fs.create_dft_processor_factory_fftw_slow
    let ta_est_factory = fs.create_time_alignment_estimator_dft_factory dft_factory
    estimator_factory ← dereference (fs.create_port_channel_estimator_factory_sw ta_est_factory)
    ok (fs.create estimator_factory fd_smoothing td_interpolation compensate_cfo)
