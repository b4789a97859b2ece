-- ===== src/Estimator/Api.antt =====
-- What the channel estimator MEX function uses of srsRAN, and of floating point numbers.
use srs_ran_matlab.Prelude.{ℕ, ◌*◌, ◌<◌, ◌≡◌, ◌≢◌, Bool, List, Option, length}
use srs_ran_matlab.Mex.{Result}
use srs_ran_matlab.Convert.{CyclicPrefix, SubcarrierSpacing}
use srs_ran_matlab.Estimator.Factory.{EstimatorFactories}

-- `port_channel_estimator::layer_dmrs_pattern`, its bitmaps as lists
pub record LayerDmrsPattern : Type 0 where
  pub symbols : List Bool
  pub rb_mask : List Bool
  pub hopping_symbol_index : Option ℕ
  pub rb_mask2 : List Bool
  pub re_pattern : List Bool

-- `port_channel_estimator::configuration`
pub record EstimatorConfiguration (Float : Type 0) : Type 0 where
  pub cp : CyclicPrefix
  pub scs : SubcarrierSpacing
  pub first_symbol : ℕ
  pub nof_symbols : ℕ
  pub dmrs_pattern : List LayerDmrsPattern
  pub scaling : Float
  pub rx_ports : List ℕ

-- `re_measurement_dimensions`
pub record PilotDimensions : Type 0 where
  pub nof_subc : ℕ
  pub nof_symbols : ℕ
  pub nof_slices : ℕ

-- `channel_estimate_dimensions`
pub record EstimateDimensions : Type 0 where
  pub nof_prb : ℕ
  pub nof_symbols : ℕ
  pub nof_rx_ports : ℕ
  pub nof_tx_layers : ℕ

pub record EstimatorApi (Number Complex Grid : Type 0) : Type 1 where
  -- `float` and `double`
  pub Float : Type 0
  pub Double : Type 0
  -- `MAX_NSYMB_PER_SLOT`, and the capacity of a `crb_bitmap`
  pub max_nsymb_per_slot : ℕ
  pub max_nof_crbs : ℕ
  -- what `dmrs_pattern[0]` is where there are no layers
  pub pattern_of_none : Result LayerDmrsPattern
  pub to_float : Number → Float
  pub to_double : Float → Double
  pub float_zero : Float
  pub float_add : Float → Float → Float
  pub float_divide : Float → ℕ → Float
  pub double_zero : Double
  pub double_add : Double → Double → Double
  pub double_divide : Double → ℕ → Double
  pub nan : Double
  pub is_nan : Double → Bool
  -- `port_channel_estimator`
  pub Estimator : Type 0
  pub factories : EstimatorFactories Estimator
  -- `dmrs_symbol_list`: a slice for each layer
  pub Pilots : Type 0
  pub dmrs_symbol_list : PilotDimensions → Pilots
  pub set_slice : Pilots → List Complex → ℕ → Pilots
  pub get_slice : Pilots → ℕ → List Complex
  -- `channel_estimate`; the elements of a path as `srsvec::convert` makes them single precision
  pub ChannelEstimate : Type 0
  pub channel_estimate : EstimateDimensions → ChannelEstimate
  pub get_path_ch_estimate : ChannelEstimate → ℕ → ℕ → List Complex
  pub get_noise_variance : ChannelEstimate → ℕ → Float
  pub get_rsrp : ChannelEstimate → ℕ → Float
  pub get_epre : ChannelEstimate → ℕ → Float
  pub get_snr : ChannelEstimate → ℕ → Float
  pub get_time_alignment : ChannelEstimate → ℕ → Double
  pub get_cfo_hz : ChannelEstimate → ℕ → Option Float
  -- `estimator->compute(ch_estimate, reader, port, pilots, cfg)`
  pub compute :
      Estimator
      → ChannelEstimate
      → Grid
      → ℕ
      → Pilots
      → EstimatorConfiguration Float
      → Estimator × ChannelEstimate
  -- an element of a new array
  pub zero_complex : Complex

-- What is documented of the channel estimates: a path of a receive port and a layer has an element for
-- each subcarrier of each symbol, and the estimator keeps its size.
pub record IsSized {Number Complex Grid : Type 0} (api : EstimatorApi Number Complex Grid)
    : Type 0 where
  pub path-channel_estimate :
      (dims : EstimateDimensions) (p l : ℕ)
      → p < dims.nof_rx_ports
      → l < dims.nof_tx_layers
      → length (api.get_path_ch_estimate (api.channel_estimate dims) p l)
        ≡ dims.nof_prb * 12 * dims.nof_symbols
  pub path-compute :
      (estimator : api.Estimator) (e : api.ChannelEstimate) (grid : Grid) (port : ℕ)
      (pilots : api.Pilots) (cfg : EstimatorConfiguration api.Float) (p l : ℕ)
      → length (api.get_path_ch_estimate (api.compute estimator e grid port pilots cfg).1 p l)
        ≡ length (api.get_path_ch_estimate e p l)

-- What is documented of the pilots: each slice is stored by itself.
pub record IsPilots {Number Complex Grid : Type 0} (api : EstimatorApi Number Complex Grid)
    : Type 0 where
  pub get_slice-set_slice :
      (ps : api.Pilots) (xs : List Complex) (l : ℕ) → api.get_slice (api.set_slice ps xs l) l ≡ xs
  pub get_slice-set_slice_ne :
      (ps : api.Pilots) (xs : List Complex) (l n : ℕ)
      → n ≢ l
      → api.get_slice (api.set_slice ps xs l) n ≡ api.get_slice ps n
