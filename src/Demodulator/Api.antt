-- ===== src/Demodulator/Api.antt =====
-- What the PUSCH demodulator MEX function uses of srsRAN: the demodulator and the channel estimates.
use srs_ran_matlab.Prelude.{ℕ, ◌≡◌, ◌≢◌, ◌⊎◌, Bool, List}
use srs_ran_matlab.Convert.{ModulationScheme, DmrsType}
use srs_ran_matlab.Demodulator.Codeword.Deliver.{Delivery}
use srs_ran_matlab.Demodulator.Factory.{DemodulatorFactories}

-- `pusch_demodulator::configuration`, its bitmaps as lists
pub record DemodulatorConfiguration : Type 0 where
  pub rnti : ℕ
  pub rb_mask : List Bool
  pub modulation : ModulationScheme
  pub start_symbol_index : ℕ
  pub nof_symbols : ℕ
  pub dmrs_symb_pos : List Bool
  pub dmrs_config_type : DmrsType
  pub nof_cdm_groups_without_data : ℕ
  pub n_id : ℕ
  pub nof_tx_layers : ℕ
  pub enable_transform_precoding : Bool
  pub rx_ports : List ℕ

-- `channel_estimate_dimensions`
pub record EstimateDimensions : Type 0 where
  pub nof_prb : ℕ
  pub nof_symbols : ℕ
  pub nof_rx_ports : ℕ
  pub nof_tx_layers : ℕ

-- A call that the demodulator makes of the codeword buffer.
pub data BufferCall (Llr : Type 0) : Type 0 where
  delivers : Delivery Llr → BufferCall Llr
  ends : BufferCall Llr

pub record DemodulatorApi (Number Complex Grid Llr : Type 0) : Type 1 where
  pub Demodulator : Type 0
  pub Real : Type 0
  pub factories : DemodulatorFactories Demodulator
  -- `MAX_NSYMB_PER_SLOT`, and the capacity of a `crb_bitmap`
  pub max_nsymb_per_slot : ℕ
  pub max_nof_crbs : ℕ
  pub to_float : Number → Real
  -- `channel_estimate`: a span for each receive port and layer, all of one size
  pub ChannelEstimate : Type 0
  -- `cbf16_t`, and what it keeps of a `std::complex<double>`
  pub Coefficient : Type 0
  pub to_cbf16 : Complex → Coefficient
  pub channel_estimate : EstimateDimensions → ChannelEstimate
  pub path_size : ChannelEstimate → ℕ
  pub get_path_ch_estimate : ChannelEstimate → ℕ → ℕ → List Coefficient
  -- the elements of `get_path_ch_estimate(rx_port, tx_layer)` are overwritten
  pub set_path : ChannelEstimate → ℕ → ℕ → List Coefficient → ChannelEstimate
  pub set_noise_variance : ChannelEstimate → Real → ℕ → ChannelEstimate
  -- the address of the output array, the log-likelihood ratio of a new array, and the calls that
  -- `demodulate` makes of the codeword buffer
  pub out_address : ℕ
  pub zero_llr : Llr
  pub demodulate :
      Demodulator
      → Grid
      → ChannelEstimate
      → DemodulatorConfiguration
      → Demodulator × List (BufferCall Llr)

-- What is documented of the channel estimates: each path is stored by itself.
pub record IsEstimate {Number Complex Grid Llr : Type 0}
    (api : DemodulatorApi Number Complex Grid Llr) : Type 0 where
  pub path_size-set_path :
      (e : api.ChannelEstimate) (p l : ℕ) (xs : List api.Coefficient)
      → api.path_size (api.set_path e p l xs) ≡ api.path_size e
  pub path_size-set_noise_variance :
      (e : api.ChannelEstimate) (x : api.Real) (p : ℕ)
      → api.path_size (api.set_noise_variance e x p) ≡ api.path_size e
  pub get_path-set_path :
      (e : api.ChannelEstimate) (p l : ℕ) (xs : List api.Coefficient)
      → api.get_path_ch_estimate (api.set_path e p l xs) p l ≡ xs
  pub get_path-set_path_ne :
      (e : api.ChannelEstimate) (p l q n : ℕ) (xs : List api.Coefficient)
      → (q ≢ p) ⊎ (n ≢ l)
      → api.get_path_ch_estimate (api.set_path e p l xs) q n ≡ api.get_path_ch_estimate e q n
  pub get_path-set_noise_variance :
      (e : api.ChannelEstimate) (x : api.Real) (p q n : ℕ)
      → api.get_path_ch_estimate (api.set_noise_variance e x p) q n ≡ api.get_path_ch_estimate e q n
