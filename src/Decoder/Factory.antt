-- ===== src/Decoder/Factory.antt =====
-- pusch_decoder_mex.h: `create_pusch_decoder`, and the load of the MEX object that it is a part of. The
-- factories are srsRAN's, each a shared pointer that may be null.
use srs_ran_matlab.Prelude.{ℕ, String, Option}
use srs_ran_matlab.Mex.{Matlab, Result, ok, dereference, ◌>>=◌}
use srs_ran_matlab.Mex.Dispatcher.{Callbacks}
use srs_ran_matlab.Decoder.Api.{DecoderApi, Runtime}
use srs_ran_matlab.Decoder.Methods.{DecoderMex, Reply, construct}

-- `pusch_decoder_factory_sw_configuration`
pub record FactoryConfiguration (Crc LdpcDecoder Dematcher Segmenter : Type 0) : Type 0 where
  pub crc_factory : Option Crc
  pub decoder_factory : Option LdpcDecoder
  pub dematcher_factory : Option Dematcher
  pub segmenter_factory : Option Segmenter
  pub nof_prb : ℕ
  pub nof_layers : ℕ

pub record DecoderFactories (Decoder : Type 0) : Type 1 where
  pub CrcFactory : Type 0
  pub LdpcDecoderFactory : Type 0
  pub DematcherFactory : Type 0
  pub SegmenterFactory : Type 0
  pub PuschDecoderFactory : Type 0
  pub create_crc_calculator_factory_sw : String → Option CrcFactory
  pub create_ldpc_decoder_factory_sw : String → Option LdpcDecoderFactory
  pub create_ldpc_rate_dematcher_factory_sw : String → Option DematcherFactory
  pub create_ldpc_segmenter_rx_factory_sw : Option SegmenterFactory
  pub max_rb : ℕ
  pub max_nof_layers : ℕ
  pub create_pusch_decoder_factory_sw :
      FactoryConfiguration CrcFactory LdpcDecoderFactory DematcherFactory SegmenterFactory
      → Option PuschDecoderFactory
  pub create : PuschDecoderFactory → Option Decoder

module _ {Decoder : Type 0} (fs : DecoderFactories Decoder) where
  unfoldable pub factory_configuration :
      FactoryConfiguration fs.CrcFactory fs.LdpcDecoderFactory fs.DematcherFactory
        fs.SegmenterFactory
  factory_configuration = record {
    crc_factory = fs.create_crc_calculator_factory_sw "auto";
    decoder_factory = fs.create_ldpc_decoder_factory_sw "auto";
    dematcher_factory = fs.create_ldpc_rate_dematcher_factory_sw "auto";
    segmenter_factory = fs.create_ldpc_segmenter_rx_factory_sw;
    nof_prb = fs.max_rb;
    nof_layers = fs.max_nof_layers;
  }

  unfoldable pub create_pusch_decoder : Result (Option Decoder)
  unfolding factory_configuration
  create_pusch_decoder = do
    pusch_decoder_factory ← dereference (fs.create_pusch_decoder_factory_sw factory_configuration)
    ok (fs.create pusch_decoder_factory)

module _ (m : Matlab) (api : DecoderApi m.Number) (rt : Runtime)
    (fs : DecoderFactories api.Decoder) where
  -- `MexFunction` from the initialiser of its member `decoder` on
  unfoldable pub load :
      Result (DecoderMex m api rt × Callbacks m.Array (DecoderMex m api rt) (Reply m api rt))
  unfolding create_pusch_decoder
  load = do decoder ← create_pusch_decoder fs; construct m api rt decoder
