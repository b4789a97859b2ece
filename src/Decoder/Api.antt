-- ===== src/Decoder/Api.antt =====
-- What the PUSCH decoder MEX function uses of srsRAN: the rx buffer pool, the decoder with its
-- notifier, and two computations on sizes. They are not part of the repository.
use srs_ran_matlab.Prelude.{ℕ, ◌≡◌, ◌≢◌, Bool, List, [], ◌∷◌}
use srs_ran_matlab.Convert.{ModulationScheme, BaseGraph}
use srs_ran_matlab.Memento.{Pointer, nullptr}

-- `rx_buffer_pool_config`
pub record PoolConfig : Type 0 where
  pub max_codeblock_size : ℕ
  pub nof_buffers : ℕ
  pub nof_codeblocks : ℕ
  pub expire_timeout_slots : ℕ

-- `trx_buffer_identifier`
pub record BufferId : Type 0 where
  pub rnti : ℕ
  pub harq_id : ℕ

-- `pusch_decoder::configuration`
pub record Configuration : Type 0 where
  pub base_graph : BaseGraph
  pub mod_scheme : ModulationScheme
  pub nof_layers : ℕ
  pub rv : ℕ
  pub nref : ℕ
  pub new_data : Bool
  pub use_early_stop : Bool
  pub nof_ldpc_iterations : ℕ

pub record DecoderApi (Llr : Type 0) : Type 1 where
  -- `rx_buffer_pool_controller`, `unique_rx_buffer`, `pusch_decoder`, and a codeword in progress
  pub Pool : Type 0
  pub Buffer : Type 0
  pub Decoder : Type 0
  pub Session : Type 0
  -- `pusch_decoder_result`
  pub DecoderResult : Type 0
  pub Mean : Type 0
  pub tb_crc_ok : DecoderResult → Bool
  pub get_max : DecoderResult → ℕ
  pub get_mean : DecoderResult → Mean
  pub create_rx_buffer_pool : PoolConfig → Pool
  -- `get_pool().reserve({}, id, nof_codeblocks, is_new_data)`
  pub reserve : Pool → BufferId → ℕ → Bool → Pool × Buffer
  pub is_valid : Buffer → Bool
  pub reset_codeblocks_crc : Pool → Buffer → Pool
  -- the destructor of a buffer, which gives it back to its pool
  pub unlock : Pool → Buffer → Pool
  -- `decoder->new_data(rx_tb, buffer, notifier, cfg)` and the calls that follow it
  pub new_data : Decoder → Pool → List ℕ → Buffer → Configuration → Session
  pub on_new_softbits : Session → List Llr → Session
  pub on_end_softbits : Session → Session
  -- what a codeword leaves: the results given to the notifier in their order, the transport block,
  -- the pool and the decoder
  pub notified : Session → List DecoderResult
  pub rx_tb : Session → List ℕ
  pub pool_after : Session → Pool
  pub decoder_after : Session → Decoder
  -- `ldpc::compute_nof_codeblocks`, `units::bits`
  pub compute_nof_codeblocks : ℕ → BaseGraph → ℕ
  pub is_byte_exact : ℕ → Bool
  pub round_up_to_bytes : ℕ → ℕ

-- The C++ run time: `std::hash` of a shared pointer, and the address at which `std::make_shared` puts
-- an object, given those in use.
pub record Runtime : Type 0 where
  pub hash : Pointer → ℕ
  pub allocate : List Pointer → Pointer

abbrev pub IsFresh : Pointer → List Pointer → Type 0
IsFresh a [] = Unit {0}
IsFresh a (b ∷ live) = (b ≢ a) × IsFresh a live

-- A pointer is hashed by its address, and two live objects have different addresses.
pub record IsRuntime (rt : Runtime) : Type 0 where
  pub hash_injective : (a b : Pointer) → rt.hash a ≡ rt.hash b → a ≡ b
  pub allocate-ne-null : (live : List Pointer) → rt.allocate live ≢ nullptr
  pub allocate-IsFresh : (live : List Pointer) → IsFresh (rt.allocate live) live
