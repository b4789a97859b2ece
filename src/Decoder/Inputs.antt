-- ===== src/Decoder/Inputs.antt =====
-- pusch_decoder_mex.cpp: the checks of the inputs and what is read from them.
use srs_ran_matlab.Prelude.{ℕ, true, not, ◌||◌, List, [], ◌∷◌, ◌==◌, length}
use srs_ran_matlab.Mex.{
  Matlab, logical, uint64, int8, struct, is_type, not_scalar, input, unsigned_field, text_field,
  Result, ok, abort_if, num, ◌>>=◌, ◌>>◌,
}
use srs_ran_matlab.Convert.{matlab_to_srs_base_graph, matlab_to_srs_modulation}
use srs_ran_matlab.Decoder.Api.{PoolConfig, BufferId, Configuration, DecoderApi}

-- What `method_step` passes on.
pub record StepInputs (Llr : Type 0) : Type 0 where
  pub llrs : List Llr
  pub cfg : Configuration
  pub tbs_bytes : ℕ
  pub buf_id : BufferId
  pub nof_codeblocks : ℕ
  pub key : ℕ

module _ (m : Matlab) where
  open m use {Array, Number, get_type, get_number_of_elements, element}

  unfoldable pub check_step_outputs_inputs : ℕ → List Array → Result (Unit {0})
  check_step_outputs_inputs outputs inputs = do
    abort_if (not (length inputs == 6)) "Wrong number of inputs." []
    pool_id ← input m inputs 1
    abort_if (not_scalar m uint64 pool_id) "Input 'softbufferPoolID' should be a scalar uint64_t" []
    llrs ← input m inputs 2
    abort_if (not (is_type (get_type llrs) int8)) "Input 'llrs' must be an array of int8_t." []
    new_data ← input m inputs 3
    abort_if (not_scalar m logical new_data) "Input 'new_data' must be a scalar logical." []
    seg_cfg ← input m inputs 4
    abort_if (not_scalar m struct seg_cfg) "Input 'seg_cfg' must be a scalar structure." []
    buf_id ← input m inputs 5
    abort_if (not_scalar m struct buf_id) "Input 'buf_id' must be a scalar structure." []
    abort_if (not (outputs == 2)) "Wrong number of outputs." []

  -- `rx_buffer_pool_config` from the second input of `method_new`
  unfoldable pub read_pool_config : Array → Result PoolConfig
  read_pool_config in_struct = do
    max_codeblock_size ← unsigned_field m in_struct "MaxCodeblockSize"
    nof_buffers ← unsigned_field m in_struct "MaxSoftbuffers"
    nof_codeblocks ← unsigned_field m in_struct "MaxCodeblocks"
    expire_timeout_slots ← unsigned_field m in_struct "ExpireTimeoutSlots"
    ok (record {
      max_codeblock_size = max_codeblock_size;
      nof_buffers = nof_buffers;
      nof_codeblocks = nof_codeblocks;
      expire_timeout_slots = expire_timeout_slots;
    })

  -- `method_new` up to the creation of the pool
  unfoldable pub read_new : ℕ → List Array → Result PoolConfig
  read_new outputs inputs = do
    abort_if (not (outputs == 1)) "Only one output expected." []
    in_struct ← input m inputs 1
    abort_if
        (not (is_type (get_type in_struct) struct) || not (get_number_of_elements in_struct == 1))
        "Second input must be a scalar structure." []
    read_pool_config in_struct

  -- `static_cast<TypedArray<uint64_t>>(a)[0]`
  unfoldable pub read_key : Array → Result ℕ
  read_key a = do number ← element a 0; ok (m.as_uint64 number)

  unfoldable pub read_buffer_id : Array → Result BufferId
  read_buffer_id in_buf_id = do
    rnti ← unsigned_field m in_buf_id "RNTI"
    harq_id ← unsigned_field m in_buf_id "HARQProcessID"
    ok (record { rnti = rnti; harq_id = harq_id })

  unfoldable pub read_configuration : Array → Array → Result Configuration
  read_configuration in_seg_cfg in_new_data = do
    bgn ← unsigned_field m in_seg_cfg "BGN"
    base_graph ← matlab_to_srs_base_graph bgn
    modulation ← text_field m in_seg_cfg "Modulation"
    mod_scheme ← matlab_to_srs_modulation modulation
    nof_layers ← unsigned_field m in_seg_cfg "NumLayers"
    rv ← unsigned_field m in_seg_cfg "RV"
    nref ← unsigned_field m in_seg_cfg "LimitedBufferSize"
    new_data ← element in_new_data 0
    nof_ldpc_iterations ← unsigned_field m in_seg_cfg "MaximumLDPCIterationCount"
    ok (record {
      base_graph = base_graph;
      mod_scheme = mod_scheme;
      nof_layers = nof_layers;
      rv = rv;
      nref = nref;
      new_data = m.as_bool new_data;
      use_early_stop = true;
      nof_ldpc_iterations = nof_ldpc_iterations;
    })

  -- `method_reset_crcs` up to its call of `retrieve_softbuffer`: the key, the buffer and its number of
  -- codeblocks
  unfoldable pub read_reset : ℕ → List Array → Result (ℕ × BufferId × ℕ)
  read_reset outputs inputs = do
    abort_if (not (outputs == 0)) "No outputs expected." []
    abort_if (not (length inputs == 3)) "Wrong number of inputs." []
    pool_id ← input m inputs 1
    abort_if (not_scalar m uint64 pool_id) "Input softbufferPoolID should be a scalar uint64_t" []
    in_buf_id ← input m inputs 2
    abort_if (not_scalar m struct in_buf_id) "Input 'buf_id' must be a scalar structure." []
    buf_id ← read_buffer_id in_buf_id
    nof_codeblocks ← unsigned_field m in_buf_id "NumCodeblocks"
    key ← read_key pool_id
    ok (key, buf_id, nof_codeblocks)

  -- `method_release` up to the release: the key
  unfoldable pub read_release : ℕ → List Array → Result ℕ
  read_release outputs inputs = do
    abort_if (not (outputs == 0)) "No outputs expected." []
    abort_if (not (length inputs == 2)) "Wrong number of inputs." []
    pool_id ← input m inputs 1
    abort_if (not_scalar m uint64 pool_id) "Input softbufferPoolID should be a scalar uint64_t" []
    read_key pool_id

  module _ (api : DecoderApi Number) where
    -- `method_step` from its checks up to the call of `retrieve_softbuffer`
    unfoldable pub read_step : ℕ → List Array → Result (StepInputs Number)
    read_step outputs inputs = do
      check_step_outputs_inputs outputs inputs
      in_int8_array ← input m inputs 2
      llrs ← m.elements in_int8_array
      in_seg_cfg ← input m inputs 4
      in_new_data ← input m inputs 3
      cfg ← read_configuration in_seg_cfg in_new_data
      tbs ← unsigned_field m in_seg_cfg "TransportBlockLength"
      abort_if (not (api.is_byte_exact tbs)) "The TBS is not an exact number of bytes." []
      in_buf_id ← input m inputs 5
      buf_id ← read_buffer_id in_buf_id
      nof_codeblocks ← unsigned_field m in_buf_id "NumCodeblocks"
      let nof_codeblocks_check = api.compute_nof_codeblocks tbs cfg.base_graph
      abort_if (not (nof_codeblocks == nof_codeblocks_check))
          "Softbuffer ({}) requested with {} codeblocks, but the codeword has {} codeblocks."
          (num buf_id.rnti
            ∷ num buf_id.harq_id
            ∷ num nof_codeblocks
            ∷ num nof_codeblocks_check
            ∷ [])
      in_key ← input m inputs 1
      key ← read_key in_key
      ok (record {
        llrs = llrs;
        cfg = cfg;
        tbs_bytes = api.round_up_to_bytes tbs;
        buf_id = buf_id;
        nof_codeblocks = nof_codeblocks;
        key = key;
      })
