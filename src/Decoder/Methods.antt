-- ===== src/Decoder/Methods.antt =====
-- pusch_decoder_mex.cpp: the state of the MEX object and its methods.
use srs_ran_matlab.Prelude.{ℕ, Bool, true, not, List, [], ◌∷◌, Option, none, some, ◌==◌, replicate}
use srs_ran_matlab.Mex.{Matlab, Result, ok, err, abort, abort_if, null_dereference, num}
use srs_ran_matlab.Mex.{◌>>=◌ as bind}
use srs_ran_matlab.Mex.Call.{Call, done, stop, lift, ◌>>=◌, ◌>>◌}
use srs_ran_matlab.Mex.Dispatcher.{Callbacks, create_callbacks}
use srs_ran_matlab.Memento.{Pointer, nullptr, Storage, find, store, get_memento, release_memento}
use srs_ran_matlab.Decoder.Api.{BufferId, DecoderApi, Runtime}
use srs_ran_matlab.Decoder.Heap.{addresses, pool_at, set_pool, destroy}
use srs_ran_matlab.Decoder.Inputs.{StepInputs, read_step, read_new, read_reset, read_release}

-- `pusch_decoder_notifier_spy`: the last result that it was given.
unfoldable pub on_sch_data {ℓ} : {R : Type ℓ} → Option R → List R → Option R
on_sch_data result [] = result
on_sch_data result (r ∷ results) = on_sch_data (some r) results

module _ (m : Matlab) (api : DecoderApi m.Number) (rt : Runtime) where
  open m use {Array, get_type, get_number_of_elements}
  open api use {Pool, Buffer, Decoder, Mean, DecoderResult}

  -- The members of `MexFunction`, and the objects that its storage points to.
  pub record DecoderMex : Type 0 where
    pub decoder : Decoder
    pub storage : Storage
    pub heap : List (Pointer × Pool)

  -- What a method puts into its outputs.
  pub data Reply : Type 0 where
    no_outputs : Reply
    pool_key : ℕ → Reply
    -- the transport block, and CRCOK, LDPCIterationsMax, LDPCIterationsMean
    decoded : List ℕ → Bool → ℕ → Mean → Reply

  abbrev pub reply : {A : Type 0} → A → Call DecoderMex A
  reply a s = done a s

  -- `std::make_shared<pusch_memento>(pool)`
  unfoldable pub make_shared : Pool → Call DecoderMex Pointer
  make_shared pool s =
      let mem = rt.allocate (addresses s.heap) in
      done mem (record s { heap = (mem, pool) ∷ s.heap })

  abbrev pub stored : Result (ℕ × Storage) → Call DecoderMex ℕ
  stored (ok (key, storage)) s = done key (record s { storage = storage })
  stored (err e) s = stop e s

  -- `storage.store(mem)`
  unfoldable pub store_memento : Pointer → Call DecoderMex ℕ
  store_memento mem s = stored (store rt.hash mem s.storage) s

  abbrev pub or_null : {A : Type 0} → Option A → Call DecoderMex A
  or_null none s = stop null_dereference s
  or_null (some a) s = done a s

  -- the pool of the memento that a shared pointer holds
  unfoldable pub pool_of : Pointer → Call DecoderMex Pool
  pool_of mem s = or_null (pool_at mem s.heap) s

  unfoldable pub put_pool : Pointer → Pool → Call DecoderMex (Unit {0})
  put_pool mem pool s = done tt (record s { heap = set_pool mem pool s.heap })

  -- `pusch_memento::retrieve_softbuffer`
  unfoldable pub memento_retrieve_softbuffer :
      Pointer → BufferId → ℕ → Bool → Call DecoderMex Buffer
  unfolding pool_of put_pool
  memento_retrieve_softbuffer mem id nof_codeblocks is_new_data = do
    pool ← pool_of mem
    let reserved = api.reserve pool id nof_codeblocks is_new_data
    put_pool mem reserved.0
    reply reserved.1

  -- `MexFunction::retrieve_softbuffer`: the buffer, and the memento that it comes from
  unfoldable pub retrieve_softbuffer : ℕ → BufferId → ℕ → Bool → Call DecoderMex (Pointer × Buffer)
  retrieve_softbuffer key id nof_codeblocks is_new_data s =
      let mem = get_memento rt.hash key s.storage in
      let retrieve : Call DecoderMex (Pointer × Buffer) = do
        lift (
            abort_if (mem == nullptr) "Cannot retrieve rx_softbuffer_pool with key {}."
              (num key ∷ []))
        softbuffer ← memento_retrieve_softbuffer mem id nof_codeblocks is_new_data
        lift (
            abort_if (not (api.is_valid softbuffer))
              "Cannot retrieve softbuffer with key {}, buffer ID ({}) and nr. of codeblocks {}."
              (num key ∷ num id.rnti ∷ num id.harq_id ∷ num nof_codeblocks ∷ []))
        reply (mem, softbuffer)
      in retrieve s

  -- `storage.release_memento(key)`: the memento that the erased pointer holds ends with it
  unfoldable pub release_key : ℕ → Call DecoderMex ℕ
  release_key key s =
      let erased = release_memento key s.storage in
      done erased.0 (record s { storage = erased.1; heap = destroy (find key s.storage) s.heap })

  unfoldable pub method_new : ℕ → List Array → Call DecoderMex Reply
  method_new outputs inputs = do
    pool_config ← lift (read_new m outputs inputs)
    mem ← make_shared (api.create_rx_buffer_pool pool_config)
    lift (abort_if (mem == nullptr) "Cannot create PUSCH memento." [])
    key ← store_memento mem
    reply (pool_key key)

  -- The outputs of `method_step` by the result that the notifier was given, if any.
  abbrev pub report : List ℕ → Option DecoderResult → Call DecoderMex Reply
  report out none s = stop (abort "Notifier result has not been reported." []) s
  report out (some r) s = done (decoded out (api.tb_crc_ok r) (api.get_max r) (api.get_mean r)) s

  -- The decoding of one codeword, with the softbuffer that was moved into the decoder.
  unfoldable pub decode : StepInputs m.Number → Pointer → Buffer → Call DecoderMex Reply
  decode step mem softbuffer = do
    pool ← pool_of mem
    λ s.
        let started =
          api.new_data s.decoder pool (replicate step.tbs_bytes 0) softbuffer step.cfg in
        let ended = api.on_end_softbits (api.on_new_softbits started step.llrs) in
        report (api.rx_tb ended) (on_sch_data none (api.notified ended)) (record s {
          decoder = api.decoder_after ended;
          heap = set_pool mem (api.pool_after ended) s.heap;
        })

  unfoldable pub method_step : ℕ → List Array → Call DecoderMex Reply
  method_step outputs inputs = do
    step ← lift (read_step m api outputs inputs)
    retrieved ← retrieve_softbuffer step.key step.buf_id step.nof_codeblocks step.cfg.new_data
    decode step retrieved.0 retrieved.1

  -- `rm_buffer.get().reset_codeblocks_crc()`, and the end of `rm_buffer`
  unfoldable pub reset_buffer : Pointer × Buffer → Call DecoderMex Reply
  reset_buffer (mem, rm_buffer) = do
    pool ← pool_of mem
    put_pool mem (api.unlock (api.reset_codeblocks_crc pool rm_buffer) rm_buffer)
    reply no_outputs

  unfoldable pub method_reset_crcs : ℕ → List Array → Call DecoderMex Reply
  method_reset_crcs outputs inputs = do
    read ← lift (read_reset m outputs inputs)
    retrieved ← retrieve_softbuffer read.0 read.1 read.2 true
    reset_buffer retrieved

  unfoldable pub method_release : ℕ → List Array → Call DecoderMex Reply
  method_release outputs inputs = do
    key ← lift (read_release m outputs inputs)
    released ← release_key key
    lift (
        abort_if (released == 0)
          "Something wrong, there was no softbuffer pool with softbufferPoolID {}." (num key ∷ []))
    reply no_outputs

  abbrev pub callback_table : Callbacks Array DecoderMex Reply
  callback_table =
      ("new", method_new)
      ∷ ("step", method_step)
      ∷ ("reset_crcs", method_reset_crcs)
      ∷ ("release", method_release)
      ∷ []

  -- The constructor: the object and its callbacks. The argument is what `create_pusch_decoder` made,
  -- with `none` for a null pointer.
  unfoldable pub construct : Option Decoder → Result (DecoderMex × Callbacks Array DecoderMex Reply)
  construct none = err (abort "Cannot create srsRAN PUSCH decoder." [])
  construct (some decoder) =
      bind (create_callbacks callback_table [])
        (λ callbacks. ok (record { decoder = decoder; storage = []; heap = [] }, callbacks))
