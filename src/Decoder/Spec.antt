-- ===== src/Decoder/Spec.antt =====
-- What the PUSCH decoder MEX function promises: a decoder and a table from keys to softbuffer pools,
-- with no pointers, hashes or storage. `update` changes the table at one key.
use srs_ran_matlab.Prelude.{
  ℕ, Bool, true, false, List, [], ◌∷◌, Option, none, some, ◌==◌, if◌then◌else◌, replicate,
}
use srs_ran_matlab.Mex.{Matlab, abort, num}
use srs_ran_matlab.Mex.Call.{Call, Outcome, done, stop, lift, ◌>>=◌}
use srs_ran_matlab.Decoder.Api.{BufferId, DecoderApi, Runtime}
use srs_ran_matlab.Decoder.Inputs.{StepInputs, read_step, read_new, read_reset, read_release}
use srs_ran_matlab.Decoder.Methods.{DecoderMex, Reply, no_outputs, pool_key, decoded, on_sch_data}
use srs_ran_matlab.Decoder.Pools.{pool_at_key}

abbrev pub update {ℓ} : {A : Type ℓ} → (ℕ → Option A) → ℕ → Option A → ℕ → Option A
update pools key pool j = if key == j then pool else pools j

module _ (m : Matlab) (api : DecoderApi m.Number) (rt : Runtime) where
  open api use {Pool, Buffer, Decoder}

  pub record Abstract : Type 0 where
    pub decoder : Decoder
    pub pools : ℕ → Option Pool

  abbrev pub put : Abstract → ℕ → Option Pool → Abstract
  put a key pool = record a { pools = update a.pools key pool }

  -- A new pool stands under the key that it is given.
  abbrev pub spec_new : ℕ → ℕ → List m.Array → Call Abstract (Reply m api rt)
  spec_new key outputs inputs = do
    pool_config ← lift (read_new m outputs inputs)
    λ a. done (pool_key key) (put a key (some (api.create_rx_buffer_pool pool_config)))

  -- The buffer that was reserved, if it is a valid one.
  abbrev pub give_if : Bool → ℕ → BufferId → ℕ → Pool × Buffer → Call Abstract (Pool × Buffer)
  give_if true key id nof_codeblocks reserved a = done reserved a
  give_if false key id nof_codeblocks reserved a =
      stop
        (abort "Cannot retrieve softbuffer with key {}, buffer ID ({}) and nr. of codeblocks {}."
          (num key ∷ num id.rnti ∷ num id.harq_id ∷ num nof_codeblocks ∷ []))
        a

  -- A softbuffer of the pool that a key stands for, with the pool that has it reserved.
  abbrev pub reserve_in : Option Pool → ℕ → BufferId → ℕ → Bool → Call Abstract (Pool × Buffer)
  reserve_in none key id nof_codeblocks is_new_data a =
      stop (abort "Cannot retrieve rx_softbuffer_pool with key {}." (num key ∷ [])) a
  reserve_in (some pool) key id nof_codeblocks is_new_data a =
      let reserved = api.reserve pool id nof_codeblocks is_new_data in
      let a' : Abstract = put a key (some reserved.0) in
      give_if (api.is_valid reserved.1) key id nof_codeblocks reserved a'

  abbrev pub spec_retrieve : ℕ → BufferId → ℕ → Bool → Call Abstract (Pool × Buffer)
  spec_retrieve key id nof_codeblocks is_new_data a =
      reserve_in (a.pools key) key id nof_codeblocks is_new_data a

  abbrev pub spec_report : List ℕ → Option api.DecoderResult → Call Abstract (Reply m api rt)
  spec_report out none a = stop (abort "Notifier result has not been reported." []) a
  spec_report out (some r) a =
      done (decoded out (api.tb_crc_ok r) (api.get_max r) (api.get_mean r)) a

  abbrev pub spec_decode : StepInputs m.Number → Pool × Buffer → Call Abstract (Reply m api rt)
  spec_decode step (pool, softbuffer) a =
      let started = api.new_data a.decoder pool (replicate step.tbs_bytes 0) softbuffer step.cfg in
      let ended = api.on_end_softbits (api.on_new_softbits started step.llrs) in
      let a' : Abstract = record a {
        decoder = api.decoder_after ended;
        pools = update a.pools step.key (some (api.pool_after ended));
      } in
      spec_report (api.rx_tb ended) (on_sch_data none (api.notified ended)) a'

  abbrev pub spec_step : ℕ → List m.Array → Call Abstract (Reply m api rt)
  spec_step outputs inputs = do
    step ← lift (read_step m api outputs inputs)
    retrieved ← spec_retrieve step.key step.buf_id step.nof_codeblocks step.cfg.new_data
    spec_decode step retrieved

  abbrev pub spec_reset_buffer : ℕ → Pool × Buffer → Call Abstract (Reply m api rt)
  spec_reset_buffer key (pool, softbuffer) a =
      done no_outputs
        (put a key (some (api.unlock (api.reset_codeblocks_crc pool softbuffer) softbuffer)))

  abbrev pub spec_reset_crcs : ℕ → List m.Array → Call Abstract (Reply m api rt)
  spec_reset_crcs outputs inputs = do
    read ← lift (read_reset m outputs inputs)
    retrieved ← spec_retrieve read.0 read.1 read.2 true
    spec_reset_buffer read.0 retrieved

  abbrev pub release_from : Option Pool → ℕ → Call Abstract (Reply m api rt)
  release_from none key a =
      stop
        (abort "Something wrong, there was no softbuffer pool with softbufferPoolID {}."
          (num key ∷ []))
        a
  release_from (some pool) key a = done no_outputs (put a key none)

  abbrev pub spec_release : ℕ → List m.Array → Call Abstract (Reply m api rt)
  spec_release outputs inputs = do
    key ← lift (read_release m outputs inputs)
    λ a. release_from (a.pools key) key a

  -- The object as such a table.
  abbrev pub view : DecoderMex m api rt → Abstract
  view s = record { decoder = s.decoder; pools = pool_at_key rt s.storage s.heap }

  abbrev pub view_outcome : {A : Type 0} → Outcome (DecoderMex m api rt) A → Outcome Abstract A
  view_outcome (done a s) = done a (view s)
  view_outcome (stop e s) = stop e (view s)
