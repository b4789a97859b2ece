-- ===== src/Decoder/Retrieve.antt =====
-- pusch_decoder_mex.cpp: what `retrieve_softbuffer` finds and changes.
use mathlib.Core.Path.{fun_ext}
use srs_ran_matlab.Prelude.{
  ℕ, Bool, true, false, [], ◌∷◌, none, some, ◌≡◌, ◌≢◌, ◌==◌, arith, inl, inr, Bool-cases,
}
use srs_ran_matlab.Mex.{Matlab, abort, num}
use srs_ran_matlab.Mex.Call.{Call, done, stop}
use srs_ran_matlab.Memento.{Pointer, nullptr, get_memento}
use srs_ran_matlab.Decoder.Api.{BufferId, DecoderApi, Runtime}
use srs_ran_matlab.Decoder.Heap.{pool_at, set_pool, pool_at-set_pool}
use srs_ran_matlab.Decoder.Methods.{
  DecoderMex, retrieve_softbuffer, memento_retrieve_softbuffer, pool_of,
}
use srs_ran_matlab.Decoder.Pools.{IsLive, pool_at_key, pool_at_key-set_pool}
use srs_ran_matlab.Decoder.Spec.{put, view}

module _ (m : Matlab) (api : DecoderApi m.Number) (rt : Runtime) where
  -- Every key stands for nothing or for a pool that is alive.
  abbrev pub IsValid : DecoderMex m api rt → Type 0
  IsValid s = IsLive rt s.storage s.heap

  abbrev pub at : DecoderMex m api rt → ℕ → Pointer
  at s key = get_memento rt.hash key s.storage

  unfoldable pub put_at : DecoderMex m api rt → ℕ → api.Pool → DecoderMex m api rt
  put_at s key pool = record s { heap = set_pool (at s key) pool s.heap }

  pub view-put_at :
      (s : DecoderMex m api rt) (key : ℕ) (pool : api.Pool)
      → IsValid s
      → at s key ≢ nullptr
      → view m api rt (put_at s key pool) ≡ put m api rt (view m api rt s) key (some pool)
  unfolding put_at
  view-put_at s key pool v n =
      let e = fun_ext λ j. pool_at_key-set_pool rt s.storage s.heap v key j pool n in
      λ i. record { decoder = s.decoder; pools = e i }

  pub pool_at_put :
      (s : DecoderMex m api rt) (key : ℕ) (pool : api.Pool)
      → IsValid s
      → at s key ≢ nullptr
      → pool_at (at s key) (put_at s key pool).heap ≡ some pool
  unfolding put_at
  pool_at_put s key pool v n =
      ground (arith, pool_at-set_pool (at s key) (at s key) pool s.heap (v.live key n))

  missing_null :
      (s : DecoderMex m api rt) (key : ℕ)
      → IsValid s
      → pool_at_key rt s.storage s.heap key ≡ none
      → (at s key == nullptr) ≡ true
  missing_null s key v e = ground (arith, v.live key)

  pub found_alive :
      (s : DecoderMex m api rt) (key : ℕ) (pool : api.Pool)
      → pool_at_key rt s.storage s.heap key ≡ some pool
      → ((at s key == nullptr) ≡ false)
        × (at s key ≢ nullptr)
        × (pool_at (at s key) s.heap ≡ some pool)
  found_alive s key pool e = ground arith

  -- A key that stands for nothing has no pool to reserve in.
  pub retrieve_missing :
      (s : DecoderMex m api rt) (key : ℕ) (id : BufferId) (n : ℕ) (new : Bool)
      → IsValid s
      → pool_at_key rt s.storage s.heap key ≡ none
      → retrieve_softbuffer m api rt key id n new s
        ≡ stop (abort "Cannot retrieve rx_softbuffer_pool with key {}." (num key ∷ [])) s
  unfolding retrieve_softbuffer
  retrieve_missing s key id n new v e = rw (missing_null s key v e)

  -- The softbuffer that a pool gives, or the abort if it is not valid.
  abbrev pub given :
      Bool
      → ℕ
      → BufferId
      → ℕ
      → Pointer × api.Buffer
      → Call (DecoderMex m api rt) (Pointer × api.Buffer)
  given true key id n reserved s = done reserved s
  given false key id n reserved s =
      stop
        (abort "Cannot retrieve softbuffer with key {}, buffer ID ({}) and nr. of codeblocks {}."
          (num key ∷ num id.rnti ∷ num id.harq_id ∷ num n ∷ []))
        s

  pub pool_of_lem :
      (s : DecoderMex m api rt) (mem : Pointer) (pool : api.Pool)
      → pool_at mem s.heap ≡ some pool
      → pool_of m api rt mem s ≡ done pool s
  unfolding pool_of
  pool_of_lem s mem pool e = rw e

  memento_retrieve_lem :
      (s : DecoderMex m api rt) (key : ℕ) (id : BufferId) (n : ℕ) (new : Bool) (pool : api.Pool)
      → pool_at (at s key) s.heap ≡ some pool
      → let reserved = api.reserve pool id n new in
        memento_retrieve_softbuffer m api rt (at s key) id n new s
        ≡ done reserved.1 (put_at s key reserved.0)
  unfolding memento_retrieve_softbuffer put_at
  memento_retrieve_lem s key id n new pool e = rw e

  pub retrieve_found :
      (s : DecoderMex m api rt) (key : ℕ) (id : BufferId) (n : ℕ) (new : Bool) (pool : api.Pool)
      → pool_at_key rt s.storage s.heap key ≡ some pool
      → let reserved = api.reserve pool id n new in
        retrieve_softbuffer m api rt key id n new s
        ≡ given (api.is_valid reserved.1) key id n (at s key, reserved.1) (put_at s key reserved.0)
  unfolding retrieve_softbuffer
  retrieve_found s key id n new pool e =
      let (null, _, alive) = found_alive s key pool e in
      rw null (
        rw (memento_retrieve_lem s key id n new pool alive)
          (elim (Bool-cases (api.is_valid (api.reserve pool id n new).1)) [
            | inl e ↦ rw e
            | inr e ↦ rw e
          ]))
