-- ===== src/Decoder/Contract.antt =====
-- pusch_decoder_mex.cpp: every method implements the specification of the decoder.
use mathlib.Core.Path.{fun_ext}
use srs_ran_matlab.Prelude.{
  ℕ, true, List, none, some, ◌≡◌, ◌≢◌, refl, ap, ◌∙◌, inl, inr, Option-cases, arith,
}
use srs_ran_matlab.Mex.{Matlab, Result-cases}
use srs_ran_matlab.Mex.Call.{done, left}
use srs_ran_matlab.Memento.{nullptr}
use srs_ran_matlab.Decoder.Api.{DecoderApi, Runtime}
use srs_ran_matlab.Decoder.Inputs.{read_step, read_reset, read_release}
use srs_ran_matlab.Decoder.Methods.{
  DecoderMex, no_outputs, put_pool, decode, method_step, method_reset_crcs, method_release,
  release_key, reset_buffer,
}
use srs_ran_matlab.Decoder.Pools.{pool_at_key, pool_at_key-release, release-IsLive, release_count}
use srs_ran_matlab.Decoder.Spec.{
  Abstract, update, put, spec_decode, spec_step, spec_reset_buffer, spec_reset_crcs, spec_release,
  view, release_from,
}
use srs_ran_matlab.Decoder.Retrieve.{IsValid, at, put_at, view-put_at, pool_at_put, pool_of_lem}
use srs_ran_matlab.Decoder.Refines.{Refines, put_at-IsValid, decode-Refines, retrieve-Refines}

module _ (m : Matlab) (api : DecoderApi m.Number) (rt : Runtime) where
  -- From a valid object `method_step` stops or returns as the specification of a step does, for all
  -- inputs: the same error or the same transport block and statistics, and the same table of pools,
  -- in which only the pool of its key has changed. The object stays valid.
  pub method_step-Refines :
      (outputs : ℕ) (inputs : List m.Array) (s : DecoderMex m api rt)
      → IsValid m api rt s
      → Refines m api rt
          (method_step m api rt outputs inputs s)
          (spec_step m api rt outputs inputs (view m api rt s))
  unfolding method_step
  method_step-Refines outputs inputs s v = elim (Result-cases (read_step m api outputs inputs)) [
    | inl (e, stopped) ↦ rw stopped (refl, v)
    | inr (step, e) ↦ rw e (
        retrieve-Refines m api rt step.key step.buf_id step.nof_codeblocks step.cfg.new_data
          (λ r. decode m api rt step r.0 r.1) (spec_decode m api rt step) s
          (λ s' pool softbuffer v' n. decode-Refines m api rt step s' pool softbuffer v' n) v)
  ]

  reset_buffer-Refines :
      (key : ℕ) (s : DecoderMex m api rt) (pool : api.Pool) (softbuffer : api.Buffer)
      → IsValid m api rt s
      → at m api rt s key ≢ nullptr
      → Refines m api rt
          (reset_buffer m api rt (at m api rt s key, softbuffer) (put_at m api rt s key pool))
          (spec_reset_buffer m api rt key
            (pool, softbuffer)
            (put m api rt (view m api rt s) key (some pool)))
  unfolding reset_buffer put_pool put_at
  reset_buffer-Refines key s pool softbuffer v n =
      let s' = put_at m api rt s key pool in
      let v' = put_at-IsValid m api rt s key pool v n in
      let reset = api.unlock (api.reset_codeblocks_crc pool softbuffer) softbuffer in
      rw (pool_of_lem m api rt s' (at m api rt s key) pool (pool_at_put m api rt s key pool v n)) (
        ap (done no_outputs) (
            view-put_at m api rt s' key reset v' n
            ∙ ap (λ a. put m api rt a key (some reset)) (view-put_at m api rt s key pool v n)),
        put_at-IsValid m api rt s' key reset v' n,
      )

  -- From a valid object `method_reset_crcs` stops or returns as the specification does, for all inputs:
  -- it resets the flags of a softbuffer in the pool of its key and gives the softbuffer back, and no
  -- other pool changes. The object stays valid.
  pub method_reset_crcs-Refines :
      (outputs : ℕ) (inputs : List m.Array) (s : DecoderMex m api rt)
      → IsValid m api rt s
      → Refines m api rt
          (method_reset_crcs m api rt outputs inputs s)
          (spec_reset_crcs m api rt outputs inputs (view m api rt s))
  unfolding method_reset_crcs
  method_reset_crcs-Refines outputs inputs s v = elim (Result-cases (read_reset m outputs inputs)) [
    | inl (e, stopped) ↦ rw stopped (refl, v)
    | inr (read, e) ↦ rw e (
        retrieve-Refines m api rt read.0 read.1 read.2 true (reset_buffer m api rt)
          (spec_reset_buffer m api rt read.0) s (reset_buffer-Refines read.0) v)
  ]

  release_key-view :
      (key : ℕ) (s : DecoderMex m api rt)
      → IsValid m api rt s
      → (view m api rt (left (release_key m api rt key s))
          ≡ put m api rt (view m api rt s) key none)
        × IsValid m api rt (left (release_key m api rt key s))
  unfolding release_key
  release_key-view key s v = (
    (let e = fun_ext λ j. pool_at_key-release rt s.storage s.heap v key j in
        λ i. record { decoder = s.decoder; pools = e i }),
    release-IsLive rt s.storage s.heap v key,
  )

  put_none : (a : Abstract m api rt) (key : ℕ) → a.pools key ≡ none → put m api rt a key none ≡ a
  put_none a key e = λ i. record { decoder = a.decoder; pools = fun_ext same i }
    where
      same : (j : ℕ) → update a.pools key none j ≡ a.pools j
      same j = ground arith

  -- From a valid object `method_release` stops or returns as the specification does, for all inputs:
  -- a key that stands for a pool stands for nothing afterwards, any other key makes it abort with the
  -- table unchanged, and no other key is touched. The object stays valid.
  pub method_release-Refines :
      (outputs : ℕ) (inputs : List m.Array) (s : DecoderMex m api rt)
      → IsValid m api rt s
      → Refines m api rt
          (method_release m api rt outputs inputs s)
          (spec_release m api rt outputs inputs (view m api rt s))
  unfolding method_release release_key
  method_release-Refines outputs inputs s v = elim (Result-cases (read_release m outputs inputs)) [
    | inl (e, stopped) ↦ rw stopped (refl, v)
    | inr (key, e) ↦
        let (seen, valid) = release_key-view key s v in
        let count = release_count rt s.storage s.heap v key in
        elim (Option-cases (pool_at_key rt s.storage s.heap key)) [
          | inl missing ↦
              rw (e, count, missing)
                (
                  ap (release_from m api rt none key)
                      (seen ∙ put_none (view m api rt s) key missing),
                  valid,
                )
          | inr (pool, there) ↦ rw (e, count, there) (ap (done no_outputs) seen, valid)
        ]
  ]
