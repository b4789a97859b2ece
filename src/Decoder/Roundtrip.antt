-- ===== src/Decoder/Roundtrip.antt =====
-- pusch_decoder_mex.cpp: `method_release` undoes `method_new`.
use mathlib.Core.Path.{fun_ext}
use srs_ran_matlab.Prelude.{ℕ, List, none, some, ◌≡◌, refl, sym, ◌∙◌, ap, subst, inl, inr, arith}
use srs_ran_matlab.Mex.{Matlab, ok, Result-cases}
use srs_ran_matlab.Mex.Call.{Outcome, done, left}
use srs_ran_matlab.Decoder.Api.{DecoderApi, Runtime, IsRuntime}
use srs_ran_matlab.Decoder.Inputs.{read_new, read_release}
use srs_ran_matlab.Decoder.Methods.{
  DecoderMex, Reply, no_outputs, pool_key, method_new, method_release,
}
use srs_ran_matlab.Decoder.Spec.{Abstract, update, put, spec_new, spec_release, view, view_outcome}
use srs_ran_matlab.Decoder.Retrieve.{IsValid}
use srs_ran_matlab.Decoder.Contract.{method_release-Refines}
use srs_ran_matlab.Decoder.New.{next_key, method_new-Refines}

module _ (m : Matlab) (api : DecoderApi m.Number) (rt : Runtime) where
  abbrev key_of : Outcome (Abstract m api rt) (Reply m api rt) → ℕ
  key_of (done (pool_key key) a) = key
  key_of _ = 0

  update_twice :
      (a : Abstract m api rt) (key : ℕ) (pool : api.Pool)
      → a.pools key ≡ none
      → put m api rt (put m api rt a key (some pool)) key none ≡ a
  update_twice a key pool e = λ i. record { decoder = a.decoder; pools = fun_ext same i }
    where
      same : (j : ℕ) → update (update a.pools key (some pool)) key none j ≡ a.pools j
      same j = ground arith

  release_put :
      (outputs : ℕ) (inputs : List m.Array) (a b : Abstract m api rt) (key : ℕ) (pool : api.Pool)
      → read_release m outputs inputs ≡ ok key
      → a.pools key ≡ none
      → b ≡ put m api rt a key (some pool)
      → spec_release m api rt outputs inputs b ≡ done no_outputs a
  release_put outputs inputs a b key pool read unused e =
      let found : update a.pools key (some pool) key ≡ some pool = ground arith in
      ap (spec_release m api rt outputs inputs) e
      ∙ rw (read, found) (ap (done no_outputs) (update_twice a key pool unused))

  spec_new_done :
      (key outputs : ℕ) (inputs : List m.Array) (returned_key : ℕ) (a b : Abstract m api rt)
      → spec_new m api rt key outputs inputs a ≡ done (pool_key returned_key) b
      → (pool : api.Pool) × (returned_key ≡ key) × (b ≡ put m api rt a key (some pool))
  spec_new_done key outputs inputs returned_key a b h =
      elim (Result-cases (read_new m outputs inputs)) [
        | inl (e, stopped) ↦ absurd (grind arith)
        | inr (config, e) ↦
            let made : spec_new m api rt key outputs inputs a
                ≡ done (pool_key key)
                    (put m api rt a key (some (api.create_rx_buffer_pool config))) =
              rw e refl in
            let same = sym h ∙ made in
            (api.create_rx_buffer_pool config, ap key_of same, ap left same)
      ]

  -- A release of the pool identifier that a valid object has just returned from `method_new` succeeds,
  -- and gives back the decoder and the table of pools that were there before. It assumes that a new
  -- object gets an address of its own, and that the hash tells addresses apart.
  pub new_then_release :
      (laws : IsRuntime rt) (outputs release_outputs : ℕ) (inputs release_inputs : List m.Array)
      (key : ℕ) (s t : DecoderMex m api rt)
      → IsValid m api rt s
      → method_new m api rt outputs inputs s ≡ done (pool_key key) t
      → read_release m release_outputs release_inputs ≡ ok key
      → view_outcome m api rt (method_release m api rt release_outputs release_inputs t)
        ≡ done no_outputs (view m api rt s)
  new_then_release laws outputs ro inputs ri key s t v made read =
      let ((seen, valid), unused) = method_new-Refines m api rt laws outputs inputs s v in
      let (pool, same_key, left_by_new) =
        spec_new_done (next_key m api rt laws s) outputs inputs key (view m api rt s)
          (view m api rt t) (sym seen ∙ ap (view_outcome m api rt) made) in
      let valid_t : IsValid m api rt t = subst (λ o. IsValid m api rt (left o)) made valid in
      (method_release-Refines m api rt ro ri t valid_t).0
      ∙ release_put ro ri (view m api rt s) (view m api rt t) (next_key m api rt laws s) pool
          (read ∙ ap ok same_key) unused left_by_new
