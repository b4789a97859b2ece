-- ===== src/Decoder/Release.antt =====
-- pusch_decoder_mex.cpp: what a softbuffer pool identifier is good for after its release.
use srs_ran_matlab.Prelude.{
  ℕ, true, List, [], ◌∷◌, Option, none, some, ◌≡◌, refl, sym, ◌∙◌, ap, subst, Bool, arith,
}
use srs_ran_matlab.Mex.{Matlab, ok, abort, num}
use srs_ran_matlab.Mex.Call.{Outcome, done, stop, left}
use srs_ran_matlab.Decoder.Api.{BufferId, DecoderApi, Runtime}
use srs_ran_matlab.Decoder.Inputs.{read_step, read_release, read_reset, StepInputs}
use srs_ran_matlab.Decoder.Methods.{
  DecoderMex, Reply, method_step, method_reset_crcs, method_release,
}
use srs_ran_matlab.Decoder.Pools.{pool_at_key}
use srs_ran_matlab.Decoder.Spec.{Abstract, view, view_outcome, release_from}
use srs_ran_matlab.Decoder.Retrieve.{IsValid, retrieve_missing}
use srs_ran_matlab.Decoder.Contract.{method_release-Refines}

module _ (m : Matlab) (api : DecoderApi m.Number) (rt : Runtime) where
  -- The table that a returned call leaves.
  abbrev table_of : Outcome (Abstract m api rt) (Reply m api rt) → ℕ → Option api.Pool
  table_of (done r a) key = a.pools key
  table_of (stop e a) key = none

  released_from :
      (o : Option api.Pool) (key : ℕ) (a : Abstract m api rt)
      → table_of (release_from m api rt o key a) key ≡ none
  released_from none key a = refl
  released_from (some pool) key a = ground arith

  released_key :
      (outputs : ℕ) (inputs : List m.Array) (key : ℕ) (r : Reply m api rt)
      (s t : DecoderMex m api rt)
      → IsValid m api rt s
      → read_release m outputs inputs ≡ ok key
      → method_release m api rt outputs inputs s ≡ done r t
      → (pool_at_key rt t.storage t.heap key ≡ none) × IsValid m api rt t
  released_key outputs inputs key r s t v read e =
      let (seen, valid) = method_release-Refines m api rt outputs inputs s v in
      (
        ap (λ o. table_of (view_outcome m api rt o) key) (sym e)
            ∙ ap (λ o. table_of o key)
                {y = release_from m api rt (pool_at_key rt s.storage s.heap key) key
                  (view m api rt s)}
                (seen ∙ rw read)
            ∙ released_from (pool_at_key rt s.storage s.heap key) key (view m api rt s),
        subst (λ o. IsValid m api rt (left o)) e valid,
      )

  -- In the state that a release of a pool identifier leaves when it returns, and so as the next call of
  -- the object, every decoding step and every reset of CRCs that names the identifier aborts and changes
  -- nothing, and so does a second release, which leaves the table of pools as it was. A later `new` may
  -- hand out the identifier again.
  pub released_key_unusable :
      (outputs step_outputs reset_outputs : ℕ) (inputs step_inputs reset_inputs : List m.Array)
      (key nof_codeblocks : ℕ) (id : BufferId) (r : Reply m api rt) (step : StepInputs m.Number)
      (s t : DecoderMex m api rt)
      → IsValid m api rt s
      → read_release m outputs inputs ≡ ok key
      → method_release m api rt outputs inputs s ≡ done r t
      → read_step m api step_outputs step_inputs ≡ ok step
      → step.key ≡ key
      → read_reset m reset_outputs reset_inputs ≡ ok (key, id, nof_codeblocks)
      → (method_step m api rt step_outputs step_inputs t
          ≡ stop (abort "Cannot retrieve rx_softbuffer_pool with key {}." (num key ∷ [])) t)
        × (method_reset_crcs m api rt reset_outputs reset_inputs t
            ≡ stop (abort "Cannot retrieve rx_softbuffer_pool with key {}." (num key ∷ [])) t)
        × (view_outcome m api rt (method_release m api rt outputs inputs t)
            ≡ stop
                (abort "Something wrong, there was no softbuffer pool with softbufferPoolID {}."
                  (num key ∷ []))
                (view m api rt t))
  unfolding method_step method_reset_crcs
  released_key_unusable outputs so ro inputs si ri key n id r step s t v read e read_s same read_r =
      let (gone, valid) = released_key outputs inputs key r s t v read e in
      let missing = λ (id' : BufferId) (n' : ℕ) (new : Bool).
        retrieve_missing m api rt t key id' n' new valid gone in
      (
        rw (read_s, same, missing step.buf_id step.nof_codeblocks step.cfg.new_data),
        rw (read_r, missing id n true),
        (method_release-Refines m api rt outputs inputs t valid).0 ∙ rw (read, gone),
      )
