-- ===== src/Decoder/Returns.antt =====
-- pusch_decoder_mex.cpp: when a decoding step returns, and what a release undoes.
use srs_ran_matlab.Prelude.{
  ℕ, Bool, true, false, List, [], ◌∷◌, none, some, ◌≡◌, ◌≢◌, ◌⊎◌, ◌↔◌, refl, sym, ◌∙◌, ap, inl, inr,
  Bool-cases, Option-cases, replicate, arith,
}
use srs_ran_matlab.Mex.{Matlab, ok, Result-cases}
use srs_ran_matlab.Mex.Call.{Outcome, done, stop}
use srs_ran_matlab.Decoder.Api.{DecoderApi, Runtime}
use srs_ran_matlab.Decoder.Inputs.{StepInputs, read_step}
use srs_ran_matlab.Decoder.Methods.{DecoderMex, Reply, on_sch_data, method_step}
use srs_ran_matlab.Decoder.Spec.{Abstract, spec_step, view, view_outcome}
use srs_ran_matlab.Decoder.Retrieve.{IsValid}
use srs_ran_matlab.Decoder.Contract.{method_step-Refines}

abbrev pub returned : {S A : Type 0} → Outcome S A → Bool
returned (done a s) = true
returned (stop e s) = false

on_sch_data-some {ℓ} :
    {R : Type ℓ} (r : R) (results : List R)
    → (last : R) × (on_sch_data (some r) results ≡ some last)
unfolding on_sch_data
on_sch_data-some r [] = (r, refl)
on_sch_data-some r (r' ∷ results) = on_sch_data-some r' results

-- The last result that was notified, if any was.
notified-cases {ℓ} :
    {R : Type ℓ} (results : List R)
    → (results ≡ []) ⊎ ((last : R) × (results ≢ []) × (on_sch_data none results ≡ some last))
unfolding on_sch_data
notified-cases [] = inl refl
notified-cases (r ∷ results) =
    let (last, e) = on_sch_data-some r results in inr (last, λ p. ground arith, e)

module _ (m : Matlab) (api : DecoderApi m.Number) (rt : Runtime) where
  -- The decoding of a codeword with a softbuffer reserved in a pool.
  abbrev pub session : StepInputs m.Number → api.Decoder → api.Pool → api.Session
  session step decoder pool =
      let reserved = api.reserve pool step.buf_id step.nof_codeblocks step.cfg.new_data in
      api.on_end_softbits (
        api.on_new_softbits
          (api.new_data decoder reserved.0 (replicate step.tbs_bytes 0) reserved.1 step.cfg)
          step.llrs)

  -- What a step needs to return: readable inputs, a key that stands for a pool, a valid softbuffer in
  -- it, and a decoder that notifies a result.
  pub record IsServed (outputs : ℕ) (inputs : List m.Array) (a : Abstract m api rt)
      (step : StepInputs m.Number) (pool : api.Pool) : Type 0 where
    pub readable : read_step m api outputs inputs ≡ ok step
    pub known : a.pools step.key ≡ some pool
    pub reserved :
        api.is_valid (api.reserve pool step.buf_id step.nof_codeblocks step.cfg.new_data).1 ≡ true
    pub reported : api.notified (session step a.decoder pool) ≢ []

  spec_step_returns :
      (outputs : ℕ) (inputs : List m.Array) (a : Abstract m api rt) (step : StepInputs m.Number)
      (pool : api.Pool)
      → IsServed outputs inputs a step pool
      → returned (spec_step m api rt outputs inputs a) ≡ true
  spec_step_returns outputs inputs a step pool h =
      elim (notified-cases (api.notified (session step a.decoder pool))) [
        | inl nothing ↦ absurd (h.reported nothing)
        | inr (last, _, e) ↦ rw (h.readable, h.known, h.reserved, e) refl
      ]

  spec_step_needs :
      (outputs : ℕ) (inputs : List m.Array) (a : Abstract m api rt)
      → returned (spec_step m api rt outputs inputs a) ≡ true
      → (step : StepInputs m.Number) × (pool : api.Pool) × IsServed outputs inputs a step pool
  unfolding on_sch_data
  spec_step_needs outputs inputs a h = elim (Result-cases (read_step m api outputs inputs)) [
    | inl (e, stopped) ↦ absurd (grind arith)
    | inr (step, readable) ↦ elim (Option-cases (a.pools step.key)) [
      | inl unknown ↦ absurd (grind arith)
      | inr (pool, known) ↦
          let id = step.buf_id in
          elim (Bool-cases
            (api.is_valid (api.reserve pool id step.nof_codeblocks step.cfg.new_data).1)) [
              | inr invalid ↦ absurd (grind arith)
              | inl reserved ↦ elim (notified-cases (api.notified (session step a.decoder pool))) [
                | inl nothing ↦ absurd (grind arith)
                | inr (last, reported, _) ↦ (
                  step,
                  pool,
                  record {
                    readable = readable;
                    known = known;
                    reserved = reserved;
                    reported = reported;
                  },
                )
              ]
            ]
    ]
  ]

  returned-view_outcome :
      (o : Outcome (DecoderMex m api rt) (Reply m api rt))
      → returned (view_outcome m api rt o) ≡ returned o
  returned-view_outcome (done r s) = refl
  returned-view_outcome (stop e s) = refl

  -- From a valid object a decoding step returns exactly when its inputs are readable, its key stands
  -- for a pool, the pool reserves a valid softbuffer for it, and the decoder notifies a result.
  pub method_step_returns :
      (outputs : ℕ) (inputs : List m.Array) (s : DecoderMex m api rt)
      → IsValid m api rt s
      → (returned (method_step m api rt outputs inputs s) ≡ true) ↔ (
          (step : StepInputs m.Number) × (pool : api.Pool) × IsServed outputs inputs
            (view m api rt s)
            step
            pool)
  method_step_returns outputs inputs s v =
      let same =
        sym (returned-view_outcome (method_step m api rt outputs inputs s))
        ∙ ap returned (method_step-Refines m api rt outputs inputs s v).0 in
      (
        λ h. spec_step_needs outputs inputs (view m api rt s) (sym same ∙ h),
        λ (step, pool, h). same ∙ spec_step_returns outputs inputs (view m api rt s) step pool h,
      )
