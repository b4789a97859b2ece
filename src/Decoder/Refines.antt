-- ===== src/Decoder/Refines.antt =====
-- pusch_decoder_mex.cpp: each method does what the specification of the decoder says.
use srs_ran_matlab.Prelude.{
  ℕ, Bool, true, false, List, Option, none, some, ◌≡◌, ◌≢◌, refl, ◌∙◌, ap, inl, inr, Option-cases,
  replicate,
}
use srs_ran_matlab.Mex.{Matlab}
use srs_ran_matlab.Mex.Call.{Call, Outcome, left, resume}
use srs_ran_matlab.Memento.{Pointer, nullptr}
use srs_ran_matlab.Decoder.Api.{BufferId, DecoderApi, Runtime}
use srs_ran_matlab.Decoder.Heap.{set_pool}
use srs_ran_matlab.Decoder.Inputs.{StepInputs}
use srs_ran_matlab.Decoder.Methods.{
  DecoderMex, Reply, retrieve_softbuffer, decode, on_sch_data, report,
}
use srs_ran_matlab.Decoder.Pools.{pool_at_key, set_pool-IsLive}
use srs_ran_matlab.Decoder.Spec.{
  Abstract, update, put, spec_retrieve, spec_decode, view, view_outcome, spec_report, give_if,
}
use srs_ran_matlab.Decoder.Retrieve.{
  IsValid, at, put_at, view-put_at, pool_at_put, retrieve_missing, retrieve_found, given,
  pool_of_lem, found_alive,
}

module _ (m : Matlab) (api : DecoderApi m.Number) (rt : Runtime) where
  -- An outcome is what the specification says, and leaves a valid object.
  abbrev pub Refines :
      Outcome (DecoderMex m api rt) (Reply m api rt)
      → Outcome (Abstract m api rt) (Reply m api rt)
      → Type 0
  Refines o b = (view_outcome m api rt o ≡ b) × IsValid m api rt (left o)

  pub put_at-IsValid :
      (s : DecoderMex m api rt) (key : ℕ) (pool : api.Pool)
      → IsValid m api rt s
      → at m api rt s key ≢ nullptr
      → IsValid m api rt (put_at m api rt s key pool)
  unfolding put_at
  put_at-IsValid s key pool v n = set_pool-IsLive rt s.storage s.heap v key pool n

  report-Refines :
      (out : List ℕ) (o : Option api.DecoderResult) (s : DecoderMex m api rt)
      (a : Abstract m api rt)
      → view m api rt s ≡ a
      → IsValid m api rt s
      → Refines (report m api rt out o s) (spec_report m api rt out o a)
  report-Refines out none s a e v = (ap (spec_report m api rt out none) e, v)
  report-Refines out (some r) s a e v = (ap (spec_report m api rt out (some r)) e, v)

  pub decode-Refines :
      (step : StepInputs m.Number) (s : DecoderMex m api rt) (pool : api.Pool)
      (softbuffer : api.Buffer)
      → IsValid m api rt s
      → at m api rt s step.key ≢ nullptr
      → Refines
          (decode m api rt step
            (at m api rt s step.key)
            softbuffer
            (put_at m api rt s step.key pool))
          (spec_decode m api rt step
            (pool, softbuffer)
            (put m api rt (view m api rt s) step.key (some pool)))
  unfolding decode put_at
  decode-Refines step s pool softbuffer v n =
      let s' = put_at m api rt s step.key pool in
      let v' = put_at-IsValid s step.key pool v n in
      let s'' : Abstract m api rt = put m api rt (view m api rt s) step.key (some pool) in
      let ended = api.on_end_softbits (
        api.on_new_softbits
          (api.new_data s.decoder pool (replicate step.tbs_bytes 0) softbuffer step.cfg)
          step.llrs) in
      let seen =
        view-put_at m api rt s' step.key (api.pool_after ended) v' n
        ∙ ap (λ a. put m api rt a step.key (some (api.pool_after ended)))
            (view-put_at m api rt s step.key pool v n) in
      rw
        (pool_of_lem m api rt s' (at m api rt s step.key) pool
          (pool_at_put m api rt s step.key pool v n))
        (report-Refines (api.rx_tb ended) (on_sch_data none (api.notified ended))
          (record s' {
            decoder = api.decoder_after ended;
            heap = set_pool (at m api rt s step.key) (api.pool_after ended) s'.heap;
          })
          (record s'' {
            decoder = api.decoder_after ended;
            pools = update s''.pools step.key (some (api.pool_after ended));
          })
          (ap {A = Abstract m api rt} (λ a. record a { decoder = api.decoder_after ended }) seen)
          (put_at-IsValid s' step.key (api.pool_after ended) v' n))

  -- What follows a softbuffer that was retrieved refines what follows it in the specification.
  abbrev pub Continues :
      ℕ
      → (Pointer × api.Buffer → Call (DecoderMex m api rt) (Reply m api rt))
      → (api.Pool × api.Buffer → Call (Abstract m api rt) (Reply m api rt))
      → Type 0
  Continues key f g =
      (s : DecoderMex m api rt) (pool : api.Pool) (softbuffer : api.Buffer)
      → IsValid m api rt s
      → at m api rt s key ≢ nullptr
      → Refines (f (at m api rt s key, softbuffer) (put_at m api rt s key pool))
          (g (pool, softbuffer) (put m api rt (view m api rt s) key (some pool)))

  given-Refines :
      (ok? : Bool) (key : ℕ) (id : BufferId) (n : ℕ) (pool : api.Pool) (softbuffer : api.Buffer)
      (f : Pointer × api.Buffer → Call (DecoderMex m api rt) (Reply m api rt))
      (g : api.Pool × api.Buffer → Call (Abstract m api rt) (Reply m api rt))
      (s : DecoderMex m api rt)
      → Continues key f g
      → IsValid m api rt s
      → at m api rt s key ≢ nullptr
      → Refines
          (resume f (
            given m api rt ok? key id n
              (at m api rt s key, softbuffer)
              (put_at m api rt s key pool)))
          (resume g (
            give_if m api rt ok? key id n
              (pool, softbuffer)
              (put m api rt (view m api rt s) key (some pool))))
  given-Refines true key id n pool softbuffer f g s c v live = c s pool softbuffer v live
  given-Refines false key id n pool softbuffer f g s c v live = (
    ap (λ a. resume g (give_if m api rt false key id n (pool, softbuffer) a))
        (view-put_at m api rt s key pool v live),
    put_at-IsValid s key pool v live,
  )

  pub retrieve-Refines :
      (key : ℕ) (id : BufferId) (n : ℕ) (new : Bool)
      (f : Pointer × api.Buffer → Call (DecoderMex m api rt) (Reply m api rt))
      (g : api.Pool × api.Buffer → Call (Abstract m api rt) (Reply m api rt))
      (s : DecoderMex m api rt)
      → Continues key f g
      → IsValid m api rt s
      → Refines
          (resume f (retrieve_softbuffer m api rt key id n new s))
          (resume g (spec_retrieve m api rt key id n new (view m api rt s)))
  retrieve-Refines key id n new f g s c v =
      elim (Option-cases (pool_at_key rt s.storage s.heap key)) [
        | inl e ↦ rw (retrieve_missing m api rt s key id n new v e, e) (refl, v)
        | inr (pool, e) ↦
            rw (retrieve_found m api rt s key id n new pool e, e)
              (given-Refines (api.is_valid (api.reserve pool id n new).1) key id n
                (api.reserve pool id n new).0 (api.reserve pool id n new).1 f g s c v
                (found_alive m api rt s key pool e).1)
      ]
