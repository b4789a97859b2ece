-- ===== src/Decoder/Isolation.antt =====
-- pusch_decoder_mex.cpp: a softbuffer pool is changed by the calls that name its key, and by no others.
use srs_ran_matlab.Prelude.{
  ℕ, Bool, true, false, ◌||◌, List, [], ◌∷◌, Option, none, some, ◌≡◌, sym, ◌∙◌, ap, inl, inr,
  Bool-cases, Option-cases, ◌==◌, arith, replicate,
}
use srs_ran_matlab.Mex.{Matlab, Result, ok, err, Result-cases}
use srs_ran_matlab.Mex.Call.{Outcome, left, resume}
use srs_ran_matlab.Mex.Dispatcher.{Callbacks, create_callbacks}
use srs_ran_matlab.Mex.Dispatcher.History.{Request, serve, dispatch-AllMethods}
use srs_ran_matlab.Decoder.Api.{BufferId, DecoderApi, Runtime, IsRuntime}
use srs_ran_matlab.Decoder.Inputs.{StepInputs, read_new, read_step, read_reset, read_release}
use srs_ran_matlab.Decoder.Methods.{DecoderMex, Reply, callback_table, on_sch_data}
use srs_ran_matlab.Decoder.Spec.{
  Abstract, update, put, spec_new, spec_step, spec_reset_crcs, spec_release, spec_decode,
  spec_reset_buffer, spec_retrieve, view,
}
use srs_ran_matlab.Decoder.Retrieve.{IsValid}
use srs_ran_matlab.Decoder.Dispatch.{spec_table}
use srs_ran_matlab.Decoder.History.{Answers, answer, Serves, served, serves, serve-Serves}

module _ (m : Matlab) (api : DecoderApi m.Number) where
  abbrev key_of_step : Result (StepInputs m.Number) → ℕ → Bool
  key_of_step (ok step) j = step.key == j
  key_of_step (err e) j = false

  abbrev key_of_reset : Result (ℕ × BufferId × ℕ) → ℕ → Bool
  key_of_reset (ok read) j = read.0 == j
  key_of_reset (err e) j = false

  abbrev key_of_release : Result ℕ → ℕ → Bool
  key_of_release (ok key) j = key == j
  key_of_release (err e) j = false

  -- The inputs of a call name a key, as those of a step, of a reset of CRCs or of a release.
  abbrev pub names : ℕ → List m.Array → ℕ → Bool
  names outputs inputs j =
      key_of_step (read_step m api outputs inputs) j
      || key_of_reset (read_reset m outputs inputs) j
      || key_of_release (read_release m outputs inputs) j

  abbrev pub NoneNames : ℕ → List (Request m.Array) → Type 0
  NoneNames j [] = Unit {0}
  NoneNames j (request ∷ requests) =
      (names request.outputs request.inputs j ≡ false) × NoneNames j requests

module _ (m : Matlab) (api : DecoderApi m.Number) (rt : Runtime) (j : ℕ) (pool : api.Pool) where
  -- The pool stands under the key.
  abbrev Has : Abstract m api rt → Type 0
  Has a = a.pools j ≡ some pool

  abbrev Keeps : Outcome (Abstract m api rt) (Reply m api rt) → Type 0
  Keeps o = Has (left o)

  update_other :
      (a : Abstract m api rt) (key : ℕ) (o : Option api.Pool)
      → (key == j) ≡ false
      → Has a
      → update a.pools key o j ≡ some pool
  update_other a key o other h = rw other h

  other_than_unused :
      (a : Abstract m api rt) (key : ℕ) → a.pools key ≡ none → Has a → (key == j) ≡ false
  other_than_unused a key unused h = elim (Bool-cases (key == j)) [
    | inr other ↦ other
    | inl same ↦
        let e : key ≡ j = ground (arith, same) in
        absurd (ground (arith, sym (ap a.pools e) ∙ unused, h))
  ]

  spec_new-Keeps :
      (key outputs : ℕ) (inputs : List m.Array) (a : Abstract m api rt)
      → (key == j) ≡ false
      → Has a
      → Keeps (spec_new m api rt key outputs inputs a)
  spec_new-Keeps key outputs inputs a other h = elim (Result-cases (read_new m outputs inputs)) [
    | inl (e, stopped) ↦ rw stopped h
    | inr (config, e) ↦ rw e (update_other a key (some (api.create_rx_buffer_pool config)) other h)
  ]

  spec_release-Keeps :
      (outputs : ℕ) (inputs : List m.Array) (a : Abstract m api rt)
      → key_of_release m api (read_release m outputs inputs) j ≡ false
      → Has a
      → Keeps (spec_release m api rt outputs inputs a)
  spec_release-Keeps outputs inputs a other h =
      elim (Result-cases (read_release m outputs inputs)) [
        | inl (e, stopped) ↦ rw stopped h
        | inr (key, e) ↦
            let apart : (key == j) ≡ false = sym (ap (λ r. key_of_release m api r j) e) ∙ other in
            elim (Option-cases (a.pools key)) [
              | inl missing ↦ rw (e, missing) h
              | inr (released, there) ↦ rw (e, there) (update_other a key none apart h)
            ]
      ]

  -- What follows a softbuffer that was retrieved under another key.
  retrieved-Keeps :
      (key : ℕ) (id : BufferId) (n : ℕ) (new : Bool)
      (g : api.Pool × api.Buffer → Abstract m api rt → Outcome (Abstract m api rt) (Reply m api rt))
      (a : Abstract m api rt)
      → ((reserved : api.Pool × api.Buffer) (b : Abstract m api rt) → Has b → Keeps (g reserved b))
      → (key == j) ≡ false
      → Has a
      → Keeps (resume g (spec_retrieve m api rt key id n new a))
  retrieved-Keeps key id n new g a keeps apart h = elim (Option-cases (a.pools key)) [
    | inl missing ↦ rw missing h
    | inr (p, there) ↦
        let reserved = api.reserve p id n new in
        let kept : update a.pools key (some reserved.0) j ≡ some pool =
          update_other a key (some reserved.0) apart h in
        elim (Bool-cases (api.is_valid reserved.1)) [
          | inr invalid ↦ rw (there, invalid) kept
          | inl valid ↦
              rw (there, valid) (keeps reserved (put m api rt a key (some reserved.0)) kept)
        ]
  ]

  spec_decode-Keeps :
      (step : StepInputs m.Number) (reserved : api.Pool × api.Buffer) (a : Abstract m api rt)
      → (step.key == j) ≡ false
      → Has a
      → Keeps (spec_decode m api rt step reserved a)
  spec_decode-Keeps step reserved a apart h =
      let ended = api.on_end_softbits (
        api.on_new_softbits
          (api.new_data a.decoder reserved.0 (replicate step.tbs_bytes 0) reserved.1 step.cfg)
          step.llrs) in
      let kept = update_other a step.key (some (api.pool_after ended)) apart h in
      elim (Option-cases (on_sch_data none (api.notified ended))) [
        | inl nothing ↦ rw nothing kept
        | inr (r, reported) ↦ rw reported kept
      ]

  spec_step-Keeps :
      (outputs : ℕ) (inputs : List m.Array) (a : Abstract m api rt)
      → key_of_step m api (read_step m api outputs inputs) j ≡ false
      → Has a
      → Keeps (spec_step m api rt outputs inputs a)
  spec_step-Keeps outputs inputs a other h = elim (Result-cases (read_step m api outputs inputs)) [
    | inl (e, stopped) ↦ rw stopped h
    | inr (step, e) ↦
        let apart : (step.key == j) ≡ false = sym (ap (λ r. key_of_step m api r j) e) ∙ other in
        rw e (
          retrieved-Keeps step.key step.buf_id step.nof_codeblocks step.cfg.new_data
            (spec_decode m api rt step) a (λ r b k. spec_decode-Keeps step r b apart k) apart h)
  ]

  spec_reset_crcs-Keeps :
      (outputs : ℕ) (inputs : List m.Array) (a : Abstract m api rt)
      → key_of_reset m api (read_reset m outputs inputs) j ≡ false
      → Has a
      → Keeps (spec_reset_crcs m api rt outputs inputs a)
  spec_reset_crcs-Keeps outputs inputs a other h =
      elim (Result-cases (read_reset m outputs inputs)) [
        | inl (e, stopped) ↦ rw stopped h
        | inr (read, e) ↦
            let apart : (read.0 == j) ≡ false = sym (ap (λ r. key_of_reset m api r j) e) ∙ other in
            rw e (
              retrieved-Keeps read.0 read.1 read.2 true (spec_reset_buffer m api rt read.0) a
                (λ r b k. update_other b read.0 _ apart k) apart h)
      ]

  Answers-Keeps :
      (a : Abstract m api rt) (request : Request m.Array)
      (o : Outcome (Abstract m api rt) (Reply m api rt))
      → names m api request.outputs request.inputs j ≡ false
      → Has a
      → Answers m api rt a request o
      → Keeps o
  Answers-Keeps a request _ unnamed h (answer key unused) =
      let apart = other_than_unused a key unused h in
      dispatch-AllMethods m Keeps a (spec_table m api rt key) request.outputs request.inputs
        (λ e. h)
        (
          spec_new-Keeps key request.outputs request.inputs a apart h,
          (
            spec_step-Keeps request.outputs request.inputs a (ground (arith, unnamed)) h,
            (
              spec_reset_crcs-Keeps request.outputs request.inputs a (ground (arith, unnamed)) h,
              (spec_release-Keeps request.outputs request.inputs a (ground (arith, unnamed)) h, tt),
            ),
          ),
        )

  Serves-Keeps :
      {a b : Abstract m api rt} {requests : List (Request m.Array)}
      {results : List (Result (Reply m api rt))}
      → Serves m api rt a requests results b
      → NoneNames m api j requests
      → Has a
      → Has b
  Serves-Keeps (served a) unnamed h = h
  Serves-Keeps {a = a} (serves {request = request} o answered rest) (one, others) h =
      Serves-Keeps rest others (Answers-Keeps a request o one h answered)

  -- Whatever calls a valid object gets, with whatever inputs and however they end: a pool that stands
  -- under a key is left exactly as it is by a list of calls of which none names the key as the one of a
  -- step, of a reset of CRCs or of a release. It assumes that a new object gets an address of its own,
  -- and that the hash tells addresses apart.
  pub serve_other_keys :
      (laws : IsRuntime rt) (callbacks : Callbacks m.Array (DecoderMex m api rt) (Reply m api rt))
      (requests : List (Request m.Array)) (s : DecoderMex m api rt)
      → create_callbacks (callback_table m api rt) [] ≡ ok callbacks
      → IsValid m api rt s
      → NoneNames m api j requests
      → (view m api rt s).pools j ≡ some pool
      → (view m api rt (serve m callbacks requests s).1).pools j ≡ some pool
  serve_other_keys laws callbacks requests s registered v unnamed h =
      Serves-Keeps (serve-Serves m api rt laws callbacks registered requests s v) unnamed h
