-- ===== src/Decoder/History.antt =====
-- srsran_mex_dispatcher.h over pusch_decoder_mex.h and pusch_decoder_mex.cpp: what the object answers
-- to a whole history of calls.
use srs_ran_matlab.Prelude.{
  ℕ, List, [], ◌∷◌, Option, none, some, ◌≡◌, refl, ap, subst, sym, ◌∙◌, arith,
}
use srs_ran_matlab.Mex.{Matlab, Result, ok, >>=-eq-ok}
use srs_ran_matlab.Mex.Call.{Outcome, done, stop, left}
use srs_ran_matlab.Mex.Dispatcher.{Callbacks, create_callbacks, dispatch}
use srs_ran_matlab.Mex.Dispatcher.Table.{construct_registered}
use srs_ran_matlab.Mex.Dispatcher.History.{Request, result_of, serve}
use srs_ran_matlab.Memento.{find as find_memento, get_memento}
use srs_ran_matlab.Decoder.Api.{DecoderApi, Runtime, IsRuntime}
use srs_ran_matlab.Decoder.Heap.{pool_at}
use srs_ran_matlab.Decoder.Methods.{DecoderMex, Reply, callback_table, construct}
use srs_ran_matlab.Decoder.Spec.{Abstract, view, view_outcome}
use srs_ran_matlab.Decoder.Retrieve.{IsValid}
use srs_ran_matlab.Decoder.New.{next_key, next_key_unused}
use srs_ran_matlab.Decoder.Dispatch.{spec_table, dispatch-Refines}
use srs_ran_matlab.Decoder.Factory.{DecoderFactories, create_pusch_decoder, load}
use srs_ran_matlab.Decoder.Lifecycle.{constructed-IsValid}

module _ (m : Matlab) (api : DecoderApi m.Number) (rt : Runtime) where
  -- One call of the specification: the environment picks the key that a new pool would get, among
  -- those that stand for nothing.
  pub data Answers (a : Abstract m api rt) (request : Request m.Array)
      : Outcome (Abstract m api rt) (Reply m api rt) → Type 0 where
    answer :
        (key : ℕ)
        → a.pools key ≡ none
        → Answers a request (dispatch m (spec_table m api rt key) request.outputs request.inputs a)

  -- The histories that the specification allows: requests, their answers and the table that is left.
  pub data Serves
      : Abstract m api rt
        → List (Request m.Array)
        → List (Result (Reply m api rt))
        → Abstract m api rt
        → Type 0 where
    served : (a : Abstract m api rt) → Serves a [] [] a
    serves :
        {a b : Abstract m api rt} {request : Request m.Array} {requests : List (Request m.Array)}
        {results : List (Result (Reply m api rt))}
        (o : Outcome (Abstract m api rt) (Reply m api rt))
        → Answers a request o
        → Serves (left o) requests results b
        → Serves a (request ∷ requests) (result_of o ∷ results) b

  result_of-view_outcome :
      (o : Outcome (DecoderMex m api rt) (Reply m api rt))
      → result_of (view_outcome m api rt o) ≡ result_of o
  result_of-view_outcome (done r s) = refl
  result_of-view_outcome (stop e s) = refl

  left-view_outcome :
      (o : Outcome (DecoderMex m api rt) (Reply m api rt))
      → left (view_outcome m api rt o) ≡ view m api rt (left o)
  left-view_outcome (done r s) = refl
  left-view_outcome (stop e s) = refl

  module _ (laws : IsRuntime rt)
      (callbacks : Callbacks m.Array (DecoderMex m api rt) (Reply m api rt))
      (registered : create_callbacks (callback_table m api rt) [] ≡ ok callbacks) where
    pub serve-Serves :
        (requests : List (Request m.Array)) (s : DecoderMex m api rt)
        → IsValid m api rt s
        → Serves
            (view m api rt s)
            requests
            (serve m callbacks requests s).0
            (view m api rt (serve m callbacks requests s).1)
    unfolding serve
    serve-Serves [] s v = served (view m api rt s)
    serve-Serves (request ∷ requests) s v =
        let o = dispatch m callbacks request.outputs request.inputs s in
        let (same, valid) =
          dispatch-Refines m api rt laws callbacks request.outputs request.inputs s registered v in
        let key = next_key m api rt laws s in
        let answered =
          subst (Answers (view m api rt s) request) (sym same)
            (answer key (next_key_unused m api rt laws s v)) in
        subst
          (λ r.
            Serves (view m api rt s) (request ∷ requests)
              (r ∷ (serve m callbacks requests (left o)).0)
              (view m api rt (serve m callbacks requests (left o)).1))
          (result_of-view_outcome o)
          (serves (view_outcome m api rt o) answered (
            subst
              (λ a.
                Serves a requests (serve m callbacks requests (left o)).0
                  (view m api rt (serve m callbacks requests (left o)).1))
              (sym (left-view_outcome o)) (serve-Serves requests (left o) valid)))

  constructed_lem :
      (decoder : api.Decoder) (s : DecoderMex m api rt)
      (callbacks : Callbacks m.Array (DecoderMex m api rt) (Reply m api rt))
      → construct m api rt (some decoder) ≡ ok (s, callbacks)
      → (create_callbacks (callback_table m api rt) [] ≡ ok callbacks)
        × (s ≡ record { decoder = decoder; storage = []; heap = [] })
  unfolding construct
  constructed_lem decoder s callbacks e =
      construct_registered (callback_table m api rt) callbacks
        (record { decoder = decoder; storage = []; heap = [] }) s e

  empty_table :
      (decoder : api.Decoder)
      → view m api rt (record { decoder = decoder; storage = []; heap = [] })
        ≡ record { decoder = decoder; pools = λ key. none }
  unfolding get_memento find_memento pool_at
  empty_table decoder = refl

  constructed-Serves :
      (laws : IsRuntime rt) (decoder : api.Decoder) (s : DecoderMex m api rt)
      (callbacks : Callbacks m.Array (DecoderMex m api rt) (Reply m api rt))
      (requests : List (Request m.Array))
      → construct m api rt (some decoder) ≡ ok (s, callbacks)
      → Serves
          (record { decoder = decoder; pools = λ key. none })
          requests
          (serve m callbacks requests s).0
          (view m api rt (serve m callbacks requests s).1)
  constructed-Serves laws decoder s callbacks requests e =
      let (registered, start) = constructed_lem decoder s callbacks e in
      subst
        (λ a.
          Serves a requests (serve m callbacks requests s).0
            (view m api rt (serve m callbacks requests s).1))
        (ap (view m api rt) start ∙ empty_table decoder)
        (serve-Serves laws callbacks registered requests s
          (constructed-IsValid m api rt decoder s callbacks e))

  construct_needs :
      (o : Option api.Decoder) (s : DecoderMex m api rt)
      (callbacks : Callbacks m.Array (DecoderMex m api rt) (Reply m api rt))
      → construct m api rt o ≡ ok (s, callbacks)
      → (decoder : api.Decoder) × (o ≡ some decoder)
  unfolding construct
  construct_needs none s callbacks h = absurd (ground arith)
  construct_needs (some decoder) s callbacks h = (decoder, refl)

  -- If the MEX object is loaded, its factories have made a decoder, and it answers every history of
  -- calls, with whatever inputs, as the specification allows from that decoder and an empty table of
  -- pools: the same replies and the same errors in the same order, and in the end the same decoder and
  -- the same pool under every key. It assumes that a new object gets an address of its own, and that
  -- the hash tells addresses apart.
  pub loaded-Serves :
      (laws : IsRuntime rt) (fs : DecoderFactories api.Decoder) (s : DecoderMex m api rt)
      (callbacks : Callbacks m.Array (DecoderMex m api rt) (Reply m api rt))
      (requests : List (Request m.Array))
      → load m api rt fs ≡ ok (s, callbacks)
      → (decoder : api.Decoder) × (create_pusch_decoder fs ≡ ok (some decoder))
        × Serves
            (record { decoder = decoder; pools = λ key. none })
            requests
            (serve m callbacks requests s).0
            (view m api rt (serve m callbacks requests s).1)
  unfolding load
  loaded-Serves laws fs s callbacks requests e =
      let (o, created, constructed) = >>=-eq-ok (create_pusch_decoder fs) _ e in
      let (decoder, made) = construct_needs o s callbacks constructed in
      (
        decoder,
        created ∙ ap ok made,
        constructed-Serves laws decoder s callbacks requests
            (ap (construct m api rt) (sym made) ∙ constructed),
      )
