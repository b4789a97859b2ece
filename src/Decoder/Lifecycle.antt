-- ===== src/Decoder/Lifecycle.antt =====
-- pusch_decoder_mex.h and pusch_decoder_mex.cpp: the object over any history of calls, and the end of
-- a pool.
use srs_ran_matlab.Prelude.{ℕ, List, [], some, ◌≡◌, refl, sym, subst}
use srs_ran_matlab.Mex.{Matlab, ok}
use srs_ran_matlab.Mex.Call.{left}
use srs_ran_matlab.Mex.Dispatcher.{Callbacks, create_callbacks, dispatch}
use srs_ran_matlab.Mex.Dispatcher.Table.{construct_registered}
use srs_ran_matlab.Memento.{get_memento}
use srs_ran_matlab.Decoder.Api.{DecoderApi, Runtime, IsRuntime}
use srs_ran_matlab.Decoder.Methods.{DecoderMex, Reply, callback_table, construct}
use srs_ran_matlab.Decoder.Retrieve.{IsValid}
use srs_ran_matlab.Decoder.Dispatch.{dispatch-Refines}

module _ (m : Matlab) (api : DecoderApi m.Number) (rt : Runtime) where
  -- The states of an object that was constructed with a decoder and then called any number of times,
  -- with any inputs.
  pub data Reach : DecoderMex m api rt → Type 0 where
    constructed :
        {s : DecoderMex m api rt}
        {callbacks : Callbacks m.Array (DecoderMex m api rt) (Reply m api rt)}
        (decoder : api.Decoder)
        → construct m api rt (some decoder) ≡ ok (s, callbacks)
        → Reach s
    called :
        {s : DecoderMex m api rt}
        (callbacks : Callbacks m.Array (DecoderMex m api rt) (Reply m api rt)) (outputs : ℕ)
        (inputs : List m.Array)
        → create_callbacks (callback_table m api rt) [] ≡ ok callbacks
        → Reach s
        → Reach (left (dispatch m callbacks outputs inputs s))

  start-IsValid :
      (decoder : api.Decoder)
      → IsValid m api rt (record { decoder = decoder; storage = []; heap = [] })
  unfolding get_memento
  start-IsValid decoder = record { consistent = tt; live = λ k n. absurd (n refl) }

  pub constructed-IsValid :
      (decoder : api.Decoder) (s : DecoderMex m api rt)
      (callbacks : Callbacks m.Array (DecoderMex m api rt) (Reply m api rt))
      → construct m api rt (some decoder) ≡ ok (s, callbacks)
      → IsValid m api rt s
  unfolding construct
  constructed-IsValid decoder s callbacks e =
      let start : DecoderMex m api rt = record { decoder = decoder; storage = []; heap = [] } in
      subst (IsValid m api rt)
        (sym (construct_registered (callback_table m api rt) callbacks start s e).1)
        (start-IsValid decoder)

  module _ (laws : IsRuntime rt) where
    -- Whatever calls an object gets after its construction, with whatever inputs and however they end,
    -- every key stands for nothing or for a pool that is alive. It assumes that a new object gets an
    -- address of its own, and that the hash tells addresses apart.
    pub Reach-IsValid : (s : DecoderMex m api rt) → Reach s → IsValid m api rt s
    Reach-IsValid s (constructed {callbacks = callbacks} decoder e) =
        constructed-IsValid decoder s callbacks e
    Reach-IsValid _ (called {s = s} callbacks outputs inputs e r) =
        (dispatch-Refines m api rt laws callbacks outputs inputs s e (Reach-IsValid s r)).1
