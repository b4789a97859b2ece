-- ===== src/Decoder/New.antt =====
-- pusch_decoder_mex.cpp: `method_new` implements the specification of the decoder.
use mathlib.Core.Path.{fun_ext}
use srs_ran_matlab.Prelude.{ℕ, false, List, none, ◌≡◌, refl, inl, inr, arith, ◌==◌}
use srs_ran_matlab.Mex.{Matlab, Result-cases}
use srs_ran_matlab.Mex.Call.{done}
use srs_ran_matlab.Memento.{nullptr}
use srs_ran_matlab.Memento.Keys.{store_lem}
use srs_ran_matlab.Decoder.Api.{DecoderApi, Runtime, IsRuntime}
use srs_ran_matlab.Decoder.Heap.{addresses}
use srs_ran_matlab.Decoder.Inputs.{read_new}
use srs_ran_matlab.Decoder.Methods.{DecoderMex, pool_key, method_new, make_shared, store_memento}
use srs_ran_matlab.Decoder.Pools.{new_key_fresh, pool_at_key-store, store-IsLive}
use srs_ran_matlab.Decoder.Spec.{spec_new, view}
use srs_ran_matlab.Decoder.Retrieve.{IsValid}
use srs_ran_matlab.Decoder.Refines.{Refines}

module _ (m : Matlab) (api : DecoderApi m.Number) (rt : Runtime) (laws : IsRuntime rt) where
  -- The key that the next pool gets.
  abbrev pub next_key : DecoderMex m api rt → ℕ
  next_key s = rt.hash (rt.allocate (addresses s.heap))

  -- A key that the next pool gets stands for nothing yet.
  pub next_key_unused :
      (s : DecoderMex m api rt) → IsValid m api rt s → (view m api rt s).pools (next_key s) ≡ none
  next_key_unused s v = new_key_fresh rt s.storage s.heap v laws

  address_not_null : (s : DecoderMex m api rt) → (rt.allocate (addresses s.heap) == nullptr) ≡ false
  address_not_null s = ground (arith, laws.allocate-ne-null (addresses s.heap))

  -- From a valid object `method_new` stops or returns as the specification does, for all inputs: the
  -- new pool stands under the key that is returned, which stood for nothing before, and every other
  -- key stands for what it stood for. The object stays valid. It assumes that a new object gets an
  -- address of its own, and that the hash tells addresses apart.
  pub method_new-Refines :
      (outputs : ℕ) (inputs : List m.Array) (s : DecoderMex m api rt)
      → IsValid m api rt s
      → Refines m api rt
          (method_new m api rt outputs inputs s)
          (spec_new m api rt (next_key s) outputs inputs (view m api rt s))
        × ((view m api rt s).pools (next_key s) ≡ none)
  unfolding method_new make_shared store_memento
  method_new-Refines outputs inputs s v =
      let fresh = next_key_unused s v in
      elim (Result-cases (read_new m outputs inputs)) [
        | inl (e, stopped) ↦ rw stopped ((refl, v), fresh)
        | inr (config, e) ↦
            let address = rt.allocate (addresses s.heap) in
            let pool = api.create_rx_buffer_pool config in
            let (t, store_eq, seen, kept) =
              store_lem rt.hash laws.hash_injective address s.storage
                (laws.allocate-ne-null (addresses s.heap)) v.consistent in
            let pools = fun_ext λ j. pool_at_key-store rt s.storage s.heap v laws pool t seen j in
            rw (e, address_not_null s, store_eq)
              (
                (
                  (λ i.
                      done (pool_key (rt.hash address))
                        (record { decoder = s.decoder; pools = pools i })),
                  store-IsLive rt s.storage s.heap v laws pool t seen kept,
                ),
                fresh,
              )
      ]
