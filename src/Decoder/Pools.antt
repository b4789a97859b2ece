-- ===== src/Decoder/Pools.antt =====
-- The PUSCH decoder MEX function seen as a table of pools by key.
use srs_ran_matlab.Prelude.{
  ℕ, List, ◌∷◌, Option, none, some, ◌≡◌, ◌≢◌, true, false, ◌==◌, if◌then◌else◌, arith, inl, inr,
  Option-cases,
}
use srs_ran_matlab.Memento.{Pointer, nullptr, Storage, find, get_memento, release_memento}
use srs_ran_matlab.Memento.Lookup.{IsConsistent, find-hash}
use srs_ran_matlab.Memento.Keys.{get_memento-hash, release_memento_lem}
use srs_ran_matlab.Decoder.Api.{Runtime, IsRuntime}
use srs_ran_matlab.Decoder.Heap.{
  addresses, pool_at, set_pool, destroy, pool_at-set_pool, pool_at-destroy, pool_at_fresh,
}

module _ {Pool : Type 0} (rt : Runtime) where
  open rt use {hash}

  -- The pool that a key stands for.
  abbrev pub pool_at_key : Storage → List (Pointer × Pool) → ℕ → Option Pool
  pool_at_key storage heap key =
      if get_memento hash key storage == nullptr
      then none
      else pool_at (get_memento hash key storage) heap

  -- The storage is consistent, and each of its mementos is alive.
  pub record IsLive (storage : Storage) (heap : List (Pointer × Pool)) : Type 0 where
    pub consistent : IsConsistent hash storage
    pub live :
        (k : ℕ)
        → get_memento hash k storage ≢ nullptr
        → pool_at (get_memento hash k storage) heap ≢ none

  module _ (storage : Storage) (heap : List (Pointer × Pool)) (valid : IsLive storage heap) where
    abbrev at : ℕ → Pointer
    at key = get_memento hash key storage

    -- A pool changes under one key only.
    pub pool_at_key-set_pool :
        (key j : ℕ) (pool : Pool)
        → at key ≢ nullptr
        → pool_at_key storage (set_pool (at key) pool heap) j
          ≡ (if key == j then some pool else pool_at_key storage heap j)
    pool_at_key-set_pool key j pool n = ground (
      arith,
      pool_at-set_pool (at j) (at key) pool heap (valid.live key n),
      get_memento-hash hash key storage,
      get_memento-hash hash j storage,
    )

    pub set_pool-IsLive :
        (key : ℕ) (pool : Pool) → at key ≢ nullptr → IsLive storage (set_pool (at key) pool heap)
    set_pool-IsLive key pool n = record {
      consistent = valid.consistent;
      live = λ j m.
          ground
            (arith, pool_at-set_pool (at j) (at key) pool heap (valid.live key n), valid.live j m);
    }

    -- What the end of the object under `key` does to the one under `j`.
    pool_at-released :
        (key j : ℕ)
        → key ≢ j
        → at j ≢ nullptr
        → pool_at (at j) (destroy (find key storage) heap) ≡ pool_at (at j) heap
    unfolding destroy
    pool_at-released key j n m = elim (Option-cases (find key storage)) [
      | inl e ↦ rw e
      | inr (mem, e) ↦ rw e (
          ground (
            arith,
            pool_at-destroy (at j) mem heap,
            find-hash hash key storage mem valid.consistent e,
            get_memento-hash hash j storage m,
          ))
    ]

    -- A released key stands for nothing.
    pub pool_at_key-release :
        (key j : ℕ)
        → pool_at_key (release_memento key storage).1 (destroy (find key storage) heap) j
          ≡ (if key == j then none else pool_at_key storage heap j)
    pool_at_key-release key j =
        ground (
          arith,
          (release_memento_lem hash key storage valid.consistent).1 j,
          pool_at-released key j,
        )

    pub release-IsLive :
        (key : ℕ) → IsLive (release_memento key storage).1 (destroy (find key storage) heap)
    release-IsLive key =
        let (_, seen, kept) = release_memento_lem hash key storage valid.consistent in
        record {
          consistent = kept;
          live = λ j m. ground (arith, seen j, pool_at-released key j, valid.live j);
        }

    -- A key is released exactly when it stands for a pool.
    pub release_count :
        (key : ℕ)
        → ((release_memento key storage).0 == 0)
          ≡ elim (pool_at_key storage heap key) [ none ↦ true | some pool ↦ false ]
    release_count key =
        ground (arith, (release_memento_lem hash key storage valid.consistent).0, valid.live key)

    module _ (laws : IsRuntime rt) where
      abbrev address : Pointer
      address = rt.allocate (addresses heap)

      address_dead : pool_at address heap ≡ none
      address_dead = pool_at_fresh address heap (laws.allocate-IsFresh (addresses heap))

      -- The key of a new pool stood for nothing.
      pub new_key_fresh : pool_at_key storage heap (hash address) ≡ none
      new_key_fresh = ground (
        arith,
        address_dead,
        valid.live (hash address),
        get_memento-hash hash (hash address) storage,
        laws.hash_injective (at (hash address)) address,
      )

      module _ (pool : Pool) (t : Storage)
          (seen : (j : ℕ)
            → get_memento hash j t
              ≡ (if hash address == j then address else get_memento hash j storage)) where
        -- A new pool stands under its own key, and every other key for what it stood for.
        pub pool_at_key-store :
            (j : ℕ)
            → pool_at_key t ((address, pool) ∷ heap) j
              ≡ (if hash address == j then some pool else pool_at_key storage heap j)
        unfolding pool_at
        pool_at_key-store j = ground (
          arith,
          seen j,
          address_dead,
          valid.live j,
          laws.allocate-ne-null (addresses heap),
          get_memento-hash hash j storage,
        )

        pub store-IsLive : IsConsistent hash t → IsLive t ((address, pool) ∷ heap)
        unfolding pool_at
        store-IsLive kept = record {
          consistent = kept;
          live = λ j m. ground (arith, seen j, address_dead, valid.live j);
        }
