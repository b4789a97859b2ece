-- ===== src/Decoder/Heap.antt =====
-- The `pusch_memento` objects that are alive, by address: each holds one pool.
use srs_ran_matlab.Prelude.{
  List, [], ◌∷◌, Option, none, some, ◌≡◌, ◌≢◌, refl, ◌==◌, if◌then◌else◌, arith,
}
use srs_ran_matlab.Memento.{Pointer}
use srs_ran_matlab.Decoder.Api.{IsFresh}

module _ {Pool : Type 0} where
  abbrev pub addresses : List (Pointer × Pool) → List Pointer
  addresses [] = []
  addresses ((a, pool) ∷ heap) = a ∷ addresses heap

  -- `mem->pool`
  unfoldable pub pool_at : Pointer → List (Pointer × Pool) → Option Pool
  pool_at a [] = none
  pool_at a ((b, pool) ∷ heap) = if b == a then some pool else pool_at a heap

  -- a change of the pool that an object holds
  unfoldable pub set_pool : Pointer → Pool → List (Pointer × Pool) → List (Pointer × Pool)
  set_pool a new [] = []
  set_pool a new ((b, pool) ∷ heap) =
      if b == a then (b, new) ∷ heap else (b, pool) ∷ set_pool a new heap

  -- the end of the object that a pointer holds, if it holds one
  unfoldable pub destroy : Option Pointer → List (Pointer × Pool) → List (Pointer × Pool)
  destroy none heap = heap
  destroy (some a) [] = []
  destroy (some a) ((b, pool) ∷ heap) =
      if b == a then destroy (some a) heap else (b, pool) ∷ destroy (some a) heap

  pub pool_at-set_pool :
      (j a : Pointer) (new : Pool) (heap : List (Pointer × Pool))
      → pool_at a heap ≢ none
      → pool_at j (set_pool a new heap) ≡ (if a == j then some new else pool_at j heap)
  unfolding pool_at set_pool
  pool_at-set_pool j a new [] live = absurd (live refl)
  pool_at-set_pool j a new ((b, pool) ∷ heap) live = ground (arith, pool_at-set_pool j a new heap)

  pub pool_at-destroy :
      (j a : Pointer) (heap : List (Pointer × Pool))
      → pool_at j (destroy (some a) heap) ≡ (if a == j then none else pool_at j heap)
  unfolding pool_at destroy
  pool_at-destroy j a [] = ground arith
  pool_at-destroy j a ((b, pool) ∷ heap) = ground (arith, pool_at-destroy j a heap)

  pub pool_at_fresh :
      (a : Pointer) (heap : List (Pointer × Pool))
      → IsFresh a (addresses heap)
      → pool_at a heap ≡ none
  unfolding pool_at
  pool_at_fresh a [] fresh = refl
  pool_at_fresh a ((b, pool) ∷ heap) fresh = ground (arith, pool_at_fresh a heap fresh.1)
