-- ===== src/Memento/Runs.antt =====
-- memento.h: the storage over any history of stores and releases.
use mathlib.Core.Path.{fun_ext}
use srs_ran_matlab.Prelude.{ℕ, List, [], ◌∷◌, ◌≡◌, refl, ◌≢◌, ◌==◌, if◌then◌else◌, ◌∙◌, ap}
use srs_ran_matlab.Mex.{Result, ok, ◌>>=◌}
use srs_ran_matlab.Memento.{Pointer, nullptr, Storage, store, get_memento, release_memento}
use srs_ran_matlab.Memento.Lookup.{IsConsistent}
use srs_ran_matlab.Memento.Keys.{store_lem, release_memento_lem}

pub data Request : Type 0 where
  stores : Pointer → Request
  releases : ℕ → Request

-- No null pointer is stored.
abbrev pub NonNull : List Request → Type 0
NonNull [] = Unit {0}
NonNull (stores mem ∷ requests) = (mem ≢ nullptr) × NonNull requests
NonNull (releases key ∷ requests) = NonNull requests

module _ (hash : Pointer → ℕ) where
  abbrev pub request : Request → Storage → Result Storage
  request (stores mem) s = store hash mem s >>= λ (key, t). ok t
  request (releases key) s = ok (release_memento key s).1

  pub run : List Request → Storage → Result Storage
  run [] s = ok s
  run (r ∷ requests) s = request r s >>= run requests

  -- The specification: a key stands for the memento stored last under its hash, until it is released.
  abbrev pub update : Request → (ℕ → Pointer) → ℕ → Pointer
  update (stores mem) view key = if hash mem == key then mem else view key
  update (releases k) view key = if k == key then nullptr else view key

  abbrev pub updates : List Request → (ℕ → Pointer) → ℕ → Pointer
  updates [] view = view
  updates (r ∷ requests) view = updates requests (update r view)

  abbrev pub view : Storage → ℕ → Pointer
  view s key = get_memento hash key s

  module _ (hash_injective : (a b : Pointer) → hash a ≡ hash b → a ≡ b) where
    -- Any history of stores of non-null mementos and of releases, from a consistent storage, succeeds;
    -- the storage that it leaves is consistent and finds for every key what the specification, a
    -- plain function from keys to mementos updated request by request, says. It assumes that the hash
    -- tells pointers apart.
    pub run-refines-updates :
        (requests : List Request) (s : Storage)
        → NonNull requests
        → IsConsistent hash s
        → (t : Storage) × (run requests s ≡ ok t)
          × (view t ≡ updates requests (view s))
          × IsConsistent hash t
    unfolding run
    run-refines-updates [] s n c = (s, refl, refl, c)
    run-refines-updates (stores mem ∷ requests) s (n, ns) c =
        let (t, stored, seen, kept) = store_lem hash hash_injective mem s n c in
        let (u, ran, viewed, held) = run-refines-updates requests t ns kept in
        (u, rw stored ran, viewed ∙ ap (updates requests) (fun_ext seen), held)
    run-refines-updates (releases key ∷ requests) s n c =
        let (count, seen, kept) = release_memento_lem hash key s c in
        let (u, ran, viewed, held) =
          run-refines-updates requests (release_memento key s).1 n kept in
        (u, ran, viewed ∙ ap (updates requests) (fun_ext seen), held)
