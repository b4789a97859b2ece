-- ===== src/Memento.antt =====
-- memento.h: `memento_storage`, the map that keeps the state snapshots of a MEX object alive, each
-- under the hash of its shared pointer.
pub mod Lookup
pub mod Keys
pub mod Runs
use srs_ran_matlab.Prelude.{ℕ, not, List, [], ◌∷◌, Option, none, some, ◌==◌, if◌then◌else◌}
use srs_ran_matlab.Mex.{Result, ok, assert, ◌>>◌}

-- A `std::shared_ptr<memento>` by the address that it holds.
abbrev pub Pointer : Type 0
Pointer = ℕ

abbrev pub nullptr : Pointer
nullptr = 0

-- `std::map<size_t, std::shared_ptr<memento>>`
abbrev pub Storage : Type 0
Storage = List (ℕ × Pointer)

-- `storage.find(key)`
unfoldable pub find : ℕ → Storage → Option Pointer
find key [] = none
find key ((k, mem) ∷ storage) = if k == key then some mem else find key storage

-- `storage.emplace(key, mem)`, which keeps the entry that is there
emplace_if : Option Pointer → ℕ → Pointer → Storage → Storage
emplace_if none key mem storage = (key, mem) ∷ storage
emplace_if (some old) key mem storage = storage

unfoldable pub emplace : ℕ → Pointer → Storage → Storage
unfolding emplace_if find
emplace key mem storage = emplace_if (find key storage) key mem storage

-- `storage.erase(key)`: the number of erased elements with the map that is left
unfoldable pub erase : ℕ → Storage → ℕ × Storage
erase key [] = (0, [])
erase key ((k, mem) ∷ storage) =
    let (erased, rest) = erase key storage in
    if k == key then (1, storage) else (erased, (k, mem) ∷ rest)

-- The parameter is `std::hash<std::shared_ptr<memento>>`.
module _ (hash : Pointer → ℕ) where
  unfoldable pub store : Pointer → Storage → Result (ℕ × Storage)
  unfolding emplace
  store mem storage = do
    assert (not (mem == nullptr)) "Null memento"
    ok (hash mem, emplace (hash mem) mem storage)

  checked : ℕ → Option Pointer → Pointer
  checked key none = nullptr
  checked key (some out) = if hash out == key then out else nullptr

  unfoldable pub get_memento : ℕ → Storage → Pointer
  unfolding checked find
  get_memento key storage = checked key (find key storage)

unfoldable pub release_memento : ℕ → Storage → ℕ × Storage
unfolding erase
release_memento = erase
