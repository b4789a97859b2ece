-- ===== src/Tests/Memento.antt =====
-- memento.h on a storage of two mementos, hashed by their addresses.
use srs_ran_matlab.Prelude.{ℕ, ◌≡◌, refl, [], ◌∷◌, ◌==◌, if◌then◌else◌, arith}
use srs_ran_matlab.Mex.{ok}
use srs_ran_matlab.Memento.{Pointer, nullptr, Storage, find, store, get_memento, release_memento}
use srs_ran_matlab.Memento.Lookup.{IsConsistent}
use srs_ran_matlab.Memento.Keys.{release_memento_lem, store_lem}
use srs_ran_matlab.Memento.Runs.{stores, releases, run, updates, view, run-refines-updates}

abbrev address : Pointer → ℕ
address a = a

abbrev two : Storage
two = (5, 5) ∷ (7, 7) ∷ []

two-IsConsistent : IsConsistent address two
unfolding find
two-IsConsistent = (refl, ground arith, refl, (refl, ground arith, refl, tt))

release_memento_lem_example :
    ((release_memento 7 two).0 ≡ (if get_memento address 7 two == nullptr then 0 else 1))
    × ((j : ℕ)
        → get_memento address j (release_memento 7 two).1
          ≡ (if 7 == j then nullptr else get_memento address j two))
    × IsConsistent address (release_memento 7 two).1
release_memento_lem_example = release_memento_lem address 7 two two-IsConsistent

store_lem_example :
    (t : Storage) × (store address 9 two ≡ ok (9, t))
    × ((j : ℕ) → get_memento address j t ≡ (if 9 == j then 9 else get_memento address j two))
    × IsConsistent address t
store_lem_example = store_lem address (λ a b e. e) 9 two (ground arith) two-IsConsistent

run-refines-updates_example :
    (t : Storage) × (run address (stores 9 ∷ releases 5 ∷ stores 5 ∷ []) two ≡ ok t)
    × (view address t ≡ updates address (stores 9 ∷ releases 5 ∷ stores 5 ∷ []) (view address two))
    × IsConsistent address t
run-refines-updates_example =
    run-refines-updates address (λ a b e. e) (stores 9 ∷ releases 5 ∷ stores 5 ∷ []) two
      (ground arith, (ground arith, tt)) two-IsConsistent
