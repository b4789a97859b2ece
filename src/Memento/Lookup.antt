-- ===== src/Memento/Lookup.antt =====
-- memento.h: what a lookup in the map finds after each change of it.
use srs_ran_matlab.Prelude.{
  ℕ, [], ◌∷◌, Option, none, some, ◌≡◌, refl, ◌≢◌, ◌==◌, if◌then◌else◌, arith, inl, inr,
  Option-cases,
}
use srs_ran_matlab.Memento.{Pointer, nullptr, Storage, find, emplace, emplace_if, erase}

abbrev pub or_else : Option Pointer → Pointer → Pointer
or_else none mem = mem
or_else (some old) mem = old

find_congr : (j k : ℕ) (s : Storage) → k ≡ j → find k s ≡ find j s
find_congr j k s e = cc

pub find-emplace :
    (j k : ℕ) (mem : Pointer) (s : Storage)
    → find j (emplace k mem s) ≡ (if k == j then some (or_else (find k s) mem) else find j s)
unfolding emplace find
find-emplace j k mem s = elim (Option-cases (find k s)) [
  | inl e ↦ rw (e, emplace_if) refl
  | inr (old, e) ↦ rw (e, emplace_if) (ground (arith, find_congr j k s))
]

-- Every entry stands under the hash of its pointer, no pointer is null, and no key stands twice.
abbrev pub IsConsistent : (Pointer → ℕ) → Storage → Type 0
IsConsistent hash [] = Unit {0}
IsConsistent hash ((k, mem) ∷ s) =
    (hash mem ≡ k) × (mem ≢ nullptr) × (find k s ≡ none) × IsConsistent hash s

pub find-erase :
    (hash : Pointer → ℕ) (j k : ℕ) (s : Storage)
    → IsConsistent hash s
    → find j (erase k s).1 ≡ (if k == j then none else find j s)
unfolding find erase
find-erase hash j k [] c = ground arith
find-erase hash j k ((i, mem) ∷ s) c = ground (arith, find-erase hash j k s c.3)

pub erase-IsConsistent :
    (hash : Pointer → ℕ) (k : ℕ) (s : Storage)
    → IsConsistent hash s
    → IsConsistent hash (erase k s).1
unfolding find erase
erase-IsConsistent hash k [] c = tt
erase-IsConsistent hash k ((i, mem) ∷ s) c =
    ground (arith, erase-IsConsistent hash k s c.3, find-erase hash i k s c.3)

pub find-hash :
    (hash : Pointer → ℕ) (k : ℕ) (s : Storage) (mem : Pointer)
    → IsConsistent hash s
    → find k s ≡ some mem
    → (hash mem ≡ k) × (mem ≢ nullptr)
unfolding find
find-hash hash k [] mem c e = cc
find-hash hash k ((i, old) ∷ s) mem c e = ground (arith, find-hash hash k s mem c.3)

-- The number of erased entries.
pub erase_count :
    (k : ℕ) (s : Storage) → (erase k s).0 ≡ elim (find k s) [ none ↦ 0 | some mem ↦ 1 ]
unfolding find erase
erase_count k [] = refl
erase_count k ((i, mem) ∷ s) = ground (arith, erase_count k s)
