-- ===== src/Memento/Keys.antt =====
-- memento.h: the storage as a partial map from keys to mementos.
use srs_ran_matlab.Prelude.{
  ℕ, Option, none, some, ◌≡◌, refl, ◌≢◌, ◌==◌, if◌then◌else◌, arith, inl, inr, Option-cases,
}
use srs_ran_matlab.Mex.{ok}
use srs_ran_matlab.Memento.{
  Pointer, nullptr, Storage, find, emplace, emplace_if, erase, checked, store, get_memento,
  release_memento,
}
use srs_ran_matlab.Memento.Lookup.{
  IsConsistent, find-emplace, find-erase, erase-IsConsistent, find-hash, erase_count,
}

module _ (hash : Pointer → ℕ) where
  abbrev pub found : Option Pointer → Pointer
  found none = nullptr
  found (some mem) = mem

  pub get_memento-hash :
      (k : ℕ) (s : Storage) → get_memento hash k s ≢ nullptr → hash (get_memento hash k s) ≡ k
  unfolding get_memento
  get_memento-hash k s = checked-hash (find k s)
    where
      checked-hash : (o : Option Pointer) → checked hash k o ≢ nullptr → hash (checked hash k o) ≡ k
      checked-hash none n = absurd (n refl)
      checked-hash (some mem) n = ground arith

  -- While the storage is consistent the checksum of `get_memento` never fails.
  pub get_memento-find :
      (k : ℕ) (s : Storage) → IsConsistent hash s → get_memento hash k s ≡ found (find k s)
  unfolding get_memento
  get_memento-find k s c = elim (Option-cases (find k s)) [
    | inl e ↦ rw (e, checked) refl
    | inr (mem, e) ↦ rw (e, checked) (ground (arith, find-hash hash k s mem c e))
  ]

  -- `release_memento` returns 1 exactly when the key was stored and 0 otherwise; afterwards the key
  -- is unknown, every other key finds what it found, and the storage is still consistent.
  pub release_memento_lem :
      (k : ℕ) (s : Storage)
      → IsConsistent hash s
      → let (released, t) = release_memento k s in
        (released ≡ (if get_memento hash k s == nullptr then 0 else 1))
        × ((j : ℕ) → get_memento hash j t ≡ (if k == j then nullptr else get_memento hash j s))
        × IsConsistent hash t
  unfolding release_memento
  release_memento_lem k s c = (count, other, erase-IsConsistent hash k s c)
    where
      count : (erase k s).0 ≡ (if get_memento hash k s == nullptr then 0 else 1)
      count = elim (Option-cases (find k s)) [
        | inl e ↦ ground (arith, erase_count k s, get_memento-find k s c)
        | inr (mem, e) ↦
            ground (arith, erase_count k s, get_memento-find k s c, find-hash hash k s mem c e)
      ]

      other :
          (j : ℕ)
          → get_memento hash j (erase k s).1 ≡ (if k == j then nullptr else get_memento hash j s)
      other j = ground (
        arith,
        get_memento-find j s c,
        get_memento-find j (erase k s).1 (erase-IsConsistent hash k s c),
        find-erase hash j k s c,
      )

  module _ (hash_injective : (a b : Pointer) → hash a ≡ hash b → a ≡ b) where
    emplace-IsConsistent :
        (mem : Pointer) (s : Storage)
        → mem ≢ nullptr
        → IsConsistent hash s
        → IsConsistent hash (emplace (hash mem) mem s)
    unfolding emplace
    emplace-IsConsistent mem s n c = elim (Option-cases (find (hash mem) s)) [
      | inl e ↦ rw (e, emplace_if) (refl, n, e, c)
      | inr (old, e) ↦ rw (e, emplace_if) c
    ]

    get_memento-emplace :
        (j : ℕ) (mem : Pointer) (s : Storage)
        → mem ≢ nullptr
        → IsConsistent hash s
        → get_memento hash j (emplace (hash mem) mem s)
          ≡ (if hash mem == j then mem else get_memento hash j s)
    get_memento-emplace j mem s n c =
        let kept = emplace-IsConsistent mem s n c in
        elim (Option-cases (find (hash mem) s)) [
          | inl e ↦ ground (
            arith,
            get_memento-find j s c,
            get_memento-find j (emplace (hash mem) mem s) kept,
            find-emplace j (hash mem) mem s,
          )
          | inr (old, e) ↦ ground (
            arith,
            get_memento-find j s c,
            get_memento-find j (emplace (hash mem) mem s) kept,
            find-emplace j (hash mem) mem s,
            hash_injective old mem (find-hash hash (hash mem) s old c e).0,
          )
        ]

    -- `store` of a non-null memento succeeds with the memento's hash; that key then finds the
    -- memento, every other key what it found before, and the storage is still consistent. It
    -- assumes that the hash tells pointers apart.
    pub store_lem :
        (mem : Pointer) (s : Storage)
        → mem ≢ nullptr
        → IsConsistent hash s
        → (t : Storage) × (store hash mem s ≡ ok (hash mem, t))
          × ((j : ℕ) → get_memento hash j t ≡ (if hash mem == j then mem else get_memento hash j s))
          × IsConsistent hash t
    unfolding store
    store_lem mem s n c = (
      emplace (hash mem) mem s,
      ground arith,
      (λ j. get_memento-emplace j mem s n c),
      emplace-IsConsistent mem s n c,
    )
