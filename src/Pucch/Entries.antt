-- ===== src/Pucch/Entries.antt =====
-- pucch_processor_mex.cpp: the elements of a list of multiplexed format 1 transmissions, and the batch
-- that they are inserted into.
use srs_ran_matlab.Prelude.{
  ℕ, zero, suc, ◌+◌, ◌≡◌, refl, sym, ap, ◌∙◌, inl, inr, Bool, true, false, ◌&&◌, ◌||◌, List, [],
  ◌∷◌, none, ◌==◌, arith, Bool-cases, Option-cases,
}
use srs_ran_matlab.Mex.{Matlab, Result, ok, ◌>>=◌, Result-cases}
use srs_ran_matlab.Pucch.Config.{Format1Configuration}
use srs_ran_matlab.Pucch.Api.{PucchApi, IsBatch}
use srs_ran_matlab.Pucch.Processor.{Entry, with_entry, check_validation, read_entry, insert_entry}

-- Whether an entry has this cyclic shift and this orthogonal code.
unfoldable pub has : List Entry → ℕ → ℕ → Bool
has [] ics occi = false
has (e ∷ es) ics occi = (e.ics == ics) && (e.occi == occi) || has es ics occi

unfoldable pub read_entries : (m : Matlab) → m.Array → ℕ → ℕ → Result (List Entry)
read_entries m mux_f1 zero i = ok []
read_entries m mux_f1 (suc left) i = do
  e ← read_entry m mux_f1 i
  es ← read_entries m mux_f1 left (i + 1)
  ok (e ∷ es)

same_key : (i j o p : ℕ) → ((i == j) && (o == p)) ≡ ((j == i) && (p == o))
same_key i j o p = ground arith

swap : (a b c : Bool) → (b || (a || c)) ≡ (a || b || c)
swap true true c = refl
swap true false c = refl
swap false b c = refl

pub or-false : (a : Bool) → (a || false) ≡ a
or-false true = refl
or-false false = refl

or_false : (a b : Bool) → (a || b) ≡ false → (a ≡ false) × (b ≡ false)
or_false true b h = cc
or_false false b h = (refl, h)

module _ {Grid : Type 0} (api : PucchApi Grid) where
  open api use {Batch, contains, insert, is_valid1}

  -- Every entry is a valid configuration, and no two have the same cyclic shift and code.
  unfoldable pub IsAcceptable : Format1Configuration → List Entry → Type 0
  IsAcceptable cfg [] = Unit
  IsAcceptable cfg (e ∷ es) =
      (is_valid1 (with_entry e cfg) ≡ none) × (has es e.ics e.occi ≡ false) × IsAcceptable cfg es

  -- No entry is in the batch yet.
  unfoldable pub IsNew : Batch → List Entry → Type 0
  IsNew batch [] = Unit
  IsNew batch (e ∷ es) = (contains batch e.ics e.occi ≡ false) × IsNew batch es

  -- The batch with the entries of a list, inserted one after the other.
  unfoldable pub insert_all : List Entry → Batch → Batch
  insert_all [] batch = batch
  insert_all (e ∷ es) batch = insert_all es (insert batch e.ics e.occi e.nof_harq_ack_bits)

  pub insert_entry-ok :
      (cfg : Format1Configuration) (e : Entry) (b c : Batch)
      → insert_entry api cfg e b ≡ ok c
      → (is_valid1 (with_entry e cfg) ≡ none)
        × (contains b e.ics e.occi ≡ false)
        × (insert b e.ics e.occi e.nof_harq_ack_bits ≡ c)
  unfolding insert_entry check_validation
  insert_entry-ok cfg e b c h = elim (Option-cases (is_valid1 (with_entry e cfg))) [
    | inl v ↦ elim (Bool-cases (contains b e.ics e.occi)) [
      | inl k ↦ ground arith
      | inr k ↦ ground arith
    ]
    | inr v ↦ ground arith
  ]

  pub insert_entry-accepts :
      (cfg : Format1Configuration) (e : Entry) (b : Batch)
      → is_valid1 (with_entry e cfg) ≡ none
      → contains b e.ics e.occi ≡ false
      → insert_entry api cfg e b ≡ ok (insert b e.ics e.occi e.nof_harq_ack_bits)
  unfolding insert_entry check_validation
  insert_entry-accepts cfg e b v k = rw (v, k) refl

module _ {Grid : Type 0} (api : PucchApi Grid) (laws : IsBatch api) where
  open api use {Batch, contains, insert, is_valid1}

  pub IsNew-insert :
      (es : List Entry) (b : Batch) (i o n : ℕ)
      → IsNew api (insert b i o n) es
      → (has es i o ≡ false) × IsNew api b es
  unfolding has IsNew
  IsNew-insert [] b i o n new = (refl, tt)
  IsNew-insert (e ∷ es) b i o n (h, new) =
      let rest = IsNew-insert es b i o n new in
      let split =
        or_false ((i == e.ics) && (o == e.occi)) (contains b e.ics e.occi)
          (sym (laws.contains-insert b i o n e.ics e.occi) ∙ h) in
      (rw (sym (same_key i e.ics o e.occi), split.0) rest.0, (split.1, rest.1))

  pub insert-IsNew :
      (es : List Entry) (b : Batch) (i o n : ℕ)
      → has es i o ≡ false
      → IsNew api b es
      → IsNew api (insert b i o n) es
  unfolding has IsNew
  insert-IsNew [] b i o n h new = tt
  insert-IsNew (e ∷ es) b i o n h (k, new) =
      let split = or_false ((e.ics == i) && (e.occi == o)) (has es i o) h in
      (
        rw (laws.contains-insert b i o n e.ics e.occi, same_key i e.ics o e.occi, split.0) k,
        insert-IsNew es b i o n split.1 new,
      )

  -- The entry is in a batch that it is inserted into, and so is what was in it before.
  contains_cons :
      (e : Entry) (es : List Entry) (b : Batch) (j p : ℕ)
      → (has es j p || contains (insert b e.ics e.occi e.nof_harq_ack_bits) j p)
        ≡ (has (e ∷ es) j p || contains b j p)
  unfolding has
  contains_cons e es b j p =
      rw (laws.contains-insert b e.ics e.occi e.nof_harq_ack_bits j p)
        (swap ((e.ics == j) && (e.occi == p)) (has es j p) (contains b j p))

  contains-insert_all :
      (es : List Entry) (b : Batch) (j p : ℕ)
      → contains (insert_all api es b) j p ≡ (has es j p || contains b j p)
  unfolding has insert_all
  contains-insert_all [] b j p = refl
  contains-insert_all (e ∷ es) b j p =
      contains-insert_all es (insert b e.ics e.occi e.nof_harq_ack_bits) j p
      ∙ contains_cons e es b j p

  pub contains-inserted :
      (es : List Entry) (b : Batch) (j p : ℕ)
      → contains (insert_all api es (api.clear b)) j p ≡ has es j p
  contains-inserted es b j p =
      contains-insert_all es (api.clear b) j p
      ∙ ap (λ x. has es j p || x) (laws.contains-clear b j p)
      ∙ or-false (has es j p)

  pub IsNew-clear : (b : Batch) (es : List Entry) → IsNew api (api.clear b) es
  unfolding IsNew
  IsNew-clear b [] = tt
  IsNew-clear b (e ∷ es) = (laws.contains-clear b e.ics e.occi, IsNew-clear b es)

module _ (m : Matlab) where
  pub read_entries-cons :
      (mux_f1 : m.Array) (left i : ℕ) (e : Entry) (es : List Entry)
      → read_entries m mux_f1 (suc left) i ≡ ok (e ∷ es)
      → (read_entry m mux_f1 i ≡ ok e) × (read_entries m mux_f1 left (i + 1) ≡ ok es)
  unfolding read_entries
  read_entries-cons mux_f1 left i e es h = elim (Result-cases (read_entry m mux_f1 i)) [
    | inl (x, k) ↦ ground arith
    | inr (x, k) ↦ elim (Result-cases (read_entries m mux_f1 left (i + 1))) [
      | inl (y, l) ↦ ground arith
      | inr (y, l) ↦ ground arith
    ]
  ]

  pub read_entries-nil :
      (mux_f1 : m.Array) (left i : ℕ) → read_entries m mux_f1 left i ≡ ok [] → left ≡ 0
  unfolding read_entries
  read_entries-nil mux_f1 zero i h = refl
  read_entries-nil mux_f1 (suc left) i h = elim (Result-cases (read_entry m mux_f1 i)) [
    | inl (x, k) ↦ ground arith
    | inr (x, k) ↦ elim (Result-cases (read_entries m mux_f1 left (i + 1))) [
      | inl (y, l) ↦ ground arith
      | inr (y, l) ↦ ground arith
    ]
  ]
