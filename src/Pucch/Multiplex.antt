-- ===== src/Pucch/Multiplex.antt =====
-- pucch_processor_mex.cpp: which lists of multiplexed format 1 transmissions `call_processor` accepts,
-- and what the batch of an accepted list holds.
use srs_ran_matlab.Prelude.{ℕ, zero, suc, ◌+◌, ◌≡◌, refl, sym, ap, ◌∙◌, ◌↔◌, List, [], ◌∷◌, arith}
use srs_ran_matlab.Mex.{Matlab, ok, ◌>>=◌, >>=-eq-ok, ok-injective}
use srs_ran_matlab.Pucch.Config.{Format1Configuration}
use srs_ran_matlab.Pucch.Api.{PucchApi, IsBatch}
use srs_ran_matlab.Pucch.Processor.{Entry, read_entry, insert_entry, insert_entries}
use srs_ran_matlab.Pucch.Entries.{
  has, read_entries, read_entries-cons, read_entries-nil, IsAcceptable, IsNew, insert_all,
  insert_entry-ok, insert_entry-accepts, IsNew-insert, insert-IsNew, IsNew-clear, contains-inserted,
}

module _ (m : Matlab) {Grid : Type 0} (api : PucchApi Grid) (laws : IsBatch api) where
  open api use {Batch, contains, insert}

  insert_entries-cons :
      (mux_f1 : m.Array) (cfg : Format1Configuration) (left i : ℕ) (b : Batch) (e : Entry)
      → read_entry m mux_f1 i ≡ ok e
      → insert_entries m api mux_f1 cfg (suc left) i b
        ≡ (insert_entry api cfg e b >>= insert_entries m api mux_f1 cfg left (i + 1))
  unfolding insert_entries
  insert_entries-cons mux_f1 cfg left i b e h = rw h refl

  insert_entries_sound :
      (mux_f1 : m.Array) (cfg : Format1Configuration) (left i : ℕ) (b c : Batch) (es : List Entry)
      → read_entries m mux_f1 left i ≡ ok es
      → insert_entries m api mux_f1 cfg left i b ≡ ok c
      → IsAcceptable api cfg es × IsNew api b es × (insert_all api es b ≡ c)
  unfolding IsAcceptable IsNew has insert_entries read_entries insert_all
  insert_entries_sound mux_f1 cfg zero i b c [] r h = (tt, tt, ok-injective b c h)
  insert_entries_sound mux_f1 cfg zero i b c (e ∷ es) r h = ground arith
  insert_entries_sound mux_f1 cfg (suc left) i b c [] r h =
      let absurd = read_entries-nil m mux_f1 (suc left) i r in ground arith
  insert_entries_sound mux_f1 cfg (suc left) i b c (e ∷ es) r h =
      let read = read_entries-cons m mux_f1 left i e es r in
      let run =
        >>=-eq-ok (insert_entry api cfg e b) (insert_entries m api mux_f1 cfg left (i + 1))
          (sym (insert_entries-cons mux_f1 cfg left i b e read.0) ∙ h) in
      let one = insert_entry-ok api cfg e b run.0 run.1 in
      let rest =
        insert_entries_sound mux_f1 cfg left (i + 1) (insert b e.ics e.occi e.nof_harq_ack_bits) c
          es read.1 (ap (insert_entries m api mux_f1 cfg left (i + 1)) one.2 ∙ run.2) in
      let new = IsNew-insert api laws es b e.ics e.occi e.nof_harq_ack_bits rest.1 in
      ((one.0, new.0, rest.0), (one.1, new.1), rest.2)

  insert_entries_complete :
      (mux_f1 : m.Array) (cfg : Format1Configuration) (left i : ℕ) (b : Batch) (es : List Entry)
      → read_entries m mux_f1 left i ≡ ok es
      → IsAcceptable api cfg es
      → IsNew api b es
      → insert_entries m api mux_f1 cfg left i b ≡ ok (insert_all api es b)
  unfolding IsAcceptable IsNew has insert_entries read_entries insert_all
  insert_entries_complete mux_f1 cfg zero i b [] r a n = refl
  insert_entries_complete mux_f1 cfg zero i b (e ∷ es) r a n = ground arith
  insert_entries_complete mux_f1 cfg (suc left) i b [] r a n =
      let absurd = read_entries-nil m mux_f1 (suc left) i r in ground arith
  insert_entries_complete mux_f1 cfg (suc left) i b (e ∷ es) r (v, d, a) (k, n) =
      let read = read_entries-cons m mux_f1 left i e es r in
      insert_entries-cons mux_f1 cfg left i b e read.0
      ∙ ap (λ x. x >>= insert_entries m api mux_f1 cfg left (i + 1))
          (insert_entry-accepts api cfg e b v k)
      ∙ insert_entries_complete mux_f1 cfg left (i + 1) (insert b e.ics e.occi e.nof_harq_ack_bits)
          es read.1 a (insert-IsNew api laws es b e.ics e.occi e.nof_harq_ack_bits d n)

  -- A list of transmissions whose elements can be read is put into the batch exactly when every one
  -- is a valid configuration and no two have the same cyclic shift and orthogonal code. The batch is
  -- then the one that they are inserted into in their order, which contains the transmissions of the
  -- list and no other.
  pub insert_entries_iff :
      (mux_f1 : m.Array) (cfg : Format1Configuration) (size : ℕ) (b c : Batch) (es : List Entry)
      → read_entries m mux_f1 size 0 ≡ ok es
      → ((insert_entries m api mux_f1 cfg size 0 (api.clear b) ≡ ok c)
          ↔ (IsAcceptable api cfg es × (insert_all api es (api.clear b) ≡ c)))
        × ((j p : ℕ) → contains (insert_all api es (api.clear b)) j p ≡ has es j p)
  insert_entries_iff mux_f1 cfg size b c es r = (
    (
      λ h.
          let (acceptable, _, same) =
            insert_entries_sound mux_f1 cfg size 0 (api.clear b) c es r h in
          (acceptable, same),
      λ (acceptable, same).
          insert_entries_complete mux_f1 cfg size 0 (api.clear b) es r acceptable
            (IsNew-clear api laws b es)
          ∙ ap ok same,
    ),
    contains-inserted api laws es b,
  )
