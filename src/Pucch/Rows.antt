-- ===== src/Pucch/Rows.antt =====
-- pucch_processor_mex.cpp: the rows that `call_processor` returns for multiplexed format 1
-- transmissions.
use srs_ran_matlab.Prelude.{
  ℕ, zero, suc, ◌+◌, ◌≡◌, refl, sym, ap, ◌∙◌, ◌↔◌, subst, inl, inr, true, false, not, List, [], ◌∷◌,
  map, ◌==◌, arith, Bool-cases,
}
use srs_ran_matlab.Mex.{Matlab, ok, ◌>>=◌, >>=-eq-ok, ok-injective, abort_if-eq-ok}
use srs_ran_matlab.Pucch.Config.{Format1Configuration}
use srs_ran_matlab.Pucch.Api.{PucchApi, IsBatch}
use srs_ran_matlab.Pucch.Populate.{populate_f1_configuration}
use srs_ran_matlab.Pucch.Processor.{
  Entry, MultiplexedRow, Output, multiplexed, read_entry, field_at, row_of, insert_entries,
  output_rows, process_multiplexed,
}
use srs_ran_matlab.Pucch.Reported.{reported, payloads-reported}
use srs_ran_matlab.Pucch.Entries.{
  read_entries, read_entries-cons, read_entries-nil, IsAcceptable, insert_all,
}
use srs_ran_matlab.Pucch.Multiplex.{insert_entries_iff}

-- The row of an entry: what the processor found for its cyclic shift and code.
unfoldable pub entry_row :
    {Grid : Type 0} (api : PucchApi Grid) → api.BatchResults → Entry → MultiplexedRow
entry_row api results e = record {
  initial_cyclic_shift = e.ics;
  occi = e.occi;
  payloads = reported api (api.results_get results e.ics e.occi);
}

module _ (m : Matlab) {Grid : Type 0} (api : PucchApi Grid) where
  -- The results have one for every entry.
  unfoldable pub AreFound : api.BatchResults → List Entry → Type 0
  AreFound results [] = Unit {0}
  AreFound results (e ∷ es) =
      (api.results_contain results e.ics e.occi ≡ true) × AreFound results es

  row_of-found :
      (results : api.BatchResults) (e : Entry)
      → api.results_contain results e.ics e.occi ≡ true
      → row_of api e.ics e.occi results ≡ ok (entry_row api results e)
  unfolding row_of entry_row
  row_of-found results e found = rw found (
      ap (λ p. ok (record { initial_cyclic_shift = e.ics; occi = e.occi; payloads = p }))
        (payloads-reported api (api.results_get results e.ics e.occi)))

  row_of-ok :
      (results : api.BatchResults) (e : Entry) (row : MultiplexedRow)
      → row_of api e.ics e.occi results ≡ ok row
      → (api.results_contain results e.ics e.occi ≡ true) × (entry_row api results e ≡ row)
  unfolding row_of
  row_of-ok results e row h = elim (Bool-cases (api.results_contain results e.ics e.occi)) [
    | inl k ↦ (k, ok-injective _ row (sym (row_of-found results e k) ∙ h))
    | inr k ↦ ground arith
  ]

  read_entry-ok :
      (mux_f1 : m.Array) (i : ℕ) (e : Entry)
      → read_entry m mux_f1 i ≡ ok e
      → (ics : m.Number) × (occi : m.Number) × (field_at m mux_f1 i "InitialCyclicShift" ≡ ok ics)
        × (field_at m mux_f1 i "OCCI" ≡ ok occi)
        × (m.as_unsigned ics ≡ e.ics)
        × (m.as_unsigned occi ≡ e.occi)
  unfolding read_entry
  read_entry-ok mux_f1 i e h =
      let x = >>=-eq-ok (field_at m mux_f1 i "InitialCyclicShift") _ h in
      let y = >>=-eq-ok (field_at m mux_f1 i "OCCI") _ x.2 in
      let z = >>=-eq-ok (field_at m mux_f1 i "NumBits") _ y.2 in
      let same = ok-injective _ e z.2 in
      (x.0, y.0, x.1, y.1, ap (λ e. e.ics) same, ap (λ e. e.occi) same)

  -- Where an element can be read, its row is that of the entry.
  output_rows-cons :
      (mux_f1 : m.Array) (results : api.BatchResults) (left i : ℕ) (e : Entry)
      → read_entry m mux_f1 i ≡ ok e
      → output_rows m api mux_f1 results (suc left) i ≡ (
          row_of api e.ics e.occi results >>= λ row.
          output_rows m api mux_f1 results left (i + 1) >>= λ rows. ok (row ∷ rows))
  unfolding output_rows
  output_rows-cons mux_f1 results left i e h =
      let read = read_entry-ok mux_f1 i e h in rw (read.2, read.3, read.4, read.5) refl

  output_rows_sound :
      (mux_f1 : m.Array) (results : api.BatchResults) (left i : ℕ) (es : List Entry)
      (rows : List MultiplexedRow)
      → read_entries m mux_f1 left i ≡ ok es
      → output_rows m api mux_f1 results left i ≡ ok rows
      → AreFound results es × (rows ≡ map (entry_row api results) es)
  unfolding output_rows read_entries AreFound
  output_rows_sound mux_f1 results zero i [] rows r h = (tt, ground arith)
  output_rows_sound mux_f1 results zero i (e ∷ es) rows r h = ground arith
  output_rows_sound mux_f1 results (suc left) i [] rows r h =
      let absurd = read_entries-nil m mux_f1 (suc left) i r in ground arith
  output_rows_sound mux_f1 results (suc left) i (e ∷ es) rows r h =
      let read = read_entries-cons m mux_f1 left i e es r in
      let run =
        >>=-eq-ok (row_of api e.ics e.occi results)
          (λ row. output_rows m api mux_f1 results left (i + 1) >>= λ rows. ok (row ∷ rows))
          (sym (output_rows-cons mux_f1 results left i e read.0) ∙ h) in
      let one = row_of-ok results e run.0 run.1 in
      let tail =
        >>=-eq-ok (output_rows m api mux_f1 results left (i + 1)) (λ rows. ok (run.0 ∷ rows))
          run.2 in
      let rest = output_rows_sound mux_f1 results left (i + 1) es tail.0 read.1 tail.1 in
      let same : entry_row api results e ≡ run.0 = one.1 in
      let others : tail.0 ≡ map (entry_row api results) es = rest.1 in ((one.0, rest.0), cc)

  output_rows_complete :
      (mux_f1 : m.Array) (results : api.BatchResults) (left i : ℕ) (es : List Entry)
      → read_entries m mux_f1 left i ≡ ok es
      → AreFound results es
      → output_rows m api mux_f1 results left i ≡ ok (map (entry_row api results) es)
  unfolding output_rows read_entries AreFound
  output_rows_complete mux_f1 results zero i [] r found = refl
  output_rows_complete mux_f1 results zero i (e ∷ es) r found = ground arith
  output_rows_complete mux_f1 results (suc left) i [] r found =
      let absurd = read_entries-nil m mux_f1 (suc left) i r in ground arith
  output_rows_complete mux_f1 results (suc left) i (e ∷ es) r (here, there) =
      let read = read_entries-cons m mux_f1 left i e es r in
      output_rows-cons mux_f1 results left i e read.0
      ∙ rw
          (
            row_of-found results e here,
            output_rows_complete mux_f1 results left (i + 1) es read.1 there,
          )
          refl

-- What the processor finds for the batch of the entries.
abbrev results_of :
    {Grid : Type 0} (api : PucchApi Grid) (grid : Grid) (es : List Entry)
    → Format1Configuration
    → api.BatchResults
results_of api grid es cfg = api.process1 grid (insert_all api es (api.clear (api.batch_of cfg)))

module _ (m : Matlab) {Grid : Type 0} (api : PucchApi Grid) (grid : Grid) (in_cfg : m.Array)
    (size : ℕ) (es : List Entry) (out : Output) where
  -- A configuration for which every entry is valid, no two entries are for the same cyclic shift and
  -- code, and the processor finds as many results as there are elements, one for every entry. The
  -- output has the results in the order of the list.
  pub record IsMultiplexed : Type 0 where
    pub cfg : Format1Configuration
    pub populated : populate_f1_configuration m in_cfg ≡ ok cfg
    pub acceptable : IsAcceptable api cfg es
    pub as_many : api.results_size (results_of api grid es cfg) ≡ size
    pub found : AreFound m api (results_of api grid es cfg) es
    pub rows : out ≡ multiplexed (map (entry_row api (results_of api grid es cfg)) es)

module _ (m : Matlab) {Grid : Type 0} (api : PucchApi Grid) (laws : IsBatch api) (grid : Grid)
    (in_cfg mux_f1 : m.Array) (size : ℕ) (es : List Entry) (out : Output) where
  multiplexed_sound :
      read_entries m mux_f1 size 0 ≡ ok es
      → process_multiplexed m api grid in_cfg mux_f1 size ≡ ok out
      → IsMultiplexed m api grid in_cfg size es out
  unfolding process_multiplexed
  multiplexed_sound r h =
      let (cfg, populated, h1) = >>=-eq-ok (populate_f1_configuration m in_cfg) _ h in
      let start = api.clear (api.batch_of cfg) in
      let (batch, inserted, h2) = >>=-eq-ok (insert_entries m api mux_f1 cfg size 0 start) _ h1 in
      let (acceptable, same) =
        (insert_entries_iff m api laws mux_f1 cfg size (api.batch_of cfg) batch es r).0.0
          inserted in
      let (equal, h3) =
        abort_if-eq-ok (not (api.results_size (api.process1 grid batch) == size)) _ _ _ h2 in
      let (rows, written, h4) =
        >>=-eq-ok (output_rows m api mux_f1 (api.process1 grid batch) size 0) _ h3 in
      let results : results_of api grid es cfg ≡ api.process1 grid batch =
        ap (api.process1 grid) same in
      let (found, are_rows) =
        output_rows_sound m api mux_f1 (api.process1 grid batch) size 0 es rows r written in
      record {
        cfg = cfg;
        populated = populated;
        acceptable = acceptable;
        as_many = ap api.results_size results ∙ ground (arith, equal);
        found = subst (λ x. AreFound m api x es) (sym results) found;
        rows =
            sym (ok-injective _ out h4)
            ∙ ap multiplexed (are_rows ∙ ap (λ x. map (entry_row api x) es) (sym results));
      }

  multiplexed_complete :
      read_entries m mux_f1 size 0 ≡ ok es
      → IsMultiplexed m api grid in_cfg size es out
      → process_multiplexed m api grid in_cfg mux_f1 size ≡ ok out
  unfolding process_multiplexed
  multiplexed_complete r p =
      let inserted =
        (insert_entries_iff m api laws mux_f1 p.cfg size (api.batch_of p.cfg) _ es r).0.1
          (p.acceptable, refl) in
      let equal : (not (api.results_size (results_of api grid es p.cfg) == size)) ≡ false =
        ground (arith, p.as_many) in
      rw
        (
          p.populated,
          inserted,
          equal,
          output_rows_complete m api mux_f1 (results_of api grid es p.cfg) size 0 es r p.found,
        )
        (ap ok (sym p.rows))

  -- The multiplexed branch, where the elements of the list can be read: it returns exactly when the
  -- configuration can be read, every transmission of the list is valid and distinct from the others,
  -- and the processor finds as many results as the list has elements, one for each of them. It then
  -- returns for every element, in the order of the list, the result for its cyclic shift and code in
  -- the batch of these transmissions.
  pub process_multiplexed_iff :
      read_entries m mux_f1 size 0 ≡ ok es
      → (process_multiplexed m api grid in_cfg mux_f1 size ≡ ok out)
        ↔ IsMultiplexed m api grid in_cfg size es out
  process_multiplexed_iff r = (multiplexed_sound r, multiplexed_complete r)
