-- ===== src/Demodulator/Codeword/Deliver.antt =====
-- pusch_demodulator_mex.cpp: a whole codeword through the codeword buffer.
use srs_ran_matlab.Prelude.{
  ℕ, ◌+◌, ◌≤◌, ◌<◌, ◌^◌, ◌≡◌, refl, sym, ◌∙◌, ap, subst, ◌⊎◌, true, false, List, [], ◌∷◌, ◌++◌,
  append-nil, append_assoc, length, take, drop, length-append, length-take, length-drop, take_all,
  leb, if◌then◌else◌, arith,
}
use srs_ran_matlab.Mex.{Result, ok, err, undefined, ◌>>=◌}
use srs_ran_matlab.Demodulator.Codeword.{
  View, CodewordBuffer, get_data, get_next_block_view, write_at, on_new_block, on_end_codeword,
}
use srs_ran_matlab.Demodulator.Codeword.Collect.{
  IsOpen, collected, length-write_at, take-write_at, read-write_at, next_block_view,
  on_new_block_elsewhere, on_new_block_in_place,
}

-- How a demodulator hands over the soft bits of a block: it writes them through the view that
-- `get_next_block_view` gave it, or it has them in memory of its own.
pub data Delivery (Llr : Type 0) : Type 0 where
  in_place : List Llr → Delivery Llr
  own_memory : ℕ → List Llr → Delivery Llr

module _ {Llr : Type 0} where
  abbrev pub values_of : Delivery Llr → List Llr
  values_of (in_place values) = values
  values_of (own_memory address values) = values

  abbrev pub all_values : List (Delivery Llr) → List Llr
  all_values [] = []
  all_values (d ∷ ds) = values_of d ++ all_values ds

  -- The demodulator's own memory lies outside the output array.
  abbrev pub IsOutside : ℕ → ℕ → Delivery Llr → Type 0
  IsOutside base size (in_place values) = Unit {0}
  IsOutside base size (own_memory address values) = (address < base) ⊎ (base + size < address)

  abbrev pub AreOutside : ℕ → ℕ → List (Delivery Llr) → Type 0
  AreOutside base size [] = Unit {0}
  AreOutside base size (d ∷ ds) = IsOutside base size d × AreOutside base size ds

  -- What the demodulator writes through a view is at most what the view spans.
  unfoldable pub write_through :
      View Llr → List Llr → CodewordBuffer Llr → Result (CodewordBuffer Llr)
  write_through view values b =
      if leb (length values) (length view.values)
      then ok (record b { soft_bits = write_at b.count values b.soft_bits })
      else err undefined

  unfoldable pub deliver : Delivery Llr → CodewordBuffer Llr → Result (CodewordBuffer Llr)
  unfolding write_through
  deliver (in_place values) b = do
    view ← get_next_block_view (length values) b
    written ← write_through view values b
    on_new_block
        (record {
          address = view.address;
          values = take (length values) (drop b.count written.soft_bits);
        })
        written
  deliver (own_memory address values) b =
      on_new_block (record { address = address; values = values }) b

  unfoldable pub deliver_all :
      List (Delivery Llr) → CodewordBuffer Llr → Result (CodewordBuffer Llr)
  deliver_all [] b = ok b
  deliver_all (d ∷ ds) b = deliver d b >>= deliver_all ds

  collected-IsOpen :
      (values : List Llr) (b : CodewordBuffer Llr)
      → IsOpen b
      → b.count + length values ≤ length b.soft_bits
      → IsOpen (collected values b)
  collected-IsOpen values b o fits =
      let size = length-write_at b.count values b.soft_bits fits in
      record { open? = o.open?; within = omega (arith, size); small = omega (arith, size, o.small) }

  deliver_lem :
      (d : Delivery Llr) (b : CodewordBuffer Llr)
      → IsOpen b
      → b.count + length (values_of d) ≤ length b.soft_bits
      → IsOutside b.base (length b.soft_bits) d
      → deliver d b ≡ ok (collected (values_of d) b)
  unfolding deliver
  deliver_lem (in_place values) b o fits out =
      let size = length-write_at b.count values b.soft_bits fits in
      let written : CodewordBuffer Llr = record b {
        soft_bits = write_at b.count values b.soft_bits;
      } in
      let opened : IsOpen written = record {
        open? = o.open?;
        within = omega (arith, size, o.within);
        small = omega (arith, size, o.small);
      } in
      let spans : leb (length values) (length (take (length values) (drop b.count b.soft_bits)))
          ≡ true =
        ground (
          arith,
          length-take (length values) (drop b.count b.soft_bits),
          length-drop b.count b.soft_bits,
        ) in
      rw
        (
          next_block_view b o (length values) fits,
          spans,
          read-write_at b.count values b.soft_bits fits,
        )
        (on_new_block_in_place written opened values (omega (arith, size)))
  deliver_lem (own_memory address values) b o fits out =
      on_new_block_elsewhere b o address values fits (λ e. ground (arith, out, o.within))

  deliver_all_lem :
      (ds : List (Delivery Llr)) (b : CodewordBuffer Llr)
      → IsOpen b
      → b.count + length (all_values ds) ≤ length b.soft_bits
      → AreOutside b.base (length b.soft_bits) ds
      → (c : CodewordBuffer Llr) × (deliver_all ds b ≡ ok c)
        × IsOpen c
        × (c.count ≡ b.count + length (all_values ds))
        × (length c.soft_bits ≡ length b.soft_bits)
        × (take c.count c.soft_bits ≡ take b.count b.soft_bits ++ all_values ds)
  unfolding deliver_all
  deliver_all_lem [] b o fits out = (b, refl, o, omega arith, refl, sym (append-nil _))
  deliver_all_lem (d ∷ ds) b o fits (out, outs) =
      let values = values_of d in
      let parts = length-append values (all_values ds) in
      let room : b.count + length values ≤ length b.soft_bits = omega (arith, parts) in
      let size = length-write_at b.count values b.soft_bits room in
      let (c, ran, opened, count, same, bits) =
        deliver_all_lem ds (collected values b) (collected-IsOpen values b o room)
          (omega (arith, parts, size)) (subst (λ n. AreOutside b.base n ds) (sym size) outs) in
      (
        c,
        ap (λ r. r >>= deliver_all ds) (deliver_lem d b o room out) ∙ ran,
        opened,
        omega (arith, parts, count),
        same ∙ size,
        bits
            ∙ ap (λ xs. xs ++ all_values ds) (take-write_at b.count values b.soft_bits room)
            ∙ append_assoc (take b.count b.soft_bits) values (all_values ds),
      )

  end_lem :
      (c : CodewordBuffer Llr)
      → c.completed ≡ false
      → length c.soft_bits ≡ c.count
      → (on_end_codeword c >>= get_data) ≡ ok c.soft_bits
  unfolding on_end_codeword get_data
  end_lem c o full = ground arith

  -- A demodulator that delivers as many soft bits as the output array has room for, block by block in
  -- place or from memory outside the array, ends the codeword without a failed assertion, and the
  -- array then holds exactly the delivered soft bits in their order. The array's size fits an
  -- `unsigned`.
  pub codeword_lem :
      (ds : List (Delivery Llr)) (base : ℕ) (memory : List Llr)
      → length memory < 2 ^ 32
      → length (all_values ds) ≡ length memory
      → AreOutside base (length memory) ds
      → (deliver_all ds (record { completed = false; base = base; soft_bits = memory; count = 0 })
          >>= λ b. on_end_codeword b >>= get_data)
        ≡ ok (all_values ds)
  codeword_lem ds base memory small full out =
      let start : CodewordBuffer Llr = record {
        completed = false;
        base = base;
        soft_bits = memory;
        count = 0;
      } in
      let opened : IsOpen start = record { open? = refl; within = omega arith; small = small } in
      let (c, ran, opened_c, count, same, bits) =
        deliver_all_lem ds start opened (omega (arith, full)) out in
      let whole : c.count ≡ length c.soft_bits = omega (arith, count, same, full) in
      rw ran (
        end_lem c opened_c.open? (sym whole)
        ∙ ap ok (sym (take_all c.soft_bits) ∙ ap (λ n. take n c.soft_bits) (sym whole) ∙ bits))
