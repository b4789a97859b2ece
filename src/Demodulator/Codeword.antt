-- ===== src/Demodulator/Codeword.antt =====
-- pusch_demodulator_mex.cpp: `pusch_codeword_buffer_spy`, which collects the soft bits of a codeword
-- block by block in the memory of the output array.
pub mod Collect
pub mod Deliver
pub mod Bounds
use srs_ran_matlab.Prelude.{
  ℕ, ◌+◌, ◌-◌, Bool, true, false, not, List, ◌++◌, ◌==◌, leb, length, take, drop, min,
  if◌then◌else◌,
}
use srs_ran_matlab.Mex.{Result, ok, err, assertion, assert, ◌>>=◌, ◌>>◌}
use srs_ran_matlab.Span.{u32, sub32}

-- A span by the address of its first element and the elements that stand there.
pub record View (Llr : Type 0) : Type 0 where
  pub address : ℕ
  pub values : List Llr

-- The members of the class: `soft_bits` is its `data`, with the address of the memory that it views.
pub record CodewordBuffer (Llr : Type 0) : Type 0 where
  pub completed : Bool
  pub base : ℕ
  pub soft_bits : List Llr
  pub count : ℕ

module _ {Llr : Type 0} where
  -- `span.subspan(offset, count)`
  subspan : ℕ → List Llr → ℕ → ℕ → Result (View Llr)
  subspan base bits offset count =
      if leb (offset + count) (length bits)
      then ok (record { address = base + offset; values = take count (drop offset bits) })
      else err (assertion "subspan")

  unfoldable pub get_data : CodewordBuffer Llr → Result (List Llr)
  get_data b = do assert b.completed "Data processing is not completed."; ok b.soft_bits

  unfoldable pub get_next_block_view : ℕ → CodewordBuffer Llr → Result (View Llr)
  unfolding subspan
  get_next_block_view block_size b = do
    assert (not b.completed) "Data processing is completed."
    subspan b.base b.soft_bits b.count (min block_size (sub32 (u32 (length b.soft_bits)) b.count))

  -- The elements from `offset` on are overwritten.
  unfoldable pub write_at : ℕ → List Llr → List Llr → List Llr
  write_at offset values bits = take offset bits ++ (values ++ drop (offset + length values) bits)

  -- `srsvec::copy(block, in_block)` for the block of the buffer's memory at `count`; the two have to
  -- be of one size.
  copy : View Llr → View Llr → CodewordBuffer Llr → Result (CodewordBuffer Llr)
  unfolding write_at
  copy block in_block b =
      if length block.values == length in_block.values
      then ok (record b { soft_bits = write_at b.count in_block.values b.soft_bits })
      else err (assertion "copy")

  copy_unless : Bool → View Llr → View Llr → CodewordBuffer Llr → Result (CodewordBuffer Llr)
  copy_unless true block in_block b = ok b
  copy_unless false block in_block b = copy block in_block b

  unfoldable pub on_new_block : View Llr → CodewordBuffer Llr → Result (CodewordBuffer Llr)
  unfolding copy copy_unless
  on_new_block in_block b = do
    assert (not b.completed) "Data processing is completed."
    assert (leb (length in_block.values + b.count) (length b.soft_bits))
        "The sum of the block size (i.e., {}) and the current count (i.e., {}) exceeds the data size (i.e., {})."
    block ← get_next_block_view (u32 (length in_block.values)) b
    b' ← copy_unless (block.address == in_block.address) block in_block b
    ok (record b' { count = u32 (b'.count + length in_block.values) })

  unfoldable pub on_end_codeword : CodewordBuffer Llr → Result (CodewordBuffer Llr)
  on_end_codeword b = do
    assert (not b.completed) "Data processing is completed."
    assert (length b.soft_bits == b.count) "Expected {} bits but only wrote {}."
    ok (record b { completed = true })
