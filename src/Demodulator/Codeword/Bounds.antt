-- ===== src/Demodulator/Codeword/Bounds.antt =====
-- pusch_demodulator_mex.cpp: the codeword buffer never writes outside the output array, whatever it is
-- called with.
use srs_ran_matlab.Prelude.{
  ℕ, ◌+◌, ◌≤◌, ◌<◌, ◌^◌, ◌≡◌, refl, sym, ap, ◌∙◌, Bool, true, false, not, List, length, take, drop,
  length-take, length-drop, min, leb, ◌==◌, arith, String, inl, inr, Bool-cases, if◌then◌else◌,
}
use srs_ran_matlab.Mex.{Result, ok, err, undefined, assert, ok-injective, >>=-eq-ok, ◌>>◌}
use srs_ran_matlab.Span.{u32, sub32}
use srs_ran_matlab.Demodulator.Codeword.{
  View, CodewordBuffer, get_next_block_view, write_at, on_new_block, on_end_codeword, copy,
  copy_unless, subspan,
}
use srs_ran_matlab.Demodulator.Codeword.Collect.{length-write_at}
use srs_ran_matlab.Demodulator.Codeword.Deliver.{
  Delivery, in_place, own_memory, values_of, deliver, write_through,
}

-- An assertion that the code goes on from holds.
pub assert-eq-ok {κ} :
    {B : Type κ} (test : Bool) (message : String) (rest : Result B) {b : B}
    → (assert test message >> rest) ≡ ok b
    → (test ≡ true) × (rest ≡ ok b)
assert-eq-ok true message rest h = (refl, h)
assert-eq-ok false message rest h = cc

module _ {Llr : Type 0} (n : ℕ) (small : n < 2 ^ 32) where
  -- The memory has its `n` elements, and no more than those are counted.
  pub record IsBounded (b : CodewordBuffer Llr) : Type 0 where
    pub size : length b.soft_bits ≡ n
    pub within : b.count ≤ n
    pub full : b.completed ≡ true → b.count ≡ n

  copy-length :
      (block in_block : View Llr) (b c : CodewordBuffer Llr)
      → b.count + length in_block.values ≤ length b.soft_bits
      → copy block in_block b ≡ ok c
      → (length c.soft_bits ≡ length b.soft_bits)
        × (c.count ≡ b.count)
        × (c.completed ≡ b.completed)
  unfolding copy
  copy-length block in_block b c fits h =
      ground (arith, length-write_at b.count in_block.values b.soft_bits fits)

  copy_unless-length :
      (same : Bool) (block in_block : View Llr) (b c : CodewordBuffer Llr)
      → b.count + length in_block.values ≤ length b.soft_bits
      → copy_unless same block in_block b ≡ ok c
      → (length c.soft_bits ≡ length b.soft_bits)
        × (c.count ≡ b.count)
        × (c.completed ≡ b.completed)
  unfolding copy_unless
  copy_unless-length true block in_block b c fits h = ground arith
  copy_unless-length false block in_block b c fits h = copy-length block in_block b c fits h

  -- The buffer takes `k` more elements.
  pub record Takes (k : ℕ) (b c : CodewordBuffer Llr) : Type 0 where
    pub open_before : b.completed ≡ false
    pub open_after : c.completed ≡ false
    pub counted : c.count ≡ b.count + k
    pub bounded : IsBounded c

  on_new_block-Takes :
      (v : View Llr) (b c : CodewordBuffer Llr)
      → IsBounded b
      → on_new_block v b ≡ ok c
      → Takes (length v.values) b c
  unfolding on_new_block
  on_new_block-Takes v b c bounded h =
      let k = length v.values in
      let (opened, h1) = assert-eq-ok (not b.completed) "Data processing is completed." _ h in
      let (room, h2) =
        assert-eq-ok (leb (k + b.count) (length b.soft_bits))
          "The sum of the block size (i.e., {}) and the current count (i.e., {}) exceeds the data size (i.e., {})."
          _ h1 in
      let (block, viewed, h3) = >>=-eq-ok (get_next_block_view (u32 k) b) _ h2 in
      let (b', copied, h4) = >>=-eq-ok (copy_unless (block.address == v.address) block v b) _ h3 in
      let fits : b.count + k ≤ length b.soft_bits = ground (arith, room) in
      let (size, count, completed) =
        copy_unless-length (block.address == v.address) block v b b' fits copied in
      let made : record b' { count = u32 (b'.count + k) } ≡ c = ok-injective _ c h4 in
      let open_b : b.completed ≡ false = ground (arith, opened) in
      let size_c : length c.soft_bits ≡ n =
        ap (λ (x : CodewordBuffer Llr). length x.soft_bits) (sym made) ∙ size ∙ bounded.size in
      let open_c : c.completed ≡ false =
        ap (λ (x : CodewordBuffer Llr). x.completed) (sym made) ∙ completed ∙ open_b in
      let below : b.count + k ≤ n = omega (arith, fits, bounded.size) in
      let count_c : c.count ≡ b.count + k =
        ap (λ (x : CodewordBuffer Llr). x.count) (sym made)
        ∙ ap (λ x. u32 (x + k)) count
        ∙ omega (arith, below, small) in
      record {
        open_before = open_b;
        open_after = open_c;
        counted = count_c;
        bounded = record {
          size = size_c;
          within = omega (arith, count_c, below);
          full = λ e. ground (arith, open_c, e);
        };
      }

  view-length :
      (k : ℕ) (b : CodewordBuffer Llr) (view : View Llr)
      → b.count ≤ length b.soft_bits
      → get_next_block_view k b ≡ ok view
      → b.count + length view.values ≤ length b.soft_bits
  unfolding get_next_block_view subspan
  view-length k b view h e =
      let size = min k (sub32 (u32 (length b.soft_bits)) b.count) in
      ground
        (arith, length-take size (drop b.count b.soft_bits), length-drop b.count b.soft_bits, h, e)

  write_through-ok :
      (view : View Llr) (values : List Llr) (b c : CodewordBuffer Llr)
      → write_through view values b ≡ ok c
      → (length values ≤ length view.values)
        × (record b { soft_bits = write_at b.count values b.soft_bits } ≡ c)
  unfolding write_through
  write_through-ok view values b c h =
      elim (Bool-cases (leb (length values) (length view.values))) [
        | inr over ↦ absurd (grind arith)
        | inl within ↦
            let written : CodewordBuffer Llr = record b {
              soft_bits = write_at b.count values b.soft_bits;
            } in
            let made : (if leb (length values) (length view.values)
                  then ok written
                  else err undefined)
                ≡ ok written =
              rw within refl in
            (ground (arith, within), ok-injective written c (sym made ∙ h))
      ]

  pub deliver-Takes :
      (d : Delivery Llr) (b c : CodewordBuffer Llr)
      → IsBounded b
      → deliver d b ≡ ok c
      → Takes (length (values_of d)) b c
  unfolding deliver
  deliver-Takes (own_memory address values) b c bounded h =
      on_new_block-Takes (record { address = address; values = values }) b c bounded h
  deliver-Takes (in_place values) b c bounded h =
      let (view, viewed, h1) = >>=-eq-ok (get_next_block_view (length values) b) _ h in
      let (written, wrote, h2) = >>=-eq-ok (write_through view values b) _ h1 in
      let (fewer, same) = write_through-ok view values b written wrote in
      let spans =
        view-length (length values) b view (omega (arith, bounded.size, bounded.within)) viewed in
      let fits : b.count + length values ≤ length b.soft_bits = omega (arith, fewer, spans) in
      let size : length written.soft_bits ≡ length b.soft_bits =
        ap (λ (x : CodewordBuffer Llr). length x.soft_bits) (sym same)
        ∙ length-write_at b.count values b.soft_bits fits in
      let count : written.count ≡ b.count = ap (λ (x : CodewordBuffer Llr). x.count) (sym same) in
      let completed : written.completed ≡ b.completed =
        ap (λ (x : CodewordBuffer Llr). x.completed) (sym same) in
      let block = take (length values) (drop b.count written.soft_bits) in
      let block_size : length block ≡ length values = omega (
        arith,
        length-take (length values) (drop b.count written.soft_bits),
        length-drop b.count written.soft_bits,
        size,
        fits,
      ) in
      let taken =
        on_new_block-Takes (record { address = view.address; values = block }) written c
          (record {
            size = size ∙ bounded.size;
            within = omega (arith, count, bounded.within);
            full = λ e. count ∙ bounded.full (sym completed ∙ e);
          })
          h2 in
      record {
        open_before = sym completed ∙ taken.open_before;
        open_after = taken.open_after;
        counted = omega (arith, taken.counted, count, block_size);
        bounded = taken.bounded;
      }

  -- The end of a codeword finds the memory full.
  pub on_end_codeword-ok :
      (b c : CodewordBuffer Llr)
      → IsBounded b
      → on_end_codeword b ≡ ok c
      → (b.completed ≡ false) × (c.completed ≡ true) × (c.count ≡ b.count) × IsBounded c
  unfolding on_end_codeword
  on_end_codeword-ok b c bounded h =
      let (opened, h1) = assert-eq-ok (not b.completed) "Data processing is completed." _ h in
      let (whole, h2) =
        assert-eq-ok (length b.soft_bits == b.count) "Expected {} bits but only wrote {}." _ h1 in
      let made : record b { completed = true } ≡ c = ok-injective _ c h2 in
      let size : length c.soft_bits ≡ n =
        ap (λ (x : CodewordBuffer Llr). length x.soft_bits) (sym made) ∙ bounded.size in
      let count : c.count ≡ b.count = ap (λ (x : CodewordBuffer Llr). x.count) (sym made) in
      let filled : length b.soft_bits ≡ b.count = ground (arith, whole) in
      let completed : c.completed ≡ true =
        ap (λ (x : CodewordBuffer Llr). x.completed) (sym made) in
      (
        ground (arith, opened),
        completed,
        count,
        record {
          size = size;
          within = omega (arith, count, bounded.within);
          full = λ _. omega (arith, count, filled, bounded.size);
        },
      )
