-- ===== src/Demodulator/Codeword/Collect.antt =====
-- pusch_demodulator_mex.cpp: the soft bits that a codeword buffer holds after the demodulator has
-- delivered its blocks, in place or from memory of its own.
use srs_ran_matlab.Prelude.{
  ℕ, ◌+◌, ◌≤◌, ◌<◌, ◌^◌, ◌≡◌, sym, ◌∙◌, ap, ◌≢◌, true, false, List, ◌++◌, append_assoc, length,
  take, drop, length-take, length-drop, length-append, take-append, drop-append, min, arith, ◌==◌,
  leb, String, not,
}
use srs_ran_matlab.Mex.{ok, assert}
use srs_ran_matlab.Span.{u32, sub32}
use srs_ran_matlab.Demodulator.Codeword.{
  CodewordBuffer, get_next_block_view, write_at, on_new_block,
}

module _ {Llr : Type 0} where
  -- The bits collected so far are a prefix of the memory, whose size fits an `unsigned`.
  pub record IsOpen (b : CodewordBuffer Llr) : Type 0 where
    pub open? : b.completed ≡ false
    pub within : b.count ≤ length b.soft_bits
    pub small : length b.soft_bits < 2 ^ 32

  module _ (k : ℕ) (xs bits : List Llr) (fits : k + length xs ≤ length bits) where
    length-prefix : length (take k bits) ≡ k
    length-prefix = omega (arith, length-take k bits)

    pub length-write_at : length (write_at k xs bits) ≡ length bits
    unfolding write_at
    length-write_at = omega (
      arith,
      length-append (take k bits) (xs ++ drop (k + length xs) bits),
      length-append xs (drop (k + length xs) bits),
      length-drop (k + length xs) bits,
      length-prefix,
    )

    -- What is written stands where it was written, behind what stood there.
    pub take-write_at : take (k + length xs) (write_at k xs bits) ≡ take k bits ++ xs
    unfolding write_at
    take-write_at =
        let rest = drop (k + length xs) bits in
        ap (take (k + length xs)) (sym (append_assoc (take k bits) xs rest))
        ∙ ap (λ n. take n ((take k bits ++ xs) ++ rest)) {x = k + length xs}
            {y = length (take k bits ++ xs)}
            (omega (arith, length-append (take k bits) xs, length-prefix))
        ∙ take-append (take k bits ++ xs) rest

    pub read-write_at : take (length xs) (drop k (write_at k xs bits)) ≡ xs
    unfolding write_at
    read-write_at =
        let rest = drop (k + length xs) bits in
        ap (take (length xs)) (
          ap (λ n. drop n (take k bits ++ (xs ++ rest))) (sym length-prefix)
          ∙ drop-append (take k bits) (xs ++ rest))
        ∙ take-append xs rest

  -- The buffer after `values` have been collected.
  abbrev pub collected : List Llr → CodewordBuffer Llr → CodewordBuffer Llr
  collected values b = record b {
    soft_bits = write_at b.count values b.soft_bits;
    count = b.count + length values;
  }

  module _ (b : CodewordBuffer Llr) (o : IsOpen b) where
    assert_open : (message : String) → assert (not b.completed) message ≡ ok tt
    assert_open message = rw o.open?

    pub next_block_view :
        (n : ℕ)
        → b.count + n ≤ length b.soft_bits
        → get_next_block_view n b
          ≡ ok (record { address = b.base + b.count; values = take n (drop b.count b.soft_bits) })
    unfolding get_next_block_view
    next_block_view n fits =
        let size : min n (sub32 (u32 (length b.soft_bits)) b.count) ≡ n =
          omega (arith, o.within, o.small) in
        rw (o.open?, size) (ground arith)

    pub on_new_block_elsewhere :
        (address : ℕ) (values : List Llr)
        → b.count + length values ≤ length b.soft_bits
        → address ≢ b.base + b.count
        → on_new_block (record { address = address; values = values }) b ≡ ok (collected values b)
    unfolding on_new_block
    on_new_block_elsewhere address values fits apart =
        let room : leb (length values + b.count) (length b.soft_bits) ≡ true = ground arith in
        let size : u32 (length values) ≡ length values = omega (arith, o.within, o.small) in
        let total : u32 (b.count + length values) ≡ b.count + length values =
          omega (arith, o.small) in
        let other : ((b.base + b.count) == address) ≡ false = ground arith in
        let same : (length (take (length values) (drop b.count b.soft_bits)) == length values)
            ≡ true =
          ground (
            arith,
            length-take (length values) (drop b.count b.soft_bits),
            length-drop b.count b.soft_bits,
          ) in
        rw
          (
            assert_open "Data processing is completed.",
            room,
            size,
            next_block_view (length values) fits,
            other,
          )
          (rw same (rw total))

    pub on_new_block_in_place :
        (values : List Llr)
        → b.count + length values ≤ length b.soft_bits
        → on_new_block (record { address = b.base + b.count; values = values }) b
          ≡ ok (record b { count = b.count + length values })
    unfolding on_new_block
    on_new_block_in_place values fits =
        let room : leb (length values + b.count) (length b.soft_bits) ≡ true = ground arith in
        let size : u32 (length values) ≡ length values = omega (arith, o.within, o.small) in
        let total : u32 (b.count + length values) ≡ b.count + length values =
          omega (arith, o.small) in
        let here : ((b.base + b.count) == (b.base + b.count)) ≡ true = ground arith in
        rw
          (
            assert_open "Data processing is completed.",
            room,
            size,
            next_block_view (length values) fits,
            here,
          )
          (rw total)
