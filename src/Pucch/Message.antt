-- ===== src/Pucch/Message.antt =====
-- pucch_processor_mex.cpp: `fill_message_fields`. An `int8_t` is its bit pattern, which the cast from
-- `uint8_t` keeps.
use srs_ran_matlab.Prelude.{
  ℕ, zero, suc, ◌+◌, ◌<◌, ◌≤◌, ◌^◌, ◌≡◌, refl, sym, ◌∙◌, List, [], ◌∷◌, ◌++◌, ap, length, replicate,
  append_assoc, length-append, length-take, take, arith,
}
use srs_ran_matlab.Span.{u32}

-- `out[i] = value`, for a position in the array
unfoldable pub set : ℕ → ℕ → List ℕ → List ℕ
set i value [] = []
set zero value (x ∷ xs) = value ∷ xs
set (suc i) value (x ∷ xs) = x ∷ set i value xs

-- The loop over the bits from `i_bit` on.
unfoldable pub fill_from : ℕ → List ℕ → List ℕ → List ℕ
unfolding set
fill_from i_bit [] out = out
fill_from i_bit (bit ∷ field) out = fill_from (i_bit + 1) field (set i_bit bit out)

-- `unsigned nof_bits = field.size();`, the number of the array's elements and of the loop's rounds
unfoldable pub fill_message_fields : List ℕ → List ℕ
unfolding fill_from
fill_message_fields [] = []
fill_message_fields (bit ∷ field) =
    let nof_bits = u32 (length (bit ∷ field)) in
    fill_from 0 (take nof_bits (bit ∷ field)) (replicate nof_bits 0)

set-append :
    (done : List ℕ) (value x : ℕ) (rest : List ℕ)
    → set (length done) value (done ++ (x ∷ rest)) ≡ done ++ (value ∷ rest)
unfolding set
set-append [] value x rest = refl
set-append (d ∷ done) value x rest = ap (◌∷◌ d) (set-append done value x rest)

fill_from_snoc :
    (done : List ℕ) (bit : ℕ) (field rest : List ℕ)
    → fill_from (length done + 1) field (done ++ (bit ∷ rest))
      ≡ fill_from (length (done ++ (bit ∷ []))) field ((done ++ (bit ∷ [])) ++ rest)
fill_from_snoc done bit field rest =
    rw (length-append done (bit ∷ []), append_assoc done (bit ∷ []) rest) refl

fill_from_lem :
    (done field : List ℕ)
    → fill_from (length done) field (done ++ replicate (length field) 0) ≡ done ++ field
unfolding fill_from
fill_from_lem done [] = refl
fill_from_lem done (bit ∷ field) =
    rw
      (
        set-append done bit 0 (replicate (length field) 0),
        fill_from_snoc done bit field (replicate (length field) 0),
        fill_from_lem (done ++ (bit ∷ [])) field,
      )
      (append_assoc done (bit ∷ []) field)

filled_all :
    (field : List ℕ) (n : ℕ)
    → n ≤ length field
    → fill_from 0 (take n field) (replicate n 0) ≡ take n field
filled_all field n h =
    let size : length (take n field) ≡ n = omega (arith, length-take n field) in
    ap (λ k. fill_from 0 (take n field) (replicate k 0)) (sym size)
    ∙ fill_from_lem [] (take n field)

-- The bits of a field that fit the number of bits as an `unsigned`.
abbrev pub bits_of : List ℕ → List ℕ
bits_of field = take (u32 (length field)) field

pub fill_message_fields-bits_of : (field : List ℕ) → fill_message_fields field ≡ bits_of field
unfolding fill_message_fields
fill_message_fields-bits_of [] = refl
fill_message_fields-bits_of (bit ∷ field) =
    filled_all (bit ∷ field) (u32 (length (bit ∷ field))) (omega arith)

take_all : (field : List ℕ) → take (length field) field ≡ field
take_all [] = refl
take_all (bit ∷ field) = ap (◌∷◌ bit) (take_all field)

-- The array that is returned for a field whose size fits an `unsigned` holds the bits of the field in
-- their order, and is empty for an empty field.
pub fill_message_fields_lem :
    (field : List ℕ) → length field < 2 ^ 32 → fill_message_fields field ≡ field
fill_message_fields_lem field small =
    let size : u32 (length field) ≡ length field = omega (arith, small) in
    fill_message_fields-bits_of field ∙ ap (λ n. take n field) size ∙ take_all field
