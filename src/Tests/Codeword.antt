-- ===== src/Tests/Codeword.antt =====
-- pusch_demodulator_mex.cpp: a codeword of five soft bits in two blocks.
use srs_ran_matlab.Prelude.{ℕ, ◌≡◌, refl, arith, inl, false, [], ◌∷◌}
use srs_ran_matlab.Mex.{ok, ◌>>=◌}
use srs_ran_matlab.Demodulator.Codeword.{get_data, on_end_codeword}
use srs_ran_matlab.Demodulator.Codeword.Deliver.{in_place, own_memory, deliver_all, codeword_lem}

codeword_lem_example :
    (deliver_all {Llr = ℕ}
        (in_place (1 ∷ 2 ∷ 3 ∷ []) ∷ own_memory 10 (4 ∷ 5 ∷ []) ∷ [])
        (record { completed = false; base = 100; soft_bits = 0 ∷ 0 ∷ 0 ∷ 0 ∷ 0 ∷ []; count = 0 })
      >>= λ b. on_end_codeword b >>= get_data)
    ≡ ok (1 ∷ 2 ∷ 3 ∷ 4 ∷ 5 ∷ [])
codeword_lem_example =
    codeword_lem {Llr = ℕ} (in_place (1 ∷ 2 ∷ 3 ∷ []) ∷ own_memory 10 (4 ∷ 5 ∷ []) ∷ []) 100
      (0 ∷ 0 ∷ 0 ∷ 0 ∷ 0 ∷ []) (ground arith) refl (tt, (inl (ground arith), tt))
