-- ===== src/Bitset.antt =====
-- bounded_bitset and crb_bitmap (srsRAN), as the sources make them from the elements of a MATLAB array:
-- a list of bits that has to fit the capacity.
use srs_ran_matlab.Prelude.{ℕ, ◌≤◌, ◌≡◌, Bool, List, leb, length, arith}
use srs_ran_matlab.Mex.{Result, ok, assert, ◌>>◌}

-- `bounded_bitset<N>(begin, end)`, which asserts that the bits fit.
unfoldable pub bitset : ℕ → List Bool → Result (List Bool)
bitset capacity bits = do assert (leb (length bits) capacity) "bounded_bitset"; ok bits

pub bitset-fits :
    (capacity : ℕ) (bits : List Bool) → length bits ≤ capacity → bitset capacity bits ≡ ok bits
unfolding bitset
bitset-fits capacity bits h = ground arith
