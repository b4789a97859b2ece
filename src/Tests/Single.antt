-- ===== src/Tests/Single.antt =====
-- pucch_processor_mex.cpp: a single transmission of format 1.
use srs_ran_matlab.Prelude.{ℕ, ◌≡◌, ◌↔◌, refl, none}
use srs_ran_matlab.Mex.{ok}
use srs_ran_matlab.Pucch.Processor.{single, call_processor, multiplexed_list}
use srs_ran_matlab.Pucch.Reported.{reported}
use srs_ran_matlab.Pucch.Single.{IsProcessed, call_processor_single}
use srs_ran_matlab.Tests.Values.{matlab}
use srs_ran_matlab.Tests.Pucch.{pucch_api, some_grid, config}

call_processor_single_example :
    (call_processor matlab pucch_api some_grid config none ≡ ok (single (reported pucch_api 0))) ↔ (
      (result : ℕ) × IsProcessed matlab pucch_api some_grid config 1 result
      × (single (reported pucch_api result) ≡ single (reported pucch_api 0)))
unfolding multiplexed_list
call_processor_single_example =
    call_processor_single matlab pucch_api some_grid config 1 none (single (reported pucch_api 0))
      refl refl
