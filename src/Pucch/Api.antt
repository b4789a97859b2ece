-- ===== src/Pucch/Api.antt =====
-- What the PUCCH processor MEX function uses of srsRAN's PUCCH processor and PDU validator, which are
-- not part of the repository.
use srs_ran_matlab.Prelude.{ℕ, ◌≡◌, Bool, false, ◌&&◌, ◌||◌, List, Option, String, ◌==◌}
use srs_ran_matlab.Mex.{Result}
use srs_ran_matlab.Pucch.Config.{
  Format0Configuration, Format1Configuration, Format2Configuration, Format3Configuration,
  Format4Configuration,
}

pub record PucchApi (Grid : Type 0) : Type 1 where
  -- `pucch_processor_result`: whether its message has the status `valid`, and the message's fields
  pub ProcessorResult : Type 0
  pub is_status_valid : ProcessorResult → Bool
  pub get_harq_ack_bits : ProcessorResult → List ℕ
  pub get_sr_bits : ProcessorResult → List ℕ
  pub get_csi_part1_bits : ProcessorResult → List ℕ
  pub get_csi_part2_bits : ProcessorResult → List ℕ
  -- `validator->is_valid(cfg)`, with the error if there is one
  pub is_valid0 : Format0Configuration → Option String
  pub is_valid1 : Format1Configuration → Option String
  pub is_valid2 : Format2Configuration → Option String
  pub is_valid3 : Format3Configuration → Option String
  pub is_valid4 : Format4Configuration → Option String
  -- `processor->process(grid, cfg)`
  pub process0 : Grid → Format0Configuration → ProcessorResult
  pub process2 : Grid → Format2Configuration → ProcessorResult
  pub process3 : Grid → Format3Configuration → ProcessorResult
  pub process4 : Grid → Format4Configuration → ProcessorResult
  -- `format1_batch_configuration`, whose entries are found by cyclic shift and orthogonal code
  pub Batch : Type 0
  pub batch_of : Format1Configuration → Batch
  pub clear : Batch → Batch
  pub contains : Batch → ℕ → ℕ → Bool
  -- `entries.insert(ics, occi, {.nof_harq_ack = n})`
  pub insert : Batch → ℕ → ℕ → ℕ → Batch
  pub BatchResults : Type 0
  pub process1 : Grid → Batch → BatchResults
  pub results_size : BatchResults → ℕ
  pub results_contain : BatchResults → ℕ → ℕ → Bool
  pub results_get : BatchResults → ℕ → ℕ → ProcessorResult
  -- how `results_get` ends where there is no result
  pub results_get_missing : BatchResults → ℕ → ℕ → Result ProcessorResult

-- What is documented of the batch's entries.
pub record IsBatch {Grid : Type 0} (api : PucchApi Grid) : Type 0 where
  pub contains-clear : (b : api.Batch) (i o : ℕ) → api.contains (api.clear b) i o ≡ false
  pub contains-insert :
      (b : api.Batch) (i o n j p : ℕ)
      → api.contains (api.insert b i o n) j p ≡ ((i == j) && (o == p) || api.contains b j p)
