-- ===== src/Pucch/Processor.antt =====
-- pucch_processor_mex.cpp: `call_processor`, which runs the PUCCH processor on the grid and returns
-- the rows of the structure array that MATLAB gets.
use srs_ran_matlab.Prelude.{
  ℕ, zero, suc, ◌+◌, Bool, true, not, ◌&&◌, List, [], ◌∷◌, Option, none, some, String, ◌==◌, ltb,
  if◌then◌else◌,
}
use srs_ran_matlab.Mex.{
  Matlab, Result, ok, err, abort, num, text, abort_if, unsigned_field, ◌>>=◌, ◌>>◌,
}
use srs_ran_matlab.Pucch.Config.{Format1Configuration}
use srs_ran_matlab.Pucch.Api.{PucchApi}
use srs_ran_matlab.Pucch.Message.{fill_message_fields}
use srs_ran_matlab.Pucch.Populate.{
  populate_f0_configuration, populate_f1_configuration, populate_f2_configuration,
  populate_f3_configuration, populate_f4_configuration,
}

-- The fields that every row has.
pub record Payloads : Type 0 where
  pub is_valid : Bool
  pub harq_ack_payload : List ℕ
  pub sr_payload : List ℕ
  pub csi1_payload : List ℕ
  pub csi2_payload : List ℕ

-- A row of the structure array for multiplexed transmissions.
pub record MultiplexedRow : Type 0 where
  pub initial_cyclic_shift : ℕ
  pub occi : ℕ
  pub payloads : Payloads

pub data Output : Type 0 where
  single : Payloads → Output
  multiplexed : List MultiplexedRow → Output

-- An element of the list of multiplexed transmissions, once it is read.
pub record Entry : Type 0 where
  pub ics : ℕ
  pub occi : ℕ
  pub nof_harq_ack_bits : ℕ

-- `cfg` after the assignments in the loop.
unfoldable pub with_entry : Entry → Format1Configuration → Format1Configuration
with_entry e cfg = record {
  common = cfg.common;
  n_id = cfg.n_id;
  nof_harq_ack = e.nof_harq_ack_bits;
  initial_cyclic_shift = e.ics;
  time_domain_occ = e.occi;
}

-- `if (!validation.has_value()) { mex_abort(message, validation.error()); }`
unfoldable pub check_validation : String → Option String → Result (Unit {0})
check_validation message none = ok tt
check_validation message (some error) = err (abort message (text error ∷ []))

module _ (m : Matlab) where
  -- `this_f1["name"][0]`, for the element of the array at `i`
  unfoldable pub field_at : m.Array → ℕ → String → Result m.Number
  field_at array i name = do value ← m.field array i name; m.element value 0

  unfoldable pub read_entry : m.Array → ℕ → Result Entry
  unfolding field_at
  read_entry mux_f1 i = do
    ics ← field_at mux_f1 i "InitialCyclicShift"
    occi ← field_at mux_f1 i "OCCI"
    nof_harq_ack_bits ← field_at mux_f1 i "NumBits"
    ok (record {
      ics = m.as_unsigned ics;
      occi = m.as_unsigned occi;
      nof_harq_ack_bits = m.as_uint16 nof_harq_ack_bits;
    })

module _ {Grid : Type 0} (api : PucchApi Grid) where
  open api use {ProcessorResult, Batch, BatchResults}

  unfoldable pub payloads : ProcessorResult → Payloads
  payloads result = record {
    is_valid = api.is_status_valid result;
    harq_ack_payload = fill_message_fields (api.get_harq_ack_bits result);
    sr_payload = fill_message_fields (api.get_sr_bits result);
    csi1_payload = fill_message_fields (api.get_csi_part1_bits result);
    csi2_payload = fill_message_fields (api.get_csi_part2_bits result);
  }

  -- The rest of the loop's body, once the element is read.
  unfoldable pub insert_entry : Format1Configuration → Entry → Batch → Result Batch
  unfolding with_entry check_validation
  insert_entry cfg e batch_config = do
    check_validation "The provided PUCCH Format 1 configuration is invalid: {}"
        (api.is_valid1 (with_entry e cfg))
    abort_if (api.contains batch_config e.ics e.occi)
        "The F1 multiplexed list contains duplicated entries for ICS {} and OCCI {}."
        (num e.ics ∷ num e.occi ∷ [])
    ok (api.insert batch_config e.ics e.occi e.nof_harq_ack_bits)

  unfoldable pub row_of : ℕ → ℕ → BatchResults → Result MultiplexedRow
  unfolding payloads
  row_of ics occi batch_results = do
    abort_if (not (api.results_contain batch_results ics occi))
        "PUCCH ({}, {}) is configured but not processed." (num ics ∷ num occi ∷ [])
    ok (record {
      initial_cyclic_shift = ics;
      occi = occi;
      payloads = payloads (api.results_get batch_results ics occi);
    })

-- `batch_results.get(ics, occi)`: what srsRAN does where there is no such result is its own.
abbrev pub get_result :
    {Grid : Type 0} (api : PucchApi Grid) → api.BatchResults → ℕ → ℕ → Result api.ProcessorResult
get_result api batch_results ics occi =
    if api.results_contain batch_results ics occi
    then ok (api.results_get batch_results ics occi)
    else api.results_get_missing batch_results ics occi

module _ (m : Matlab) {Grid : Type 0} (api : PucchApi Grid) where
  open api use {ProcessorResult, Batch, BatchResults}

  -- The loop over the array that fills the batch, from the element `i` on by the rounds left. The
  -- members of `cfg` that it sets are set again in every round before they are read.
  unfoldable pub insert_entries : m.Array → Format1Configuration → ℕ → ℕ → Batch → Result Batch
  insert_entries mux_f1 cfg zero i batch_config = ok batch_config
  insert_entries mux_f1 cfg (suc left) i batch_config = do
    e ← read_entry m mux_f1 i
    batch_config ← insert_entry api cfg e batch_config
    insert_entries mux_f1 cfg left (i + 1) batch_config

  -- The loop over the array that fills the rows.
  unfoldable pub output_rows : m.Array → BatchResults → ℕ → ℕ → Result (List MultiplexedRow)
  output_rows mux_f1 batch_results zero i_pucch = ok []
  output_rows mux_f1 batch_results (suc left) i_pucch = do
    ics ← field_at m mux_f1 i_pucch "InitialCyclicShift"
    occi ← field_at m mux_f1 i_pucch "OCCI"
    row ← row_of api (m.as_unsigned ics) (m.as_unsigned occi) batch_results
    rows ← output_rows mux_f1 batch_results left (i_pucch + 1)
    ok (row ∷ rows)

  -- The branch for a list of multiplexed transmissions, an array of `size` elements.
  unfoldable pub process_multiplexed : Grid → m.Array → m.Array → ℕ → Result Output
  process_multiplexed grid_reader in_cfg mux_f1 size = do
    cfg ← populate_f1_configuration m in_cfg
    batch_config ← insert_entries mux_f1 cfg size 0 (api.clear (api.batch_of cfg))
    let batch_results = api.process1 grid_reader batch_config
    let nof_pucchs = api.results_size batch_results
    abort_if (not (nof_pucchs == size))
        "The number of processed PUCCH F1 transmsissions {} does not match the configured ones {}."
        (num nof_pucchs ∷ num size ∷ [])
    rows ← output_rows mux_f1 batch_results size 0
    ok (multiplexed rows)

  unfoldable pub process_format0 : Grid → m.Array → Result ProcessorResult
  unfolding check_validation
  process_format0 grid_reader in_cfg = do
    nof_sr ← unsigned_field m in_cfg "NumSR"
    abort_if (ltb 1 nof_sr) "For PUCCH Format 0 the number of SR bits is at most one, given {}."
        (num nof_sr ∷ [])
    cfg ← populate_f0_configuration m in_cfg
    check_validation "The provided PUCCH Format 0 configuration is invalid: {}." (api.is_valid0 cfg)
    ok (api.process0 grid_reader cfg)

  unfoldable pub process_format1 : Grid → m.Array → Result ProcessorResult
  unfolding check_validation
  process_format1 grid_reader in_cfg = do
    cfg ← populate_f1_configuration m in_cfg
    check_validation "The provided PUCCH Format 1 configuration is invalid: {}." (api.is_valid1 cfg)
    let batch_results = api.process1 grid_reader (api.batch_of cfg)
    get_result api batch_results cfg.initial_cyclic_shift cfg.time_domain_occ

  unfoldable pub process_format2 : Grid → m.Array → Result ProcessorResult
  unfolding check_validation
  process_format2 grid_reader in_cfg = do
    cfg ← populate_f2_configuration m in_cfg
    check_validation "The provided PUCCH Format 2 configuration is invalid: {}." (api.is_valid2 cfg)
    ok (api.process2 grid_reader cfg)

  unfoldable pub process_format3 : Grid → m.Array → Result ProcessorResult
  unfolding check_validation
  process_format3 grid_reader in_cfg = do
    cfg ← populate_f3_configuration m in_cfg
    check_validation "The provided PUCCH Format 3 configuration is invalid: {}." (api.is_valid3 cfg)
    ok (api.process3 grid_reader cfg)

  unfoldable pub process_format4 : Grid → m.Array → Result ProcessorResult
  unfolding check_validation
  process_format4 grid_reader in_cfg = do
    cfg ← populate_f4_configuration m in_cfg
    check_validation "The provided PUCCH Format 4 configuration is invalid: {}." (api.is_valid4 cfg)
    ok (api.process4 grid_reader cfg)

  -- `switch (pucch_format)`
  unfoldable pub process_format : Grid → m.Array → ℕ → Result ProcessorResult
  process_format grid_reader in_cfg pucch_format =
      if pucch_format == 0
      then process_format0 grid_reader in_cfg
      else if pucch_format == 1
      then process_format1 grid_reader in_cfg
      else if pucch_format == 2
      then process_format2 grid_reader in_cfg
      else if pucch_format == 3
      then process_format3 grid_reader in_cfg
      else if pucch_format == 4
      then process_format4 grid_reader in_cfg
      else err (abort "Unsupported or unkown PUCCH Format {}" (num pucch_format ∷ []))

  -- `mux_f1`: the third input, or `none` for the empty array that stands for an empty one
  unfoldable pub mux_is_empty : Option m.Array → Bool
  mux_is_empty none = true
  mux_is_empty (some mux_f1) = m.is_empty mux_f1

  unfoldable pub process_single : Grid → m.Array → ℕ → Result Output
  process_single grid_reader in_cfg pucch_format = do
    result ← process_format grid_reader in_cfg pucch_format
    ok (single (payloads api result))

  -- `mux_f1` if `(pucch_format == 1) && !mux_f1.isEmpty()`
  unfoldable pub multiplexed_list : ℕ → Option m.Array → Option m.Array
  multiplexed_list pucch_format none = none
  multiplexed_list pucch_format (some mux_f1) =
      if (pucch_format == 1) && not (m.is_empty mux_f1) then some mux_f1 else none

  unfoldable pub process_list : Grid → m.Array → ℕ → Option m.Array → Result Output
  unfolding process_single process_multiplexed
  process_list grid_reader in_cfg pucch_format none = process_single grid_reader in_cfg pucch_format
  process_list grid_reader in_cfg pucch_format (some mux_f1) =
      process_multiplexed grid_reader in_cfg mux_f1 (m.get_number_of_elements mux_f1)

  unfoldable pub call_processor : Grid → m.Array → Option m.Array → Result Output
  unfolding multiplexed_list process_list
  call_processor grid_reader in_cfg mux_f1 = do
    pucch_format ← unsigned_field m in_cfg "Format"
    process_list grid_reader in_cfg pucch_format (multiplexed_list pucch_format mux_f1)
