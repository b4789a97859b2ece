-- ===== src/Tests/Formats.antt =====
-- pucch_processor_mex.cpp: the configurations that a structure with all fields is read into.
use srs_ran_matlab.Prelude.{◌≡◌, ◌↔◌, refl, true, false, [], ◌∷◌, some}
use srs_ran_matlab.Mex.{ok}
use srs_ran_matlab.Convert.{
  extended, khz60, matlab_to_srs_subcarrier_spacing, matlab_to_srs_cyclic_prefix,
}
use srs_ran_matlab.Pucch.Config.{
  CommonConfiguration, UciLengths, Format0Configuration, Format1Configuration, Format2Configuration,
  Format3Configuration, Format4Configuration,
}
use srs_ran_matlab.Pucch.Populate.{
  push_ports, second_hop, populate_carrier, populate_common, populate_uci,
  populate_f0_configuration, populate_f1_configuration, populate_f2_configuration,
  populate_f3_configuration, populate_f4_configuration,
}
use srs_ran_matlab.Pucch.SequenceFormats.{IsFormat0, IsFormat1}
use srs_ran_matlab.Pucch.CodedFormats.{IsFormat2, IsFormat3, IsFormat4}
use srs_ran_matlab.Pucch.Formats.{populate_iff}
use srs_ran_matlab.Tests.Values.{Value, structs, leaf_num, leaf_text, matlab}

abbrev all_fields : Value
all_fields = structs (
    (("SubcarrierSpacing", leaf_num 60)
      ∷ ("NSlot", leaf_num 9)
      ∷ ("CP", leaf_text "extended")
      ∷ ("NRxPorts", leaf_num 3)
      ∷ ("NSizeBWP", leaf_num 52)
      ∷ ("NStartBWP", leaf_num 1)
      ∷ ("StartPRB", leaf_num 3)
      ∷ ("SecondHopStartPRB", leaf_num 40)
      ∷ ("StartSymbolIndex", leaf_num 2)
      ∷ ("NumOFDMSymbols", leaf_num 10)
      ∷ ("InitialCyclicShift", leaf_num 5)
      ∷ ("NID", leaf_num 101)
      ∷ ("NID0", leaf_num 102)
      ∷ ("NIDHopping", leaf_num 103)
      ∷ ("NIDScrambling", leaf_num 104)
      ∷ ("RNTI", leaf_num 17)
      ∷ ("NumPRBs", leaf_num 6)
      ∷ ("AdditionalDMRS", leaf_num 1)
      ∷ ("Pi2BPSK", leaf_num 0)
      ∷ ("OCCI", leaf_num 1)
      ∷ ("SpreadingFactor", leaf_num 4)
      ∷ ("NumHARQAck", leaf_num 7)
      ∷ ("NumSR", leaf_num 1)
      ∷ ("NumCSIPart1", leaf_num 8)
      ∷ ("NumCSIPart2", leaf_num 12)
      ∷ [])
    ∷ [])

abbrev common_cfg : CommonConfiguration
common_cfg = record {
  slot = record { scs = khz60; count = 9 };
  cp = extended;
  ports = 0 ∷ 1 ∷ 2 ∷ [];
  bwp_size_rb = 52;
  bwp_start_rb = 1;
  starting_prb = 3;
  second_hop_prb = some 40;
  start_symbol_index = 2;
  nof_symbols = 10;
}

abbrev lengths : UciLengths
lengths = record { nof_harq_ack = 7; nof_sr = 1; nof_csi_part1 = 8; nof_csi_part2 = 12 }

abbrev cfg0 : Format0Configuration
cfg0 = record {
  common = common_cfg;
  initial_cyclic_shift = 5;
  n_id = 101;
  nof_harq_ack = 7;
  sr_opportunity = true;
}

abbrev cfg1 : Format1Configuration
cfg1 = record {
  common = common_cfg;
  n_id = 101;
  nof_harq_ack = 7;
  initial_cyclic_shift = 5;
  time_domain_occ = 1;
}

abbrev cfg2 : Format2Configuration
cfg2 = record {
  common = common_cfg;
  nof_prb = 6;
  rnti = 17;
  n_id = 101;
  n_id_0 = 102;
  uci = lengths;
}

abbrev cfg3 : Format3Configuration
cfg3 = record {
  common = common_cfg;
  nof_prb = 6;
  rnti = 17;
  n_id_hopping = 103;
  n_id_scrambling = 104;
  additional_dmrs = true;
  pi2_bpsk = false;
  uci = lengths;
}

abbrev cfg4 : Format4Configuration
cfg4 = record {
  common = common_cfg;
  rnti = 17;
  n_id_hopping = 103;
  n_id_scrambling = 104;
  additional_dmrs = true;
  pi2_bpsk = false;
  occ_index = 1;
  occ_length = 4;
  uci = lengths;
}

populate_iff_example :
    ((populate_f0_configuration matlab all_fields ≡ ok cfg0) ↔ IsFormat0 matlab all_fields cfg0)
    × ((populate_f1_configuration matlab all_fields ≡ ok cfg1) ↔ IsFormat1 matlab all_fields cfg1)
    × ((populate_f2_configuration matlab all_fields ≡ ok cfg2) ↔ IsFormat2 matlab all_fields cfg2)
    × ((populate_f3_configuration matlab all_fields ≡ ok cfg3) ↔ IsFormat3 matlab all_fields cfg3)
    × ((populate_f4_configuration matlab all_fields ≡ ok cfg4) ↔ IsFormat4 matlab all_fields cfg4)
populate_iff_example = populate_iff matlab all_fields cfg0 cfg1 cfg2 cfg3 cfg4

-- The structure is read into these configurations.
all_read :
    (populate_f0_configuration matlab all_fields ≡ ok cfg0)
    × (populate_f1_configuration matlab all_fields ≡ ok cfg1)
    × (populate_f2_configuration matlab all_fields ≡ ok cfg2)
    × (populate_f3_configuration matlab all_fields ≡ ok cfg3)
    × (populate_f4_configuration matlab all_fields ≡ ok cfg4)
unfolding populate_f0_configuration populate_f1_configuration populate_f2_configuration
    populate_f3_configuration populate_f4_configuration populate_carrier populate_common
    populate_uci push_ports second_hop matlab_to_srs_subcarrier_spacing matlab_to_srs_cyclic_prefix
all_read = (refl, refl, refl, refl, refl)
