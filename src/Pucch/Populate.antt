-- ===== src/Pucch/Populate.antt =====
-- pucch_processor_mex.cpp: the PUCCH configurations from the fields of the MATLAB structure. The parts
-- that the five functions repeat are functions of their own here.
use srs_ran_matlab.Prelude.{
  ℕ, zero, suc, ◌+◌, Bool, true, false, List, [], ◌∷◌, ◌++◌, Option, none, some, ◌==◌,
}
use srs_ran_matlab.Mex.{Matlab, Result, ok, unsigned_field, bool_field, text_field, ◌>>=◌}
use srs_ran_matlab.Convert.{
  CyclicPrefix, matlab_to_srs_cyclic_prefix, matlab_to_srs_subcarrier_spacing,
}
use srs_ran_matlab.Pucch.Config.{
  SlotPoint, CommonConfiguration, UciLengths, Format0Configuration, Format1Configuration,
  Format2Configuration, Format3Configuration, Format4Configuration,
}

-- `for (i_port = ...) { cfg.ports.push_back(i_port); }`, by the rounds left.
unfoldable pub push_ports : ℕ → ℕ → List ℕ → List ℕ
push_ports zero i_port ports = ports
push_ports (suc left) i_port ports = push_ports left (i_port + 1) (ports ++ (i_port ∷ []))

module _ (m : Matlab) where
  open m use {Array}

  -- `second_hop_prb`, which stays empty if the field is.
  unfoldable pub second_hop : Bool → Array → Result (Option ℕ)
  second_hop true in_cfg = ok none
  second_hop false in_cfg = do prb ← unsigned_field m in_cfg "SecondHopStartPRB"; ok (some prb)

  -- The slot, cyclic prefix, ports and bandwidth part.
  unfoldable pub populate_carrier : Array → Result (SlotPoint × CyclicPrefix × List ℕ × ℕ × ℕ)
  unfolding push_ports
  populate_carrier in_cfg = do
    scs_khz ← unsigned_field m in_cfg "SubcarrierSpacing"
    slot_count ← unsigned_field m in_cfg "NSlot"
    scs ← matlab_to_srs_subcarrier_spacing scs_khz
    in_cp ← text_field m in_cfg "CP"
    cp ← matlab_to_srs_cyclic_prefix in_cp
    nof_ports ← unsigned_field m in_cfg "NRxPorts"
    bwp_size_rb ← unsigned_field m in_cfg "NSizeBWP"
    bwp_start_rb ← unsigned_field m in_cfg "NStartBWP"
    ok (
      record { scs = scs; count = slot_count },
      cp,
      push_ports nof_ports 0 [],
      bwp_size_rb,
      bwp_start_rb,
    )

  -- The second hop and the symbols, which complete the common members.
  unfoldable pub populate_common :
      SlotPoint × CyclicPrefix × List ℕ × ℕ × ℕ → ℕ → Array → Result CommonConfiguration
  unfolding second_hop
  populate_common (slot, cp, ports, bwp_size_rb, bwp_start_rb) starting_prb in_cfg = do
    hop ← m.field in_cfg 0 "SecondHopStartPRB"
    second_hop_prb ← second_hop (m.is_empty hop) in_cfg
    start_symbol_index ← unsigned_field m in_cfg "StartSymbolIndex"
    nof_symbols ← unsigned_field m in_cfg "NumOFDMSymbols"
    ok (record {
      slot = slot;
      cp = cp;
      ports = ports;
      bwp_size_rb = bwp_size_rb;
      bwp_start_rb = bwp_start_rb;
      starting_prb = starting_prb;
      second_hop_prb = second_hop_prb;
      start_symbol_index = start_symbol_index;
      nof_symbols = nof_symbols;
    })

  unfoldable pub populate_uci : Array → Result UciLengths
  populate_uci in_cfg = do
    nof_harq_ack ← unsigned_field m in_cfg "NumHARQAck"
    nof_sr ← unsigned_field m in_cfg "NumSR"
    nof_csi_part1 ← unsigned_field m in_cfg "NumCSIPart1"
    nof_csi_part2 ← unsigned_field m in_cfg "NumCSIPart2"
    ok (record {
      nof_harq_ack = nof_harq_ack;
      nof_sr = nof_sr;
      nof_csi_part1 = nof_csi_part1;
      nof_csi_part2 = nof_csi_part2;
    })

  unfoldable pub populate_f0_configuration : Array → Result Format0Configuration
  unfolding populate_carrier populate_common
  populate_f0_configuration in_cfg = do
    carrier ← populate_carrier in_cfg
    starting_prb ← unsigned_field m in_cfg "StartPRB"
    common ← populate_common carrier starting_prb in_cfg
    initial_cyclic_shift ← unsigned_field m in_cfg "InitialCyclicShift"
    n_id ← unsigned_field m in_cfg "NID"
    nof_harq_ack ← unsigned_field m in_cfg "NumHARQAck"
    nof_sr ← unsigned_field m in_cfg "NumSR"
    ok (record {
      common = common;
      initial_cyclic_shift = initial_cyclic_shift;
      n_id = n_id;
      nof_harq_ack = nof_harq_ack;
      sr_opportunity = nof_sr == 1;
    })

  unfoldable pub populate_f1_configuration : Array → Result Format1Configuration
  unfolding populate_carrier populate_common
  populate_f1_configuration in_cfg = do
    carrier ← populate_carrier in_cfg
    starting_prb ← unsigned_field m in_cfg "StartPRB"
    common ← populate_common carrier starting_prb in_cfg
    n_id ← unsigned_field m in_cfg "NID"
    nof_harq_ack ← unsigned_field m in_cfg "NumHARQAck"
    initial_cyclic_shift ← unsigned_field m in_cfg "InitialCyclicShift"
    time_domain_occ ← unsigned_field m in_cfg "OCCI"
    ok (record {
      common = common;
      n_id = n_id;
      nof_harq_ack = nof_harq_ack;
      initial_cyclic_shift = initial_cyclic_shift;
      time_domain_occ = time_domain_occ;
    })

  unfoldable pub populate_f2_configuration : Array → Result Format2Configuration
  unfolding populate_carrier populate_common populate_uci
  populate_f2_configuration in_cfg = do
    carrier ← populate_carrier in_cfg
    starting_prb ← unsigned_field m in_cfg "StartPRB"
    nof_prb ← unsigned_field m in_cfg "NumPRBs"
    common ← populate_common carrier starting_prb in_cfg
    rnti ← unsigned_field m in_cfg "RNTI"
    n_id ← unsigned_field m in_cfg "NID"
    n_id_0 ← unsigned_field m in_cfg "NID0"
    uci ← populate_uci in_cfg
    ok (record {
      common = common;
      nof_prb = nof_prb;
      rnti = rnti;
      n_id = n_id;
      n_id_0 = n_id_0;
      uci = uci;
    })

  unfoldable pub populate_f3_configuration : Array → Result Format3Configuration
  unfolding populate_carrier populate_common populate_uci
  populate_f3_configuration in_cfg = do
    carrier ← populate_carrier in_cfg
    starting_prb ← unsigned_field m in_cfg "StartPRB"
    nof_prb ← unsigned_field m in_cfg "NumPRBs"
    common ← populate_common carrier starting_prb in_cfg
    rnti ← unsigned_field m in_cfg "RNTI"
    n_id_hopping ← unsigned_field m in_cfg "NIDHopping"
    n_id_scrambling ← unsigned_field m in_cfg "NIDScrambling"
    additional_dmrs ← bool_field m in_cfg "AdditionalDMRS"
    pi2_bpsk ← bool_field m in_cfg "Pi2BPSK"
    uci ← populate_uci in_cfg
    ok (record {
      common = common;
      nof_prb = nof_prb;
      rnti = rnti;
      n_id_hopping = n_id_hopping;
      n_id_scrambling = n_id_scrambling;
      additional_dmrs = additional_dmrs;
      pi2_bpsk = pi2_bpsk;
      uci = uci;
    })

  unfoldable pub populate_f4_configuration : Array → Result Format4Configuration
  unfolding populate_carrier populate_common populate_uci
  populate_f4_configuration in_cfg = do
    carrier ← populate_carrier in_cfg
    starting_prb ← unsigned_field m in_cfg "StartPRB"
    common ← populate_common carrier starting_prb in_cfg
    rnti ← unsigned_field m in_cfg "RNTI"
    n_id_hopping ← unsigned_field m in_cfg "NIDHopping"
    n_id_scrambling ← unsigned_field m in_cfg "NIDScrambling"
    additional_dmrs ← bool_field m in_cfg "AdditionalDMRS"
    pi2_bpsk ← bool_field m in_cfg "Pi2BPSK"
    occ_index ← unsigned_field m in_cfg "OCCI"
    occ_length ← unsigned_field m in_cfg "SpreadingFactor"
    uci ← populate_uci in_cfg
    ok (record {
      common = common;
      rnti = rnti;
      n_id_hopping = n_id_hopping;
      n_id_scrambling = n_id_scrambling;
      additional_dmrs = additional_dmrs;
      pi2_bpsk = pi2_bpsk;
      occ_index = occ_index;
      occ_length = occ_length;
      uci = uci;
    })
