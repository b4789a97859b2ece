-- ===== src/Pucch/Config.antt =====
-- The configurations of `pucch_processor` (srsRAN), with the members that pucch_processor_mex.cpp sets;
-- `context`, which it always leaves empty, is left out.
use srs_ran_matlab.Prelude.{ℕ, Bool, List, Option}
use srs_ran_matlab.Convert.{CyclicPrefix, SubcarrierSpacing}

-- `slot_point`
pub record SlotPoint : Type 0 where
  pub scs : SubcarrierSpacing
  pub count : ℕ

-- The members that all formats have.
pub record CommonConfiguration : Type 0 where
  pub slot : SlotPoint
  pub cp : CyclicPrefix
  pub ports : List ℕ
  pub bwp_size_rb : ℕ
  pub bwp_start_rb : ℕ
  pub starting_prb : ℕ
  pub second_hop_prb : Option ℕ
  pub start_symbol_index : ℕ
  pub nof_symbols : ℕ

pub record Format0Configuration : Type 0 where
  pub common : CommonConfiguration
  pub open common use *
  pub initial_cyclic_shift : ℕ
  pub n_id : ℕ
  pub nof_harq_ack : ℕ
  pub sr_opportunity : Bool

pub record Format1Configuration : Type 0 where
  pub common : CommonConfiguration
  pub open common use *
  pub n_id : ℕ
  pub nof_harq_ack : ℕ
  pub initial_cyclic_shift : ℕ
  pub time_domain_occ : ℕ

-- The lengths of the UCI fields of formats 2, 3 and 4.
pub record UciLengths : Type 0 where
  pub nof_harq_ack : ℕ
  pub nof_sr : ℕ
  pub nof_csi_part1 : ℕ
  pub nof_csi_part2 : ℕ

pub record Format2Configuration : Type 0 where
  pub common : CommonConfiguration
  pub open common use *
  pub nof_prb : ℕ
  pub rnti : ℕ
  pub n_id : ℕ
  pub n_id_0 : ℕ
  pub uci : UciLengths
  pub open uci use *

pub record Format3Configuration : Type 0 where
  pub common : CommonConfiguration
  pub open common use *
  pub nof_prb : ℕ
  pub rnti : ℕ
  pub n_id_hopping : ℕ
  pub n_id_scrambling : ℕ
  pub additional_dmrs : Bool
  pub pi2_bpsk : Bool
  pub uci : UciLengths
  pub open uci use *

pub record Format4Configuration : Type 0 where
  pub common : CommonConfiguration
  pub open common use *
  pub rnti : ℕ
  pub n_id_hopping : ℕ
  pub n_id_scrambling : ℕ
  pub additional_dmrs : Bool
  pub pi2_bpsk : Bool
  pub occ_index : ℕ
  pub occ_length : ℕ
  pub uci : UciLengths
  pub open uci use *
