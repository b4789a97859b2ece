-- ===== src/Pucch/CodedFormats.antt =====
-- pucch_processor_mex.cpp: which field of the MATLAB structure each member of the configurations of
-- formats 2, 3 and 4 comes from.
use srs_ran_matlab.Prelude.{◌≡◌, refl, subst, String, Bool}
use srs_ran_matlab.Mex.{Matlab, ok, unsigned_field, bool_field, >>=-eq-ok, ok-injective}
use srs_ran_matlab.Pucch.Config.{
  UciLengths, Format2Configuration, Format3Configuration, Format4Configuration,
}
use srs_ran_matlab.Pucch.Populate.{
  populate_carrier, populate_common, populate_uci, populate_f2_configuration,
  populate_f3_configuration, populate_f4_configuration,
}
use srs_ran_matlab.Pucch.Fields.{
  Holds, IsCommon, populate_common-IsCommon, IsCommon-populate_carrier, IsCommon-populate_common,
}

module _ (m : Matlab) (in_cfg : m.Array) where
  -- The field is true or false, as the member is.
  abbrev pub Says : String → Bool → Type 0
  Says name b = bool_field m in_cfg name ≡ ok b

  abbrev pub IsUci : UciLengths → Type 0
  IsUci uci =
      Holds m in_cfg "NumHARQAck" uci.nof_harq_ack
      × Holds m in_cfg "NumSR" uci.nof_sr
      × Holds m in_cfg "NumCSIPart1" uci.nof_csi_part1
      × Holds m in_cfg "NumCSIPart2" uci.nof_csi_part2

  populate_uci-IsUci : (uci : UciLengths) → populate_uci m in_cfg ≡ ok uci → IsUci uci
  unfolding populate_uci
  populate_uci-IsUci uci h =
      let (harq, has_harq, h1) = >>=-eq-ok (unsigned_field m in_cfg "NumHARQAck") _ h in
      let (sr, has_sr, h2) = >>=-eq-ok (unsigned_field m in_cfg "NumSR") _ h1 in
      let (csi1, has_csi1, h3) = >>=-eq-ok (unsigned_field m in_cfg "NumCSIPart1") _ h2 in
      let (csi2, has_csi2, h4) = >>=-eq-ok (unsigned_field m in_cfg "NumCSIPart2") _ h3 in
      subst IsUci (ok-injective _ uci h4) (has_harq, has_sr, has_csi1, has_csi2)

  IsUci-populate_uci : (uci : UciLengths) → IsUci uci → populate_uci m in_cfg ≡ ok uci
  unfolding populate_uci
  IsUci-populate_uci uci (has_harq, has_sr, has_csi1, has_csi2) =
      rw (has_harq, has_sr, has_csi1, has_csi2) refl

module _ (m : Matlab) (in_cfg : m.Array) where
  abbrev pub IsFormat2 : Format2Configuration → Type 0
  IsFormat2 cfg =
      IsCommon m in_cfg cfg.common
      × Holds m in_cfg "NumPRBs" cfg.nof_prb
      × Holds m in_cfg "RNTI" cfg.rnti
      × Holds m in_cfg "NID" cfg.n_id
      × Holds m in_cfg "NID0" cfg.n_id_0
      × IsUci m in_cfg cfg.uci

  pub f2-IsFormat2 :
      (cfg : Format2Configuration) → populate_f2_configuration m in_cfg ≡ ok cfg → IsFormat2 cfg
  unfolding populate_f2_configuration
  f2-IsFormat2 cfg h =
      let (carrier, has_carrier, h1) = >>=-eq-ok (populate_carrier m in_cfg) _ h in
      let (prb, has_prb, h2) = >>=-eq-ok (unsigned_field m in_cfg "StartPRB") _ h1 in
      let (nof_prb, has_nof_prb, h3) = >>=-eq-ok (unsigned_field m in_cfg "NumPRBs") _ h2 in
      let (common, has_common, h4) = >>=-eq-ok (populate_common m carrier prb in_cfg) _ h3 in
      let (rnti, has_rnti, h5) = >>=-eq-ok (unsigned_field m in_cfg "RNTI") _ h4 in
      let (n_id, has_n_id, h6) = >>=-eq-ok (unsigned_field m in_cfg "NID") _ h5 in
      let (n_id_0, has_n_id_0, h7) = >>=-eq-ok (unsigned_field m in_cfg "NID0") _ h6 in
      let (uci, has_uci, h8) = >>=-eq-ok (populate_uci m in_cfg) _ h7 in
      subst IsFormat2 (ok-injective _ cfg h8) (
        populate_common-IsCommon m in_cfg carrier prb common has_carrier has_prb has_common,
        has_nof_prb,
        has_rnti,
        has_n_id,
        has_n_id_0,
        populate_uci-IsUci m in_cfg uci has_uci,
      )

  pub IsFormat2-f2 :
      (cfg : Format2Configuration) → IsFormat2 cfg → populate_f2_configuration m in_cfg ≡ ok cfg
  unfolding populate_f2_configuration
  IsFormat2-f2 cfg (common, has_nof_prb, has_rnti, has_n_id, has_n_id_0, has_uci) =
      rw
        (
          IsCommon-populate_carrier m in_cfg cfg.common common,
          common.start,
          has_nof_prb,
          IsCommon-populate_common m in_cfg cfg.common common,
          has_rnti,
          has_n_id,
          has_n_id_0,
          IsUci-populate_uci m in_cfg cfg.uci has_uci,
        )
        refl

  abbrev pub IsFormat3 : Format3Configuration → Type 0
  IsFormat3 cfg =
      IsCommon m in_cfg cfg.common
      × Holds m in_cfg "NumPRBs" cfg.nof_prb
      × Holds m in_cfg "RNTI" cfg.rnti
      × Holds m in_cfg "NIDHopping" cfg.n_id_hopping
      × Holds m in_cfg "NIDScrambling" cfg.n_id_scrambling
      × Says m in_cfg "AdditionalDMRS" cfg.additional_dmrs
      × Says m in_cfg "Pi2BPSK" cfg.pi2_bpsk
      × IsUci m in_cfg cfg.uci

  pub f3-IsFormat3 :
      (cfg : Format3Configuration) → populate_f3_configuration m in_cfg ≡ ok cfg → IsFormat3 cfg
  unfolding populate_f3_configuration
  f3-IsFormat3 cfg h =
      let (carrier, has_carrier, h1) = >>=-eq-ok (populate_carrier m in_cfg) _ h in
      let (prb, has_prb, h2) = >>=-eq-ok (unsigned_field m in_cfg "StartPRB") _ h1 in
      let (nof_prb, has_nof_prb, h3) = >>=-eq-ok (unsigned_field m in_cfg "NumPRBs") _ h2 in
      let (common, has_common, h4) = >>=-eq-ok (populate_common m carrier prb in_cfg) _ h3 in
      let (rnti, has_rnti, h5) = >>=-eq-ok (unsigned_field m in_cfg "RNTI") _ h4 in
      let (n_id_hopping, has_n_id_hopping, h6) =
        >>=-eq-ok (unsigned_field m in_cfg "NIDHopping") _ h5 in
      let (n_id_scrambling, has_n_id_scrambling, h7) =
        >>=-eq-ok (unsigned_field m in_cfg "NIDScrambling") _ h6 in
      let (additional_dmrs, has_additional_dmrs, h8) =
        >>=-eq-ok (bool_field m in_cfg "AdditionalDMRS") _ h7 in
      let (pi2_bpsk, has_pi2_bpsk, h9) = >>=-eq-ok (bool_field m in_cfg "Pi2BPSK") _ h8 in
      let (uci, has_uci, h10) = >>=-eq-ok (populate_uci m in_cfg) _ h9 in
      subst IsFormat3 (ok-injective _ cfg h10) (
        populate_common-IsCommon m in_cfg carrier prb common has_carrier has_prb has_common,
        has_nof_prb,
        has_rnti,
        has_n_id_hopping,
        has_n_id_scrambling,
        has_additional_dmrs,
        has_pi2_bpsk,
        populate_uci-IsUci m in_cfg uci has_uci,
      )

  pub IsFormat3-f3 :
      (cfg : Format3Configuration) → IsFormat3 cfg → populate_f3_configuration m in_cfg ≡ ok cfg
  unfolding populate_f3_configuration
  IsFormat3-f3 cfg
        (
          common, has_nof_prb, has_rnti, has_n_id_hopping, has_n_id_scrambling, has_additional_dmrs,
          has_pi2_bpsk, has_uci,
        ) =
      rw
        (
          IsCommon-populate_carrier m in_cfg cfg.common common,
          common.start,
          has_nof_prb,
          IsCommon-populate_common m in_cfg cfg.common common,
          has_rnti,
          has_n_id_hopping,
          has_n_id_scrambling,
          has_additional_dmrs,
          has_pi2_bpsk,
          IsUci-populate_uci m in_cfg cfg.uci has_uci,
        )
        refl

  abbrev pub IsFormat4 : Format4Configuration → Type 0
  IsFormat4 cfg =
      IsCommon m in_cfg cfg.common
      × Holds m in_cfg "RNTI" cfg.rnti
      × Holds m in_cfg "NIDHopping" cfg.n_id_hopping
      × Holds m in_cfg "NIDScrambling" cfg.n_id_scrambling
      × Says m in_cfg "AdditionalDMRS" cfg.additional_dmrs
      × Says m in_cfg "Pi2BPSK" cfg.pi2_bpsk
      × Holds m in_cfg "OCCI" cfg.occ_index
      × Holds m in_cfg "SpreadingFactor" cfg.occ_length
      × IsUci m in_cfg cfg.uci

  pub f4-IsFormat4 :
      (cfg : Format4Configuration) → populate_f4_configuration m in_cfg ≡ ok cfg → IsFormat4 cfg
  unfolding populate_f4_configuration
  f4-IsFormat4 cfg h =
      let (carrier, has_carrier, h1) = >>=-eq-ok (populate_carrier m in_cfg) _ h in
      let (prb, has_prb, h2) = >>=-eq-ok (unsigned_field m in_cfg "StartPRB") _ h1 in
      let (common, has_common, h3) = >>=-eq-ok (populate_common m carrier prb in_cfg) _ h2 in
      let (rnti, has_rnti, h4) = >>=-eq-ok (unsigned_field m in_cfg "RNTI") _ h3 in
      let (n_id_hopping, has_n_id_hopping, h5) =
        >>=-eq-ok (unsigned_field m in_cfg "NIDHopping") _ h4 in
      let (n_id_scrambling, has_n_id_scrambling, h6) =
        >>=-eq-ok (unsigned_field m in_cfg "NIDScrambling") _ h5 in
      let (additional_dmrs, has_additional_dmrs, h7) =
        >>=-eq-ok (bool_field m in_cfg "AdditionalDMRS") _ h6 in
      let (pi2_bpsk, has_pi2_bpsk, h8) = >>=-eq-ok (bool_field m in_cfg "Pi2BPSK") _ h7 in
      let (occ_index, has_occ_index, h9) = >>=-eq-ok (unsigned_field m in_cfg "OCCI") _ h8 in
      let (occ_length, has_occ_length, h10) =
        >>=-eq-ok (unsigned_field m in_cfg "SpreadingFactor") _ h9 in
      let (uci, has_uci, h11) = >>=-eq-ok (populate_uci m in_cfg) _ h10 in
      subst IsFormat4 (ok-injective _ cfg h11) (
        populate_common-IsCommon m in_cfg carrier prb common has_carrier has_prb has_common,
        has_rnti,
        has_n_id_hopping,
        has_n_id_scrambling,
        has_additional_dmrs,
        has_pi2_bpsk,
        has_occ_index,
        has_occ_length,
        populate_uci-IsUci m in_cfg uci has_uci,
      )

  pub IsFormat4-f4 :
      (cfg : Format4Configuration) → IsFormat4 cfg → populate_f4_configuration m in_cfg ≡ ok cfg
  unfolding populate_f4_configuration
  IsFormat4-f4 cfg
        (
          common, has_rnti, has_n_id_hopping, has_n_id_scrambling, has_additional_dmrs,
          has_pi2_bpsk, has_occ_index, has_occ_length, has_uci,
        ) =
      rw
        (
          IsCommon-populate_carrier m in_cfg cfg.common common,
          common.start,
          IsCommon-populate_common m in_cfg cfg.common common,
          has_rnti,
          has_n_id_hopping,
          has_n_id_scrambling,
          has_additional_dmrs,
          has_pi2_bpsk,
          has_occ_index,
          has_occ_length,
          IsUci-populate_uci m in_cfg cfg.uci has_uci,
        )
        refl
