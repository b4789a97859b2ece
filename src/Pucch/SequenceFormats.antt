-- ===== src/Pucch/SequenceFormats.antt =====
-- pucch_processor_mex.cpp: which field of the MATLAB structure each member of the configurations of
-- formats 0 and 1 comes from.
use srs_ran_matlab.Prelude.{ℕ, ◌≡◌, refl, sym, subst, ◌==◌}
use srs_ran_matlab.Mex.{Matlab, ok, unsigned_field, >>=-eq-ok, ok-injective}
use srs_ran_matlab.Pucch.Config.{Format0Configuration, Format1Configuration}
use srs_ran_matlab.Pucch.Populate.{
  populate_carrier, populate_common, populate_f0_configuration, populate_f1_configuration,
}
use srs_ran_matlab.Pucch.Fields.{
  Holds, IsCommon, populate_common-IsCommon, IsCommon-populate_carrier, IsCommon-populate_common,
}

module _ (m : Matlab) (in_cfg : m.Array) where
  abbrev pub IsFormat0 : Format0Configuration → Type 0
  IsFormat0 cfg =
      IsCommon m in_cfg cfg.common
      × Holds m in_cfg "InitialCyclicShift" cfg.initial_cyclic_shift
      × Holds m in_cfg "NID" cfg.n_id
      × Holds m in_cfg "NumHARQAck" cfg.nof_harq_ack
      × (nof_sr : ℕ) × Holds m in_cfg "NumSR" nof_sr
      × (cfg.sr_opportunity ≡ (nof_sr == 1))

  pub f0-IsFormat0 :
      (cfg : Format0Configuration) → populate_f0_configuration m in_cfg ≡ ok cfg → IsFormat0 cfg
  unfolding populate_f0_configuration
  f0-IsFormat0 cfg h =
      let (carrier, has_carrier, h1) = >>=-eq-ok (populate_carrier m in_cfg) _ h in
      let (prb, has_prb, h2) = >>=-eq-ok (unsigned_field m in_cfg "StartPRB") _ h1 in
      let (common, has_common, h3) = >>=-eq-ok (populate_common m carrier prb in_cfg) _ h2 in
      let (initial_cyclic_shift, has_initial_cyclic_shift, h4) =
        >>=-eq-ok (unsigned_field m in_cfg "InitialCyclicShift") _ h3 in
      let (n_id, has_n_id, h5) = >>=-eq-ok (unsigned_field m in_cfg "NID") _ h4 in
      let (nof_harq_ack, has_nof_harq_ack, h6) =
        >>=-eq-ok (unsigned_field m in_cfg "NumHARQAck") _ h5 in
      let (sr, has_sr, h7) = >>=-eq-ok (unsigned_field m in_cfg "NumSR") _ h6 in
      subst IsFormat0 (ok-injective _ cfg h7) (
        populate_common-IsCommon m in_cfg carrier prb common has_carrier has_prb has_common,
        has_initial_cyclic_shift,
        has_n_id,
        has_nof_harq_ack,
        sr,
        has_sr,
        refl,
      )

  pub IsFormat0-f0 :
      (cfg : Format0Configuration) → IsFormat0 cfg → populate_f0_configuration m in_cfg ≡ ok cfg
  unfolding populate_f0_configuration
  IsFormat0-f0 cfg
        (common, has_initial_cyclic_shift, has_n_id, has_nof_harq_ack, sr, has_sr, opportunity) =
      rw
        (
          IsCommon-populate_carrier m in_cfg cfg.common common,
          common.start,
          IsCommon-populate_common m in_cfg cfg.common common,
          has_initial_cyclic_shift,
          has_n_id,
          has_nof_harq_ack,
          has_sr,
          sym opportunity,
        )
        refl

  abbrev pub IsFormat1 : Format1Configuration → Type 0
  IsFormat1 cfg =
      IsCommon m in_cfg cfg.common
      × Holds m in_cfg "NID" cfg.n_id
      × Holds m in_cfg "NumHARQAck" cfg.nof_harq_ack
      × Holds m in_cfg "InitialCyclicShift" cfg.initial_cyclic_shift
      × Holds m in_cfg "OCCI" cfg.time_domain_occ

  pub f1-IsFormat1 :
      (cfg : Format1Configuration) → populate_f1_configuration m in_cfg ≡ ok cfg → IsFormat1 cfg
  unfolding populate_f1_configuration
  f1-IsFormat1 cfg h =
      let (carrier, has_carrier, h1) = >>=-eq-ok (populate_carrier m in_cfg) _ h in
      let (prb, has_prb, h2) = >>=-eq-ok (unsigned_field m in_cfg "StartPRB") _ h1 in
      let (common, has_common, h3) = >>=-eq-ok (populate_common m carrier prb in_cfg) _ h2 in
      let (n_id, has_n_id, h4) = >>=-eq-ok (unsigned_field m in_cfg "NID") _ h3 in
      let (nof_harq_ack, has_nof_harq_ack, h5) =
        >>=-eq-ok (unsigned_field m in_cfg "NumHARQAck") _ h4 in
      let (initial_cyclic_shift, has_initial_cyclic_shift, h6) =
        >>=-eq-ok (unsigned_field m in_cfg "InitialCyclicShift") _ h5 in
      let (time_domain_occ, has_time_domain_occ, h7) =
        >>=-eq-ok (unsigned_field m in_cfg "OCCI") _ h6 in
      subst IsFormat1 (ok-injective _ cfg h7) (
        populate_common-IsCommon m in_cfg carrier prb common has_carrier has_prb has_common,
        has_n_id,
        has_nof_harq_ack,
        has_initial_cyclic_shift,
        has_time_domain_occ,
      )

  pub IsFormat1-f1 :
      (cfg : Format1Configuration) → IsFormat1 cfg → populate_f1_configuration m in_cfg ≡ ok cfg
  unfolding populate_f1_configuration
  IsFormat1-f1 cfg
        (common, has_n_id, has_nof_harq_ack, has_initial_cyclic_shift, has_time_domain_occ) =
      rw
        (
          IsCommon-populate_carrier m in_cfg cfg.common common,
          common.start,
          IsCommon-populate_common m in_cfg cfg.common common,
          has_n_id,
          has_nof_harq_ack,
          has_initial_cyclic_shift,
          has_time_domain_occ,
        )
        refl
