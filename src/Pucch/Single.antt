-- ===== src/Pucch/Single.antt =====
-- pucch_processor_mex.cpp: `call_processor` for a single transmission, of any format.
use srs_ran_matlab.Prelude.{
  ℕ, ◌≤◌, ◌≡◌, refl, sym, ap, ◌∙◌, ◌↔◌, ◌⊎◌, inl, inr, false, Option, none, some, ltb, ◌==◌, arith,
  Bool-cases, String, if◌then◌else◌,
}
use srs_ran_matlab.Mex.{
  Matlab, Result, ok, abort_if-eq-ok, unsigned_field, >>=-eq-ok, ok-injective, ◌>>=◌, ◌>>◌,
}
use srs_ran_matlab.Pucch.Config.{
  Format0Configuration, Format1Configuration, Format2Configuration, Format3Configuration,
  Format4Configuration,
}
use srs_ran_matlab.Pucch.Api.{PucchApi}
use srs_ran_matlab.Pucch.Populate.{
  populate_f0_configuration, populate_f1_configuration, populate_f2_configuration,
  populate_f3_configuration, populate_f4_configuration,
}
use srs_ran_matlab.Pucch.Reported.{reported, payloads-reported}
use srs_ran_matlab.Pucch.Processor.{
  Output, single, payloads, get_result, check_validation, process_format0, process_format1,
  process_format2, process_format3, process_format4, process_format, process_list, process_single,
  call_processor, multiplexed_list,
}

-- A validation that the code goes on from found no error.
check_validation-eq-ok :
    {B : Type 0} (message : String) (validation : Option String) (rest : Result B) {b : B}
    → (check_validation message validation >> rest) ≡ ok b
    → (validation ≡ none) × (rest ≡ ok b)
unfolding check_validation
check_validation-eq-ok message none rest h = (refl, h)
check_validation-eq-ok message (some error) rest h = cc

-- A case of the `switch` on the format.
format_is :
    {B : Type 0} (format k : ℕ) (here others : Result B) {b : B}
    → (if format == k then here else others) ≡ ok b
    → ((format ≡ k) × (here ≡ ok b)) ⊎ (others ≡ ok b)
format_is format k here others h = elim (Bool-cases (format == k)) [
  | inl same ↦ inl (ground (arith, same), sym (ap (λ t. if t then here else others) same) ∙ h)
  | inr other ↦ inr (sym (ap (λ t. if t then here else others) other) ∙ h)
]

module _ (m : Matlab) {Grid : Type 0} (api : PucchApi Grid) (grid : Grid) (in_cfg : m.Array) where
  -- What the processor returns for a transmission of a format, whose configuration the validator
  -- accepts.
  pub data IsProcessed (format : ℕ) (result : api.ProcessorResult) : Type 0 where
    by_format0 :
        (nof_sr : ℕ) (cfg : Format0Configuration)
        → format ≡ 0
        → unsigned_field m in_cfg "NumSR" ≡ ok nof_sr
        → nof_sr ≤ 1
        → populate_f0_configuration m in_cfg ≡ ok cfg
        → api.is_valid0 cfg ≡ none
        → api.process0 grid cfg ≡ result
        → IsProcessed format result
    by_format1 :
        (cfg : Format1Configuration)
        → format ≡ 1
        → populate_f1_configuration m in_cfg ≡ ok cfg
        → api.is_valid1 cfg ≡ none
        → get_result api
            (api.process1 grid (api.batch_of cfg))
            cfg.initial_cyclic_shift
            cfg.time_domain_occ
          ≡ ok result
        → IsProcessed format result
    by_format2 :
        (cfg : Format2Configuration)
        → format ≡ 2
        → populate_f2_configuration m in_cfg ≡ ok cfg
        → api.is_valid2 cfg ≡ none
        → api.process2 grid cfg ≡ result
        → IsProcessed format result
    by_format3 :
        (cfg : Format3Configuration)
        → format ≡ 3
        → populate_f3_configuration m in_cfg ≡ ok cfg
        → api.is_valid3 cfg ≡ none
        → api.process3 grid cfg ≡ result
        → IsProcessed format result
    by_format4 :
        (cfg : Format4Configuration)
        → format ≡ 4
        → populate_f4_configuration m in_cfg ≡ ok cfg
        → api.is_valid4 cfg ≡ none
        → api.process4 grid cfg ≡ result
        → IsProcessed format result

  format0-IsProcessed :
      (format : ℕ) (result : api.ProcessorResult)
      → format ≡ 0
      → process_format0 m api grid in_cfg ≡ ok result
      → IsProcessed format result
  unfolding process_format0
  format0-IsProcessed format result is0 h =
      let (nof_sr, read, h1) = >>=-eq-ok (unsigned_field m in_cfg "NumSR") _ h in
      let (few, h2) = abort_if-eq-ok (ltb 1 nof_sr) _ _ _ h1 in
      let (cfg, populated, h3) = >>=-eq-ok (populate_f0_configuration m in_cfg) _ h2 in
      let (valid, h4) = check_validation-eq-ok _ (api.is_valid0 cfg) _ h3 in
      by_format0 nof_sr cfg is0 read (ground (arith, few)) populated valid
        (ok-injective _ result h4)

  format1-IsProcessed :
      (format : ℕ) (result : api.ProcessorResult)
      → format ≡ 1
      → process_format1 m api grid in_cfg ≡ ok result
      → IsProcessed format result
  unfolding process_format1
  format1-IsProcessed format result is1 h =
      let (cfg, populated, h1) = >>=-eq-ok (populate_f1_configuration m in_cfg) _ h in
      let (valid, h2) = check_validation-eq-ok _ (api.is_valid1 cfg) _ h1 in
      by_format1 cfg is1 populated valid h2

  format2-IsProcessed :
      (format : ℕ) (result : api.ProcessorResult)
      → format ≡ 2
      → process_format2 m api grid in_cfg ≡ ok result
      → IsProcessed format result
  unfolding process_format2
  format2-IsProcessed format result is2 h =
      let (cfg, populated, h1) = >>=-eq-ok (populate_f2_configuration m in_cfg) _ h in
      let (valid, h2) = check_validation-eq-ok _ (api.is_valid2 cfg) _ h1 in
      by_format2 cfg is2 populated valid (ok-injective _ result h2)

  format3-IsProcessed :
      (format : ℕ) (result : api.ProcessorResult)
      → format ≡ 3
      → process_format3 m api grid in_cfg ≡ ok result
      → IsProcessed format result
  unfolding process_format3
  format3-IsProcessed format result is3 h =
      let (cfg, populated, h1) = >>=-eq-ok (populate_f3_configuration m in_cfg) _ h in
      let (valid, h2) = check_validation-eq-ok _ (api.is_valid3 cfg) _ h1 in
      by_format3 cfg is3 populated valid (ok-injective _ result h2)

  format4-IsProcessed :
      (format : ℕ) (result : api.ProcessorResult)
      → format ≡ 4
      → process_format4 m api grid in_cfg ≡ ok result
      → IsProcessed format result
  unfolding process_format4
  format4-IsProcessed format result is4 h =
      let (cfg, populated, h1) = >>=-eq-ok (populate_f4_configuration m in_cfg) _ h in
      let (valid, h2) = check_validation-eq-ok _ (api.is_valid4 cfg) _ h1 in
      by_format4 cfg is4 populated valid (ok-injective _ result h2)

  process_format-IsProcessed :
      (format : ℕ) (result : api.ProcessorResult)
      → process_format m api grid in_cfg format ≡ ok result
      → IsProcessed format result
  unfolding process_format
  process_format-IsProcessed format result h = elim (format_is format 0 _ _ h) [
    | inl (is0, h0) ↦ format0-IsProcessed format result is0 h0
    | inr not0 ↦ elim (format_is format 1 _ _ not0) [
      | inl (is1, h1) ↦ format1-IsProcessed format result is1 h1
      | inr not1 ↦ elim (format_is format 2 _ _ not1) [
        | inl (is2, h2) ↦ format2-IsProcessed format result is2 h2
        | inr not2 ↦ elim (format_is format 3 _ _ not2) [
          | inl (is3, h3) ↦ format3-IsProcessed format result is3 h3
          | inr not3 ↦ elim (format_is format 4 _ _ not3) [
            | inl (is4, h4) ↦ format4-IsProcessed format result is4 h4
            | inr unknown ↦ cc
          ]
        ]
      ]
    ]
  ]

  IsProcessed-process_format :
      (format : ℕ) (result : api.ProcessorResult)
      → IsProcessed format result
      → process_format m api grid in_cfg format ≡ ok result
  unfolding process_format process_format0 process_format1 process_format2 process_format3
      process_format4 check_validation
  IsProcessed-process_format format result (by_format0 nof_sr cfg is0 read few populated valid e) =
      let at_most_one : ltb 1 nof_sr ≡ false = ground arith in
      rw (is0, read, at_most_one, populated, valid) (ap ok e)
  IsProcessed-process_format format result (by_format1 cfg is1 populated valid e) =
      rw (is1, populated, valid) e
  IsProcessed-process_format format result (by_format2 cfg is2 populated valid e) =
      rw (is2, populated, valid) (ap ok e)
  IsProcessed-process_format format result (by_format3 cfg is3 populated valid e) =
      rw (is3, populated, valid) (ap ok e)
  IsProcessed-process_format format result (by_format4 cfg is4 populated valid e) =
      rw (is4, populated, valid) (ap ok e)

  -- A configuration that is not for multiplexed transmissions of format 1 is processed exactly when its
  -- format is one of 0 to 4, its fields for this format are readable, the validator accepts the
  -- configuration, for format 0 there is at most one SR bit, and for format 1 a result can be got for
  -- this configuration. The output then says whether the message that the processor returned for
  -- this configuration is valid, and has the bits of each of its fields under the name of the field.
  pub call_processor_single :
      (format : ℕ) (mux_f1 : Option m.Array) (out : Output)
      → unsigned_field m in_cfg "Format" ≡ ok format
      → multiplexed_list m api format mux_f1 ≡ none
      → (call_processor m api grid in_cfg mux_f1 ≡ ok out) ↔ (
          (result : api.ProcessorResult) × IsProcessed format result
          × (single (reported api result) ≡ out))
  unfolding call_processor process_list process_single
  call_processor_single format mux_f1 out read alone =
      let rest : Result api.ProcessorResult → Result Output =
        λ r. r >>= λ result. ok (single (payloads api result)) in
      let same : call_processor m api grid in_cfg mux_f1
          ≡ rest (process_format m api grid in_cfg format) =
        rw (read, alone) refl in
      (
        λ h.
            let (result, processed, made) =
              >>=-eq-ok (process_format m api grid in_cfg format) _ (sym same ∙ h) in
            (
              result,
              process_format-IsProcessed format result processed,
              ap single (sym (payloads-reported api result)) ∙ ok-injective _ out made,
            ),
        λ (result, processed, made).
            same
            ∙ ap rest (IsProcessed-process_format format result processed)
            ∙ ap ok (ap single (payloads-reported api result) ∙ made),
      )
