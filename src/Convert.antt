-- ===== src/Convert.antt =====
-- matlab_to_srs.h: MATLAB's names and numbers for radio parameters, converted to srsRAN's
-- enumerations. The enumerations hold the members that the header names.
pub mod Domains
use srs_ran_matlab.Prelude.{
  ℕ, String, Bool, true, false, [], ◌∷◌, ◌||◌, ◌==◌, str_eq, if◌then◌else◌,
}
use srs_ran_matlab.Mex.{Result, ok, err, terminate, num, text}

pub data ModulationScheme : Type 0 where
  bpsk pi_2_bpsk qpsk qam16 qam64 qam256 : ModulationScheme

unfoldable pub matlab_to_srs_modulation : String → Result ModulationScheme
matlab_to_srs_modulation name =
    if str_eq name "BPSK"
    then ok bpsk
    else if str_eq name "pi/2-BPSK"
    then ok pi_2_bpsk
    else if str_eq name "QPSK"
    then ok qpsk
    else if str_eq name "QAM16" || str_eq name "16QAM"
    then ok qam16
    else if str_eq name "QAM64" || str_eq name "64QAM"
    then ok qam64
    else if str_eq name "QAM256" || str_eq name "256QAM"
    then ok qam256
    else err (terminate "Unknown modulation {}." (text name ∷ []))

pub data BaseGraph : Type 0 where
  bg1 bg2 : BaseGraph

unfoldable pub matlab_to_srs_base_graph : ℕ → Result BaseGraph
matlab_to_srs_base_graph bg =
    if bg == 1
    then ok bg1
    else if bg == 2
    then ok bg2
    else err (terminate "Unknown base graph {}." (num bg ∷ []))

pub data RestrictedSet : Type 0 where
  unrestricted type_a type_b : RestrictedSet

unfoldable pub matlab_to_srs_restricted_set : String → Result RestrictedSet
matlab_to_srs_restricted_set set =
    if str_eq set "UnrestrictedSet"
    then ok unrestricted
    else if str_eq set "RestrictedSetTypeA"
    then ok type_a
    else if str_eq set "RestrictedSetTypeB"
    then ok type_b
    else err (terminate "Unknown restricted set {}." (text set ∷ []))

pub data DmrsType : Type 0 where
  type1 type2 : DmrsType

unfoldable pub matlab_to_srs_dmrs_type : ℕ → Result DmrsType
matlab_to_srs_dmrs_type type =
    if type == 1
    then ok type1
    else if type == 2
    then ok type2
    else err (terminate "Unknown DMRS type {}." (num type ∷ []))

pub data CyclicPrefix : Type 0 where
  normal extended : CyclicPrefix

unfoldable pub matlab_to_srs_cyclic_prefix : String → Result CyclicPrefix
matlab_to_srs_cyclic_prefix cp =
    if str_eq cp "normal"
    then ok normal
    else if str_eq cp "extended"
    then ok extended
    else err (terminate "Unknown cyclic prefix {}." (text cp ∷ []))

pub data SubcarrierSpacing : Type 0 where
  khz15 khz30 khz60 khz120 khz240 : SubcarrierSpacing

unfoldable pub matlab_to_srs_subcarrier_spacing : ℕ → Result SubcarrierSpacing
matlab_to_srs_subcarrier_spacing scs =
    if scs == 15
    then ok khz15
    else if scs == 30
    then ok khz30
    else if scs == 60
    then ok khz60
    else if scs == 120
    then ok khz120
    else if scs == 240
    then ok khz240
    else err (terminate "Unknown subcarrier spacing {} kHz." (num scs ∷ []))
