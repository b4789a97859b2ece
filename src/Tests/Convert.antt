-- ===== src/Tests/Convert.antt =====
-- matlab_to_srs.h on a name and a number.
use srs_ran_matlab.Prelude.{◌≡◌, ◌↔◌, ◌*◌, ◌^◌, [], ◌∷◌}
use srs_ran_matlab.Mex.{ok, terminate, num, text}
use srs_ran_matlab.Convert.{
  qam16, matlab_to_srs_modulation, extended, matlab_to_srs_cyclic_prefix, type_a,
  matlab_to_srs_restricted_set, khz120, matlab_to_srs_subcarrier_spacing, bg2,
  matlab_to_srs_base_graph, type2, matlab_to_srs_dmrs_type,
}
use srs_ran_matlab.Convert.Domains.{
  StopsBy, IsModulationName, cyclic_prefix_name, restricted_set_name, names_iff, numerology,
  base_graph_index, dmrs_type_index, numbers_iff,
}

names_iff_example :
    ((matlab_to_srs_modulation "16QAM" ≡ ok qam16) ↔ IsModulationName qam16 "16QAM")
    × StopsBy
        (terminate "Unknown modulation {}." (text "16QAM" ∷ []))
        (matlab_to_srs_modulation "16QAM")
    × ((matlab_to_srs_cyclic_prefix "16QAM" ≡ ok extended)
        ↔ ("16QAM" ≡ cyclic_prefix_name extended))
    × StopsBy
        (terminate "Unknown cyclic prefix {}." (text "16QAM" ∷ []))
        (matlab_to_srs_cyclic_prefix "16QAM")
    × ((matlab_to_srs_restricted_set "16QAM" ≡ ok type_a) ↔ ("16QAM" ≡ restricted_set_name type_a))
    × StopsBy
        (terminate "Unknown restricted set {}." (text "16QAM" ∷ []))
        (matlab_to_srs_restricted_set "16QAM")
names_iff_example = names_iff "16QAM" qam16 extended type_a

numbers_iff_example :
    ((matlab_to_srs_subcarrier_spacing 2 ≡ ok khz120) ↔ (2 ≡ 15 * 2 ^ numerology khz120))
    × StopsBy
        (terminate "Unknown subcarrier spacing {} kHz." (num 2 ∷ []))
        (matlab_to_srs_subcarrier_spacing 2)
    × ((matlab_to_srs_base_graph 2 ≡ ok bg2) ↔ (2 ≡ base_graph_index bg2))
    × StopsBy (terminate "Unknown base graph {}." (num 2 ∷ [])) (matlab_to_srs_base_graph 2)
    × ((matlab_to_srs_dmrs_type 2 ≡ ok type2) ↔ (2 ≡ dmrs_type_index type2))
    × StopsBy (terminate "Unknown DMRS type {}." (num 2 ∷ [])) (matlab_to_srs_dmrs_type 2)
numbers_iff_example = numbers_iff 2 khz120 bg2 type2
