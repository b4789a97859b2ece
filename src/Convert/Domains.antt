-- ===== src/Convert/Domains.antt =====
-- matlab_to_srs.h: which names and numbers each conversion takes, and what it makes of them.
use srs_ran_matlab.Prelude.{ℕ, String, [], ◌∷◌, ◌≡◌, ◌↔◌, ◌⊎◌, inl, inr, arith, eq_iff, ◌*◌, ◌^◌}
use srs_ran_matlab.Mex.{Result, ok, err, Error, terminate, num, text}
use srs_ran_matlab.Convert.{
  ModulationScheme, bpsk, pi_2_bpsk, qpsk, qam16, qam64, qam256, matlab_to_srs_modulation,
  BaseGraph, bg1, bg2, matlab_to_srs_base_graph, RestrictedSet, unrestricted, type_a, type_b,
  matlab_to_srs_restricted_set, DmrsType, type1, type2, matlab_to_srs_dmrs_type, CyclicPrefix,
  normal, extended, matlab_to_srs_cyclic_prefix, SubcarrierSpacing, khz15, khz30, khz60, khz120,
  khz240, matlab_to_srs_subcarrier_spacing,
}

-- A conversion stops in no other way than by this error.
abbrev pub StopsBy {ℓ} : {A : Type ℓ} → Error → Result A → Type 0
StopsBy unknown (ok a) = Unit
StopsBy unknown (err e) = e ≡ unknown

abbrev pub IsModulationName : ModulationScheme → String → Type 0
IsModulationName bpsk s = s ≡ "BPSK"
IsModulationName pi_2_bpsk s = s ≡ "pi/2-BPSK"
IsModulationName qpsk s = s ≡ "QPSK"
IsModulationName qam16 s = (s ≡ "QAM16") ⊎ (s ≡ "16QAM")
IsModulationName qam64 s = (s ≡ "QAM64") ⊎ (s ≡ "64QAM")
IsModulationName qam256 s = (s ≡ "QAM256") ⊎ (s ≡ "256QAM")

modulation_name :
    (s : String) (a : ModulationScheme) → matlab_to_srs_modulation s ≡ ok a → IsModulationName a s
unfolding matlab_to_srs_modulation
modulation_name s a = ground (
  arith,
  eq_iff s "BPSK",
  eq_iff s "pi/2-BPSK",
  eq_iff s "QPSK",
  eq_iff s "QAM16",
  eq_iff s "16QAM",
  eq_iff s "QAM64",
  eq_iff s "64QAM",
  eq_iff s "QAM256",
  eq_iff s "256QAM",
)

name_modulation :
    (a : ModulationScheme) (s : String) → IsModulationName a s → matlab_to_srs_modulation s ≡ ok a
unfolding matlab_to_srs_modulation
name_modulation bpsk s e = rw e
name_modulation pi_2_bpsk s e = rw e
name_modulation qpsk s e = rw e
name_modulation qam16 s (inl e) = rw e
name_modulation qam16 s (inr e) = rw e
name_modulation qam64 s (inl e) = rw e
name_modulation qam64 s (inr e) = rw e
name_modulation qam256 s (inl e) = rw e
name_modulation qam256 s (inr e) = rw e

modulation_stops :
    (s : String)
    → StopsBy (terminate "Unknown modulation {}." (text s ∷ [])) (matlab_to_srs_modulation s)
unfolding matlab_to_srs_modulation
modulation_stops s = ground arith

-- A text converts to a modulation exactly when it is one of that modulation's MATLAB names ("QAM16"
-- and "16QAM" alike); the only other outcome is to terminate with the unknown text.
modulation_iff :
    (s : String) (a : ModulationScheme)
    → ((matlab_to_srs_modulation s ≡ ok a) ↔ IsModulationName a s)
      × StopsBy (terminate "Unknown modulation {}." (text s ∷ [])) (matlab_to_srs_modulation s)
modulation_iff s a = ((modulation_name s a, name_modulation a s), modulation_stops s)

abbrev pub cyclic_prefix_name : CyclicPrefix → String
cyclic_prefix_name normal = "normal"
cyclic_prefix_name extended = "extended"

abbrev pub restricted_set_name : RestrictedSet → String
restricted_set_name unrestricted = "UnrestrictedSet"
restricted_set_name type_a = "RestrictedSetTypeA"
restricted_set_name type_b = "RestrictedSetTypeB"

name_cyclic_prefix :
    (a : CyclicPrefix) (s : String)
    → s ≡ cyclic_prefix_name a
    → matlab_to_srs_cyclic_prefix s ≡ ok a
unfolding matlab_to_srs_cyclic_prefix
name_cyclic_prefix normal s e = rw e
name_cyclic_prefix extended s e = rw e

name_restricted_set :
    (a : RestrictedSet) (s : String)
    → s ≡ restricted_set_name a
    → matlab_to_srs_restricted_set s ≡ ok a
unfolding matlab_to_srs_restricted_set
name_restricted_set unrestricted s e = rw e
name_restricted_set type_a s e = rw e
name_restricted_set type_b s e = rw e

-- A text converts to a cyclic prefix exactly when it is its MATLAB name; the only other outcome is to
-- terminate with the text.
cyclic_prefix_iff :
    (s : String) (a : CyclicPrefix)
    → ((matlab_to_srs_cyclic_prefix s ≡ ok a) ↔ (s ≡ cyclic_prefix_name a))
      × StopsBy
          (terminate "Unknown cyclic prefix {}." (text s ∷ []))
          (matlab_to_srs_cyclic_prefix s)
unfolding matlab_to_srs_cyclic_prefix
cyclic_prefix_iff s a =
    ((ground (arith, eq_iff s "normal", eq_iff s "extended"), name_cyclic_prefix a s), ground arith)

-- A text converts to a restricted set exactly when it is its MATLAB name; the only other outcome is
-- to terminate with the text.
restricted_set_iff :
    (s : String) (a : RestrictedSet)
    → ((matlab_to_srs_restricted_set s ≡ ok a) ↔ (s ≡ restricted_set_name a))
      × StopsBy
          (terminate "Unknown restricted set {}." (text s ∷ []))
          (matlab_to_srs_restricted_set s)
unfolding matlab_to_srs_restricted_set
restricted_set_iff s a = (
  (
    ground (
      arith,
      eq_iff s "UnrestrictedSet",
      eq_iff s "RestrictedSetTypeA",
      eq_iff s "RestrictedSetTypeB",
    ),
    name_restricted_set a s,
  ),
  ground arith,
)

abbrev pub base_graph_index : BaseGraph → ℕ
base_graph_index bg1 = 1
base_graph_index bg2 = 2

abbrev pub dmrs_type_index : DmrsType → ℕ
dmrs_type_index type1 = 1
dmrs_type_index type2 = 2

-- 15 kHz doubled by the numerology.
abbrev pub numerology : SubcarrierSpacing → ℕ
numerology khz15 = 0
numerology khz30 = 1
numerology khz60 = 2
numerology khz120 = 3
numerology khz240 = 4

-- A number of kHz converts to a subcarrier spacing exactly when it is 15 times two to the spacing's
-- numerology; the only other outcome is to terminate with the number.
subcarrier_spacing_iff :
    (n : ℕ) (a : SubcarrierSpacing)
    → ((matlab_to_srs_subcarrier_spacing n ≡ ok a) ↔ (n ≡ 15 * 2 ^ numerology a))
      × StopsBy
          (terminate "Unknown subcarrier spacing {} kHz." (num n ∷ []))
          (matlab_to_srs_subcarrier_spacing n)
unfolding matlab_to_srs_subcarrier_spacing
subcarrier_spacing_iff n a = ground arith

-- A number converts to a base graph, or to a DM-RS type, exactly when it is its index; the only other
-- outcome is to terminate with the number.
index_iff :
    (n : ℕ) (a : BaseGraph) (b : DmrsType)
    → ((matlab_to_srs_base_graph n ≡ ok a) ↔ (n ≡ base_graph_index a))
      × StopsBy (terminate "Unknown base graph {}." (num n ∷ [])) (matlab_to_srs_base_graph n)
      × ((matlab_to_srs_dmrs_type n ≡ ok b) ↔ (n ≡ dmrs_type_index b))
      × StopsBy (terminate "Unknown DMRS type {}." (num n ∷ [])) (matlab_to_srs_dmrs_type n)
unfolding matlab_to_srs_base_graph matlab_to_srs_dmrs_type
index_iff n a b = ground arith

-- A text converts to a modulation, a cyclic prefix or a restricted set exactly when it is one of its
-- MATLAB names ("QAM16" and "16QAM" alike); the only other outcome is to terminate with the text.
pub names_iff :
    (s : String) (a : ModulationScheme) (b : CyclicPrefix) (c : RestrictedSet)
    → ((matlab_to_srs_modulation s ≡ ok a) ↔ IsModulationName a s)
      × StopsBy (terminate "Unknown modulation {}." (text s ∷ [])) (matlab_to_srs_modulation s)
      × ((matlab_to_srs_cyclic_prefix s ≡ ok b) ↔ (s ≡ cyclic_prefix_name b))
      × StopsBy
          (terminate "Unknown cyclic prefix {}." (text s ∷ []))
          (matlab_to_srs_cyclic_prefix s)
      × ((matlab_to_srs_restricted_set s ≡ ok c) ↔ (s ≡ restricted_set_name c))
      × StopsBy
          (terminate "Unknown restricted set {}." (text s ∷ []))
          (matlab_to_srs_restricted_set s)
names_iff s a b c = (
  (modulation_iff s a).0,
  (modulation_iff s a).1,
  (cyclic_prefix_iff s b).0,
  (cyclic_prefix_iff s b).1,
  (restricted_set_iff s c).0,
  (restricted_set_iff s c).1,
)

-- A number converts to a subcarrier spacing exactly when it is 15 times two to the spacing's
-- numerology, and to a base graph or a DM-RS type exactly when it is its index; the only other outcome
-- is to terminate with the number.
pub numbers_iff :
    (n : ℕ) (a : SubcarrierSpacing) (b : BaseGraph) (c : DmrsType)
    → ((matlab_to_srs_subcarrier_spacing n ≡ ok a) ↔ (n ≡ 15 * 2 ^ numerology a))
      × StopsBy
          (terminate "Unknown subcarrier spacing {} kHz." (num n ∷ []))
          (matlab_to_srs_subcarrier_spacing n)
      × ((matlab_to_srs_base_graph n ≡ ok b) ↔ (n ≡ base_graph_index b))
      × StopsBy (terminate "Unknown base graph {}." (num n ∷ [])) (matlab_to_srs_base_graph n)
      × ((matlab_to_srs_dmrs_type n ≡ ok c) ↔ (n ≡ dmrs_type_index c))
      × StopsBy (terminate "Unknown DMRS type {}." (num n ∷ [])) (matlab_to_srs_dmrs_type n)
numbers_iff n a b c = (
  (subcarrier_spacing_iff n a).0,
  (subcarrier_spacing_iff n a).1,
  (index_iff n b c).0,
  (index_iff n b c).1,
  (index_iff n b c).2,
  (index_iff n b c).3,
)
