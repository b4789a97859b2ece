-- ===== src/Estimator/Layers.antt =====
-- multiport_channel_estimator_mex.cpp: the DM-RS patterns of the layers.
use srs_ran_matlab.Prelude.{
  ℕ, zero, suc, ◌+◌, ◌<◌, ◌≤◌, ◌≡◌, refl, ap, ◌∙◌, List, [], ◌∷◌, Option, some, Bool, ltb, length,
  get_elem?, if◌then◌else◌, arith, Bool-cases, inl, inr,
}
use srs_ran_matlab.Mex.{Matlab, ok}
use srs_ran_matlab.Bitset.{bitset-fits}
use srs_ran_matlab.Estimator.Api.{EstimatorApi, LayerDmrsPattern}
use srs_ran_matlab.Estimator.Inputs.{dmrs_pattern_of, dmrs_patterns}

module _ (m : Matlab) {Grid : Type 0} (api : EstimatorApi m.Number m.Complex Grid)
    (symbols rb_mask cdm0 cdm1 rb_mask2 : List Bool) (hop : Option ℕ)
    (symbols_fit : length symbols ≤ api.max_nsymb_per_slot)
    (mask_fits : length rb_mask ≤ api.max_nof_crbs) (cdm0_fits : length cdm0 ≤ 12)
    (cdm1_fits : length cdm1 ≤ 12) where
  -- The pattern of a layer.
  abbrev pub pattern_at : ℕ → LayerDmrsPattern
  pattern_at l = record {
    symbols = symbols;
    rb_mask = rb_mask;
    hopping_symbol_index = hop;
    rb_mask2 = rb_mask2;
    re_pattern = if ltb l 2 then cdm0 else cdm1;
  }

  elements_fit : (l : ℕ) → length (if ltb l 2 then cdm0 else cdm1) ≤ 12
  elements_fit l = elim (Bool-cases (ltb l 2)) [ inl h ↦ rw h cdm0_fits | inr h ↦ rw h cdm1_fits ]

  dmrs_pattern_of_lem :
      (l : ℕ)
      → dmrs_pattern_of m api symbols rb_mask (ok (hop, rb_mask2)) cdm0 cdm1 l ≡ ok (pattern_at l)
  unfolding dmrs_pattern_of
  dmrs_pattern_of_lem l =
      rw
        (
          bitset-fits api.max_nsymb_per_slot symbols symbols_fit,
          bitset-fits api.max_nof_crbs rb_mask mask_fits,
          bitset-fits 12 (if ltb l 2 then cdm0 else cdm1) (elements_fit l),
        )
        refl

  at_or_after :
      (i left : ℕ) (patterns : List LayerDmrsPattern)
      → ((l : ℕ) → l < left → get_elem? patterns l ≡ some (pattern_at (i + 1 + l)))
      → (l : ℕ) → l < suc left
      → get_elem? (pattern_at i ∷ patterns) l ≡ some (pattern_at (i + l))
  at_or_after i left patterns at zero h =
      ap (λ q. some (pattern_at q)) {x = i} {y = i + 0} (omega arith)
  at_or_after i left patterns at (suc l) h =
      at l (omega arith)
      ∙ ap (λ q. some (pattern_at q)) {x = i + 1 + l} {y = i + suc l} (omega arith)

  patterns_from :
      (left i : ℕ)
      → (patterns : List LayerDmrsPattern) × (dmrs_patterns m api symbols rb_mask
            (ok (hop, rb_mask2))
            cdm0
            cdm1
            left
            i
          ≡ ok patterns)
        × (length patterns ≡ left)
        × ((l : ℕ) → l < left → get_elem? patterns l ≡ some (pattern_at (i + l)))
  unfolding dmrs_patterns
  patterns_from zero i = ([], refl, refl, λ l h. ground arith)
  patterns_from (suc left) i =
      let (patterns, made, size, at) = patterns_from left (i + 1) in
      (
        pattern_at i ∷ patterns,
        rw (dmrs_pattern_of_lem i, made) refl,
        omega (arith, size),
        at_or_after i left patterns at,
      )

  -- Where the bitmaps fit their capacities, each of the layers gets a pattern: all have the same
  -- symbols, resource blocks and hopping, and the resource elements are those of the first CDM group for
  -- the layers 0 and 1 and those of the second for the layers from 2 on.
  pub dmrs_patterns_lem :
      (nof_layers : ℕ)
      → (patterns : List LayerDmrsPattern) × (dmrs_patterns m api symbols rb_mask
            (ok (hop, rb_mask2))
            cdm0
            cdm1
            nof_layers
            0
          ≡ ok patterns)
        × (length patterns ≡ nof_layers)
        × ((l : ℕ) → l < nof_layers → get_elem? patterns l ≡ some (pattern_at l))
  dmrs_patterns_lem nof_layers =
      let (patterns, made, size, at) = patterns_from nof_layers 0 in
      (
        patterns,
        made,
        size,
        λ l h. at l h ∙ ap (λ q. some (pattern_at q)) {x = 0 + l} {y = l} (omega arith),
      )
