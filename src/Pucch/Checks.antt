-- ===== src/Pucch/Checks.antt =====
-- pucch_processor_mex.cpp: what `check_step_outputs_inputs` lets through.
use srs_ran_matlab.Prelude.{
  ℕ, ◌≤◌, ◌≡◌, refl, ◌⊎◌, inl, inr, true, false, not, List, [], ◌∷◌, length, ◌==◌, ◌&&◌, ◌||◌, ltb,
  arith, Bool-cases,
}
use srs_ran_matlab.Mex.{Matlab, ok, abort_if-eq-ok, is_type, not_scalar, complex_single, struct}
use srs_ran_matlab.Pucch.Step.{check_step_outputs_inputs}

module _ (m : Matlab) where
  pub inputs_four :
      (outputs : ℕ) (inputs : List m.Array)
      → check_step_outputs_inputs m outputs inputs ≡ ok tt
      → length inputs ≡ 4
  unfolding check_step_outputs_inputs
  inputs_four outputs inputs h =
      let n = abort_if-eq-ok (not (length inputs == 4)) _ _ _ h in ground (arith, n.0)

  pub length_four :
      (inputs : List m.Array)
      → length inputs ≡ 4
      → (a : m.Array) × (b : m.Array) × (c : m.Array) × (d : m.Array) × (inputs
          ≡ a ∷ b ∷ c ∷ d ∷ [])
  length_four [] h = ground arith
  length_four (a ∷ []) h = ground arith
  length_four (a ∷ b ∷ []) h = ground arith
  length_four (a ∷ b ∷ c ∷ []) h = ground arith
  length_four (a ∷ b ∷ c ∷ d ∷ []) h = (a, b, c, d, refl)
  length_four (a ∷ b ∷ c ∷ d ∷ e ∷ es) h = ground arith

  list_type :
      (mux_format1 : m.Array)
      → (not (m.is_empty mux_format1) && not (is_type (m.get_type mux_format1) struct)) ≡ false
      → (m.is_empty mux_format1 ≡ true) ⊎ (is_type (m.get_type mux_format1) struct ≡ true)
  list_type mux_format1 h = elim (Bool-cases (m.is_empty mux_format1)) [
    | inl k ↦ inl k
    | inr k ↦ inr (ground arith)
  ]

  -- The checks of the types and sizes of four inputs, and of the number of outputs.
  pub checks_of_four :
      (action rx_grid config mux_format1 : m.Array) (outputs : ℕ)
      → check_step_outputs_inputs m outputs (action ∷ rx_grid ∷ config ∷ mux_format1 ∷ []) ≡ ok tt
      → (is_type (m.get_type rx_grid) complex_single ≡ true)
        × ((2 ≤ length (m.get_dimensions rx_grid)) × (length (m.get_dimensions rx_grid) ≤ 3))
        × (not_scalar m struct config ≡ false)
        × ((m.is_empty mux_format1 ≡ true) ⊎ (is_type (m.get_type mux_format1) struct ≡ true))
        × (outputs ≡ 1)
  unfolding check_step_outputs_inputs
  checks_of_four action rx_grid config mux_format1 outputs h =
      let dims = m.get_dimensions rx_grid in
      let g =
        abort_if-eq-ok
          (not (is_type (m.get_type rx_grid) complex_single)
            || ltb (length dims) 2
            || ltb 3 (length dims))
          _ _ _ h in
      let c = abort_if-eq-ok (not_scalar m struct config) _ _ _ g.1 in
      let l =
        abort_if-eq-ok
          (not (m.is_empty mux_format1) && not (is_type (m.get_type mux_format1) struct)) _ _ _
          c.1 in
      (
        ground (arith, g.0),
        (ground (arith, g.0), ground (arith, g.0)),
        c.0,
        list_type mux_format1 l.0,
        ground (arith, l.1),
      )

  dims_allowed :
      (rx_grid : m.Array)
      → is_type (m.get_type rx_grid) complex_single ≡ true
      → (2 ≤ length (m.get_dimensions rx_grid)) × (length (m.get_dimensions rx_grid) ≤ 3)
      → (not (is_type (m.get_type rx_grid) complex_single)
          || ltb (length (m.get_dimensions rx_grid)) 2
          || ltb 3 (length (m.get_dimensions rx_grid)))
        ≡ false
  dims_allowed rx_grid floats dims = ground arith

  type_allowed :
      (mux_format1 : m.Array)
      → (m.is_empty mux_format1 ≡ true) ⊎ (is_type (m.get_type mux_format1) struct ≡ true)
      → (not (m.is_empty mux_format1) && not (is_type (m.get_type mux_format1) struct)) ≡ false
  type_allowed mux_format1 h = ground arith

  -- Four inputs that meet the conditions pass the checks.
  pub checks_complete :
      (action rx_grid config mux_format1 : m.Array)
      → is_type (m.get_type rx_grid) complex_single ≡ true
      → (2 ≤ length (m.get_dimensions rx_grid)) × (length (m.get_dimensions rx_grid) ≤ 3)
      → not_scalar m struct config ≡ false
      → (m.is_empty mux_format1 ≡ true) ⊎ (is_type (m.get_type mux_format1) struct ≡ true)
      → check_step_outputs_inputs m 1 (action ∷ rx_grid ∷ config ∷ mux_format1 ∷ []) ≡ ok tt
  unfolding check_step_outputs_inputs
  checks_complete action rx_grid config mux_format1 floats dims structure list =
      rw (dims_allowed rx_grid floats dims, structure, type_allowed mux_format1 list) refl
