-- ===== src/Estimator/Readable.antt =====
-- multiport_channel_estimator_mex.cpp: what the reading of the inputs of `method_step` has checked.
use srs_ran_matlab.Prelude.{
  ℕ, zero, suc, ◌+◌, ◌*◌, ◌<◌, ◌≤◌, ◌≡◌, refl, sym, subst, ap, ◌∙◌, some, get_elem?, not, ◌||◌,
  List, [], ◌∷◌, length, arith, ◌==◌, ltb,
}
use srs_ran_matlab.Mex.{
  Matlab, ok, >>=-eq-ok, abort_if-eq-ok, ok-injective, text_field, unsigned_field, is_type,
  not_scalar, complex_single, double, struct,
}
use srs_ran_matlab.Span.{u32}
use srs_ran_matlab.Grid.{GridApi, dim}
use srs_ran_matlab.Convert.{matlab_to_srs_cyclic_prefix, matlab_to_srs_subcarrier_spacing}
use srs_ran_matlab.Estimator.Api.{EstimatorApi, EstimatorConfiguration, LayerDmrsPattern}
use srs_ran_matlab.Estimator.Inputs.{
  check_columns, check_step_outputs_inputs, count, read_dmrs_patterns, read_port_indices,
  read_ports, read_estimator_config, read_pilots,
}

check_columns-le :
    (dims : List ℕ) (columns : ℕ)
    → check_columns dims ≡ ok tt
    → dim dims 1 ≡ ok columns
    → columns ≤ 4
unfolding check_columns
check_columns-le [] columns h e = ground arith
check_columns-le (rows ∷ []) columns h e = ground arith
check_columns-le (rows ∷ c ∷ dims) columns h e =
    let same : c ≡ columns = ok-injective c columns e in ground (arith, same, h)

module _ (m : Matlab) where
  -- What is checked of the arrays.
  pub record AreChecked (rx_grid allocation ref_sym : m.Array) : Type 0 where
    pub at_least : 2 ≤ length (m.get_dimensions rx_grid)
    pub at_most : length (m.get_dimensions rx_grid) ≤ 3
    pub two : m.get_number_of_elements allocation ≡ 2
    pub columns : check_columns (m.get_dimensions ref_sym) ≡ ok tt

  five-AreChecked :
      (outputs : ℕ) (a b c d e : m.Array)
      → check_step_outputs_inputs m outputs (a ∷ b ∷ c ∷ d ∷ e ∷ []) ≡ ok tt
      → (outputs ≡ 2) × AreChecked b c d
  unfolding check_step_outputs_inputs
  five-AreChecked outputs a b c d e h =
      let ds = m.get_dimensions b in
      let (grid, h1) =
        abort_if-eq-ok
          (not (is_type (m.get_type b) complex_single) || ltb (length ds) 2 || ltb 3 (length ds)) _
          _ _ h in
      let (two, h2) =
        abort_if-eq-ok
          (not (is_type (m.get_type c) double) || not (m.get_number_of_elements c == 2)) _ _ _ h1 in
      let (_, h3) = abort_if-eq-ok (not (is_type (m.get_type d) complex_single)) _ _ _ h2 in
      let (_, h4) = abort_if-eq-ok (ltb 2 (length (m.get_dimensions d))) _ _ _ h3 in
      let (u, columns, h5) = >>=-eq-ok (check_columns (m.get_dimensions d)) _ h4 in
      let (_, h6) = abort_if-eq-ok (not_scalar m struct e) _ _ _ h5 in
      (
        ground (arith, h6),
        record {
          at_least = ground (arith, grid);
          at_most = ground (arith, grid);
          two = ground (arith, two);
          columns = columns;
        },
      )

  pub check-ok :
      (outputs : ℕ) (inputs : List m.Array)
      → check_step_outputs_inputs m outputs inputs ≡ ok tt
      → (a b c d e : m.Array) × (inputs ≡ a ∷ b ∷ c ∷ d ∷ e ∷ []) × (outputs ≡ 2) × AreChecked b c d
  unfolding check_step_outputs_inputs
  check-ok outputs [] h = ground arith
  check-ok outputs (a ∷ []) h = ground arith
  check-ok outputs (a ∷ b ∷ []) h = ground arith
  check-ok outputs (a ∷ b ∷ c ∷ []) h = ground arith
  check-ok outputs (a ∷ b ∷ c ∷ d ∷ []) h = ground arith
  check-ok outputs (a ∷ b ∷ c ∷ d ∷ e ∷ x ∷ xs) h = ground arith
  check-ok outputs (a ∷ b ∷ c ∷ d ∷ e ∷ []) h =
      let (two, checked) = five-AreChecked outputs a b c d e h in
      (a, b, c, d, e, refl, two, checked)

module _ (m : Matlab) (grids : GridApi m.Complex)
    (api : EstimatorApi m.Number m.Complex grids.Grid) where
  -- The parts of a pair that is returned.
  parts :
      (made read : EstimatorConfiguration api.Float × ℕ)
      → ok made ≡ ok read
      → (made.0.dmrs_pattern ≡ read.0.dmrs_pattern) × (made.1 ≡ read.1)
  parts made read h =
      let same = ok-injective made read h in (ap (λ p. p.0.dmrs_pattern) same, ap (λ p. p.1) same)

  pub read_estimator_config-le :
      (action rx_grid allocation ref_sym config in_cfg : m.Array)
      (cfg : EstimatorConfiguration api.Float) (nof_layers : ℕ)
      → check_columns (m.get_dimensions ref_sym) ≡ ok tt
      → read_estimator_config m api (action ∷ rx_grid ∷ allocation ∷ ref_sym ∷ config ∷ []) in_cfg
        ≡ ok (cfg, nof_layers)
      → nof_layers ≤ 4
  unfolding read_estimator_config
  read_estimator_config-le action rx_grid allocation ref_sym config in_cfg cfg nof_layers few h =
      let (in_cp, _, h1) = >>=-eq-ok (text_field m in_cfg "CyclicPrefix") _ h in
      let (cp, _, h2) = >>=-eq-ok (matlab_to_srs_cyclic_prefix in_cp) _ h1 in
      let (scs_in, _, h3) = >>=-eq-ok (unsigned_field m in_cfg "SubcarrierSpacing") _ h2 in
      let (scs, _, h4) = >>=-eq-ok (matlab_to_srs_subcarrier_spacing scs_in) _ h3 in
      let (first_symbol, _, h5) = >>=-eq-ok (m.element allocation 0) _ h4 in
      let (nof_symbols, _, h6) = >>=-eq-ok (m.element allocation 1) _ h5 in
      let (columns, has, h7) = >>=-eq-ok (dim (m.get_dimensions ref_sym) 1) _ h6 in
      let (patterns, read, h8) = >>=-eq-ok (read_dmrs_patterns m api in_cfg (u32 columns)) _ h7 in
      let (scaling_field, _, h9) = >>=-eq-ok (m.field in_cfg 0 "BetaScaling") _ h8 in
      let (scaling, _, h10) = >>=-eq-ok (m.element scaling_field 0) _ h9 in
      let layers = ap (λ p. p.1) (ok-injective _ (cfg, nof_layers) h10) in
      omega (arith, check_columns-le (m.get_dimensions ref_sym) columns few has, layers)

  -- Each port from `i` on has an index that is readable, and gets it.
  abbrev pub AreIndices : m.Array → ℕ → ℕ → List ℕ → Type 0
  AreIndices indices i left rx_ports =
      (p : ℕ)
      → p < left
      → (index : m.Number) × (m.element indices (i + p) ≡ ok index)
        × (get_elem? rx_ports p ≡ some (m.as_unsigned index))

  index_at :
      (indices : m.Array) (i left : ℕ) (index : m.Number) (others : List ℕ)
      → m.element indices i ≡ ok index
      → AreIndices indices (i + 1) left others
      → AreIndices indices i (suc left) (m.as_unsigned index ∷ others)
  index_at indices i left index others here there zero h =
      (index, ap (m.element indices) {x = i + 0} {y = i} (omega arith) ∙ here, refl)
  index_at indices i left index others here there (suc p) h =
      let (next, has, gets) = there p (omega arith) in
      (next, ap (m.element indices) {x = i + suc p} {y = i + 1 + p} (omega arith) ∙ has, gets)

  read_port_indices-ok :
      (indices : m.Array) (left i : ℕ) (rx_ports : List ℕ)
      → read_port_indices m indices left i ≡ ok rx_ports
      → (length rx_ports ≡ left) × AreIndices indices i left rx_ports
  unfolding read_port_indices
  read_port_indices-ok indices zero i rx_ports h =
      (ap length (sym (ok-injective [] rx_ports h)), λ p l. ground arith)
  read_port_indices-ok indices (suc left) i rx_ports h =
      let (index, has, h1) = >>=-eq-ok (m.element indices i) _ h in
      let (others, read, h2) = >>=-eq-ok (read_port_indices m indices left (i + 1)) _ h1 in
      let (size, rest) = read_port_indices-ok indices left (i + 1) others read in
      let same : m.as_unsigned index ∷ others ≡ rx_ports = ok-injective _ rx_ports h2 in
      (
        ap length (sym same) ∙ ap suc size,
        subst (AreIndices indices i (suc left)) same
            (index_at indices i left index others has rest),
      )

  pub read_ports-ok :
      (in_cfg : m.Array) (nof_rx_ports : ℕ) (rx_ports : List ℕ)
      → read_ports m in_cfg nof_rx_ports ≡ ok rx_ports
      → (indices : m.Array) × (m.field in_cfg 0 "PortIndices" ≡ ok indices)
        × (u32 (m.get_number_of_elements indices) ≡ nof_rx_ports)
        × (length rx_ports ≡ nof_rx_ports)
        × AreIndices indices 0 nof_rx_ports rx_ports
  unfolding read_ports
  read_ports-ok in_cfg nof_rx_ports rx_ports h =
      let (indices, has, h1) = >>=-eq-ok (m.field in_cfg 0 "PortIndices") _ h in
      let (agree, h2) =
        abort_if-eq-ok (not (u32 (m.get_number_of_elements indices) == nof_rx_ports)) _ _ _ h1 in
      let (size, read) = read_port_indices-ok indices nof_rx_ports 0 rx_ports h2 in
      (indices, has, ground (arith, agree), size, read)

  -- The number of pilots of all layers.
  abbrev pub nof_pilots : LayerDmrsPattern → ℕ → ℕ
  nof_pilots pattern nof_layers =
      u32 (
        u32 (count pattern.rb_mask * count pattern.re_pattern) * count pattern.symbols * nof_layers)

  pub read_pilots-ok :
      (action rx_grid allocation ref_sym config : m.Array) (pattern : LayerDmrsPattern)
      (nof_layers : ℕ) (pilots : api.Pilots)
      → read_pilots m api (action ∷ rx_grid ∷ allocation ∷ ref_sym ∷ config ∷ []) pattern nof_layers
        ≡ ok pilots
      → m.get_number_of_elements ref_sym ≡ nof_pilots pattern nof_layers
  unfolding read_pilots
  read_pilots-ok action rx_grid allocation ref_sym config pattern nof_layers pilots h =
      let (agree, _) =
        abort_if-eq-ok (not (m.get_number_of_elements ref_sym == nof_pilots pattern nof_layers)) _ _
          _ h in
      ground (arith, agree)
