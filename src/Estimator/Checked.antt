-- ===== src/Estimator/Checked.antt =====
-- multiport_channel_estimator_mex.cpp: what `method_step` has checked when it returns.
use srs_ran_matlab.Prelude.{
  ℕ, ◌≤◌, ◌≡◌, refl, sym, ap, ◌∙◌, subst, List, [], ◌∷◌, Option, none, some, length, arith,
}
use srs_ran_matlab.Mex.{Matlab, ok, >>=-eq-ok, ok-injective}
use srs_ran_matlab.Mex.Call.{done, lift-done}
use srs_ran_matlab.Span.{u32}
use srs_ran_matlab.Grid.{GridApi, read_resource_grid}
use srs_ran_matlab.Estimator.Api.{EstimatorApi}
use srs_ran_matlab.Estimator.Inputs.{
  check_step_outputs_inputs, read_ports, read_estimator_config, first_pattern, read_pilots,
}
use srs_ran_matlab.Estimator.Readable.{
  AreChecked, AreIndices, check-ok, read_estimator_config-le, read_ports-ok, nof_pilots,
  read_pilots-ok,
}
use srs_ran_matlab.Estimator.Methods.{
  Mex, Reply, StepInputs, grid_or_abort, read_step, estimate, step_with, method_step,
}

module _ (m : Matlab) (grids : GridApi m.Complex)
    (api : EstimatorApi m.Number m.Complex grids.Grid) where
  -- Five inputs and two outputs: a grid of two or three dimensions, two numbers for the allocation, as
  -- many pilots as the pattern has for at most four layers, and a configuration with a readable index
  -- for each port of the grid and as many of them, as an `unsigned`, as there are ports.
  pub record IsChecked (outputs : ℕ) (inputs : List m.Array) (step : StepInputs m grids api)
      : Type 0 where
    pub action : m.Array
    pub rx_grid : m.Array
    pub allocation : m.Array
    pub ref_sym : m.Array
    pub config : m.Array
    pub are_five : inputs ≡ action ∷ rx_grid ∷ allocation ∷ ref_sym ∷ config ∷ []
    pub two_outputs : outputs ≡ 2
    pub at_least_2 : 2 ≤ length (m.get_dimensions rx_grid)
    pub at_most_3 : length (m.get_dimensions rx_grid) ≤ 3
    pub is_read : read_resource_grid m grids rx_grid ≡ ok (some step.grid)
    pub two_numbers : m.get_number_of_elements allocation ≡ 2
    pub four_layers : step.nof_layers ≤ 4
    pub pilots :
        m.get_number_of_elements ref_sym ≡ nof_pilots m grids api step.dmrs_pattern step.nof_layers
    pub port_indices : m.Array
    pub has_indices : m.field config 0 "PortIndices" ≡ ok port_indices
    pub as_many : u32 (m.get_number_of_elements port_indices) ≡ grids.get_nof_ports step.grid
    pub size : length step.cfg.rx_ports ≡ grids.get_nof_ports step.grid
    pub an_index_each :
        AreIndices m grids api port_indices 0 (grids.get_nof_ports step.grid) step.cfg.rx_ports

  grid_or_abort-ok :
      (o : Option grids.Grid) (grid : grids.Grid)
      → grid_or_abort m grids api o ≡ ok grid
      → o ≡ some grid
  grid_or_abort-ok none grid h = cc
  grid_or_abort-ok (some g) grid h = ap some (ok-injective g grid h)

  five-IsChecked :
      (a b c d e : m.Array) (step : StepInputs m grids api)
      → AreChecked m b c d
      → read_step m grids api 2 (a ∷ b ∷ c ∷ d ∷ e ∷ []) ≡ ok step
      → IsChecked 2 (a ∷ b ∷ c ∷ d ∷ e ∷ []) step
  unfolding read_step
  five-IsChecked a b c d e step checked h =
      let inputs = a ∷ b ∷ c ∷ d ∷ e ∷ [] in
      let (_, _, h1) = >>=-eq-ok (check_step_outputs_inputs m 2 inputs) _ h in
      let (configured, read, h2) = >>=-eq-ok (read_estimator_config m api inputs e) _ h1 in
      let (o, has_grid, h3) = >>=-eq-ok (read_resource_grid m grids b) _ h2 in
      let (grid, there, h4) = >>=-eq-ok (grid_or_abort m grids api o) _ h3 in
      let (rx_ports, ported, h5) = >>=-eq-ok (read_ports m e (grids.get_nof_ports grid)) _ h4 in
      let (pattern, first, h6) = >>=-eq-ok (first_pattern m api configured.0.dmrs_pattern) _ h5 in
      let (pilots, piloted, h7) = >>=-eq-ok (read_pilots m api inputs pattern configured.1) _ h6 in
      let made = ok-injective _ step h7 in
      let (indices, has, agree, size, indexed) =
        read_ports-ok m grids api e (grids.get_nof_ports grid) rx_ports ported in
      let four =
        read_estimator_config-le m grids api a b c d e e configured.0 configured.1 checked.columns
          read in
      subst (IsChecked 2 inputs) made (record {
        action = a;
        rx_grid = b;
        allocation = c;
        ref_sym = d;
        config = e;
        are_five = refl;
        two_outputs = refl;
        at_least_2 = checked.at_least;
        at_most_3 = checked.at_most;
        is_read = has_grid ∙ ap ok (grid_or_abort-ok o grid there);
        two_numbers = checked.two;
        four_layers = four;
        pilots = read_pilots-ok m grids api a b c d e pattern configured.1 pilots piloted;
        port_indices = indices;
        has_indices = has;
        as_many = agree;
        size = size;
        an_index_each = indexed;
      })

  read_step-IsChecked :
      (outputs : ℕ) (inputs : List m.Array) (step : StepInputs m grids api)
      → read_step m grids api outputs inputs ≡ ok step
      → IsChecked outputs inputs step
  unfolding read_step
  read_step-IsChecked outputs inputs step h =
      let (_, passed, _) = >>=-eq-ok (check_step_outputs_inputs m outputs inputs) _ h in
      let (a, b, c, d, e, five, two, checked) = check-ok m outputs inputs passed in
      let there : IsChecked 2 (a ∷ b ∷ c ∷ d ∷ e ∷ []) step =
        five-IsChecked a b c d e step checked (
          subst (λ xs. read_step m grids api 2 xs ≡ ok step) five
            (subst (λ n. read_step m grids api n inputs ≡ ok step) two h)) in
      subst (λ n. IsChecked n inputs step) (sym two)
        (subst (λ xs. IsChecked 2 xs step) (sym five) there)

  -- `method_step` returns only for an object that has an estimator, for two outputs and five inputs: a
  -- grid of two or three dimensions that is read into a resource grid, two numbers for the allocation,
  -- pilots for at most four layers, as many as the DM-RS pattern has for them, and a configuration with
  -- a readable index for each port of the grid, which the port gets, and as many of them, as an
  -- `unsigned`, as there are ports.
  pub method_step-IsChecked :
      (outputs : ℕ) (inputs : List m.Array) (s t : Mex m grids api) (r : Reply m grids api)
      → method_step m grids api outputs inputs s ≡ done r t
      → (estimator : api.Estimator) × (step : StepInputs m grids api) × (s ≡ some estimator)
        × (read_step m grids api outputs inputs ≡ ok step)
        × IsChecked outputs inputs step
  unfolding method_step step_with
  method_step-IsChecked outputs inputs none t r h = absurd (ground arith)
  method_step-IsChecked outputs inputs (some estimator) t r h =
      let (step, read, _) =
        lift-done (some estimator) (read_step m grids api outputs inputs)
          (estimate m grids api estimator) h in
      (estimator, step, refl, read, read_step-IsChecked outputs inputs step read)
