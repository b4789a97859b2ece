-- ===== src/Pucch/Served.antt =====
-- pucch_processor_mex.cpp: what `method_step` has checked when it returns.
use srs_ran_matlab.Prelude.{
  ℕ, ◌≤◌, ◌≡◌, ◌↔◌, refl, sym, ap, ◌∙◌, subst, ◌⊎◌, inl, inr, true, false, not, List, [], ◌∷◌,
  Option, none, some, length, ◌==◌, ◌&&◌, arith, Bool-cases,
}
use srs_ran_matlab.Mex.{
  Matlab, ok, abort_if-eq-ok, unsigned_field, is_type, not_scalar, complex_single, struct,
  >>=-eq-ok,
}
use srs_ran_matlab.Grid.{GridApi, read_resource_grid}
use srs_ran_matlab.Pucch.Api.{PucchApi}
use srs_ran_matlab.Pucch.Processor.{
  Output, process_format, process_list, process_single, call_processor, multiplexed_list,
  mux_is_empty,
}
use srs_ran_matlab.Pucch.Checks.{inputs_four, length_four, checks_of_four, checks_complete}
use srs_ran_matlab.Pucch.Step.{check_step_outputs_inputs, step_with_grid, method_step, mux_of}

module _ (m : Matlab) (grids : GridApi m.Complex) (api : PucchApi grids.Grid) where
  -- Four inputs: an array of complex floats of two or three dimensions that makes a grid, a scalar
  -- structure with a configuration of one of the formats 0 to 4 for as many ports as the grid has, and
  -- a list, a structure array or empty, that is empty but for format 1. The processor has returned the
  -- output for them.
  pub record IsServed (inputs : List m.Array) (out : Output) : Type 0 where
    pub action : m.Array
    pub rx_grid : m.Array
    pub config : m.Array
    pub mux_format1 : m.Array
    pub are_four : inputs ≡ action ∷ rx_grid ∷ config ∷ mux_format1 ∷ []
    pub are_floats : is_type (m.get_type rx_grid) complex_single ≡ true
    pub dims : (2 ≤ length (m.get_dimensions rx_grid)) × (length (m.get_dimensions rx_grid) ≤ 3)
    pub is_structure : not_scalar m struct config ≡ false
    pub is_list : (m.is_empty mux_format1 ≡ true) ⊎ (is_type (m.get_type mux_format1) struct ≡ true)
    pub grid : grids.Grid
    pub is_read : read_resource_grid m grids rx_grid ≡ ok (some grid)
    pub format : ℕ
    pub has_format : unsigned_field m config "Format" ≡ ok format
    pub format_le : format ≤ 4
    pub has_list : (format ≡ 1) ⊎ (m.is_empty mux_format1 ≡ true)
    pub has_ports : unsigned_field m config "NRxPorts" ≡ ok (grids.get_nof_ports grid)
    pub is_processed : call_processor m api grid config (mux_of m mux_format1) ≡ ok out

module _ (m : Matlab) (grids : GridApi m.Complex) (api : PucchApi grids.Grid) where
  format_le :
      (grid : grids.Grid) (config : m.Array) (format : ℕ) {r : api.ProcessorResult}
      → process_format m api grid config format ≡ ok r
      → format ≤ 4
  unfolding process_format
  format_le grid config format h = ground arith

  list_rule :
      (format : ℕ) (mux_format1 : m.Array)
      → (not (format == 1) && not (mux_is_empty m api (mux_of m mux_format1))) ≡ false
      → (format ≡ 1) ⊎ (m.is_empty mux_format1 ≡ true)
  unfolding mux_is_empty mux_of
  list_rule format mux_format1 h = elim (Bool-cases (m.is_empty mux_format1)) [
    | inl k ↦ inr k
    | inr k ↦ inl (ground arith)
  ]

  not_listed :
      (format : ℕ) (mux : m.Array)
      → ((format == 1) && not (m.is_empty mux)) ≡ false
      → multiplexed_list m api format (some mux) ≡ none
  unfolding multiplexed_list
  not_listed format mux k = rw k refl

  process_list-format :
      (grid : grids.Grid) (config : m.Array) (format : ℕ) (mux : Option m.Array) (out : Output)
      → process_list m api grid config format (multiplexed_list m api format mux) ≡ ok out
      → format ≤ 4
  unfolding process_list multiplexed_list process_single
  process_list-format grid config format none out h =
      format_le grid config format (>>=-eq-ok (process_format m api grid config format) _ h).1
  process_list-format grid config format (some mux) out h =
      elim (Bool-cases ((format == 1) && not (m.is_empty mux))) [
        | inl k ↦ ground arith
        | inr k ↦
            format_le grid config format
              (>>=-eq-ok (process_format m api grid config format) _
                (sym (ap (process_list m api grid config format) (not_listed format mux k)) ∙ h)).1
      ]

  call_processor-format :
      (grid : grids.Grid) (config : m.Array) (mux : Option m.Array) (format : ℕ) (out : Output)
      → unsigned_field m config "Format" ≡ ok format
      → call_processor m api grid config mux ≡ ok out
      → format ≤ 4
  unfolding call_processor
  call_processor-format grid config mux format out f h =
      process_list-format grid config format mux out (sym (rw f refl) ∙ h)

  -- The guards of `method_step` that come after the grid is made.
  step_with_grid-ok :
      (action rx_grid config mux_format1 : m.Array) (grid : grids.Grid) (out : Output)
      → step_with_grid m grids api (action ∷ rx_grid ∷ config ∷ mux_format1 ∷ []) (some grid)
        ≡ ok out
      → (format : ℕ) × (unsigned_field m config "Format" ≡ ok format)
        × (format ≤ 4)
        × ((format ≡ 1) ⊎ (m.is_empty mux_format1 ≡ true))
        × (unsigned_field m config "NRxPorts" ≡ ok (grids.get_nof_ports grid))
        × (call_processor m api grid config (mux_of m mux_format1) ≡ ok out)
  unfolding step_with_grid
  step_with_grid-ok action rx_grid config mux_format1 grid out h =
      let f = >>=-eq-ok (unsigned_field m config "Format") _ h in
      let l =
        abort_if-eq-ok (not (f.0 == 1) && not (mux_is_empty m api (mux_of m mux_format1))) _ _ _
          f.2 in
      let n = >>=-eq-ok (unsigned_field m config "NRxPorts") _ l.1 in
      let p = abort_if-eq-ok (not (n.0 == grids.get_nof_ports grid)) _ _ _ n.2 in
      let same : n.0 ≡ grids.get_nof_ports grid = ground (arith, p.0) in
      (
        f.0,
        f.1,
        call_processor-format grid config (mux_of m mux_format1) f.0 out f.1 p.1,
        list_rule f.0 mux_format1 l.0,
        n.1 ∙ ap ok same,
        p.1,
      )

  grid_made :
      (inputs : List m.Array) (made : Option grids.Grid) (out : Output)
      → step_with_grid m grids api inputs made ≡ ok out
      → (grid : grids.Grid) × (made ≡ some grid)
  unfolding step_with_grid
  grid_made inputs none out h = cc
  grid_made inputs (some grid) out h = (grid, refl)

  IsServed-four :
      (outputs : ℕ) (inputs : List m.Array) (action rx_grid config mux_format1 : m.Array)
      (out : Output)
      → inputs ≡ action ∷ rx_grid ∷ config ∷ mux_format1 ∷ []
      → method_step m grids api outputs (action ∷ rx_grid ∷ config ∷ mux_format1 ∷ []) ≡ ok out
      → (outputs ≡ 1) × IsServed m grids api inputs out
  unfolding method_step
  IsServed-four outputs inputs action rx_grid config mux_format1 out four h =
      let all = action ∷ rx_grid ∷ config ∷ mux_format1 ∷ [] in
      let c = >>=-eq-ok (check_step_outputs_inputs m outputs all) _ h in
      let shape = checks_of_four m action rx_grid config mux_format1 outputs c.1 in
      let read = >>=-eq-ok (read_resource_grid m grids rx_grid) _ c.2 in
      let made = grid_made all read.0 out read.2 in
      let rest =
        step_with_grid-ok action rx_grid config mux_format1 made.0 out
          (sym (ap (step_with_grid m grids api all) made.1) ∙ read.2) in
      (
        shape.4,
        record {
          action = action;
          rx_grid = rx_grid;
          config = config;
          mux_format1 = mux_format1;
          are_four = four;
          are_floats = shape.0;
          dims = shape.1;
          is_structure = shape.2;
          is_list = shape.3;
          grid = made.0;
          is_read = read.1 ∙ ap ok made.1;
          format = rest.0;
          has_format = rest.1;
          format_le = rest.2;
          has_list = rest.3;
          has_ports = rest.4;
          is_processed = rest.5;
        },
      )

  method_step_sound :
      (outputs : ℕ) (inputs : List m.Array) (out : Output)
      → method_step m grids api outputs inputs ≡ ok out
      → (outputs ≡ 1) × IsServed m grids api inputs out
  unfolding method_step
  method_step_sound outputs inputs out h =
      let c = >>=-eq-ok (check_step_outputs_inputs m outputs inputs) _ h in
      let four = length_four m inputs (inputs_four m outputs inputs c.1) in
      IsServed-four outputs inputs four.0 four.1 four.2 four.3 out four.4
        (subst (λ xs. method_step m grids api outputs xs ≡ ok out) four.4 h)

  empty_list :
      (mux_format1 : m.Array)
      → m.is_empty mux_format1 ≡ true
      → mux_is_empty m api (mux_of m mux_format1) ≡ true
  unfolding mux_is_empty mux_of
  empty_list mux_format1 empty =
      let nothing : mux_of m mux_format1 ≡ none = rw (mux_of, empty) refl in
      ap (mux_is_empty m api) nothing

  list_allowed :
      (format : ℕ) (mux_format1 : m.Array)
      → (format ≡ 1) ⊎ (m.is_empty mux_format1 ≡ true)
      → (not (format == 1) && not (mux_is_empty m api (mux_of m mux_format1))) ≡ false
  list_allowed format mux_format1 (inl is1) = rw is1 refl
  list_allowed format mux_format1 (inr empty) = ground (arith, empty_list mux_format1 empty)

  step_with_grid_complete :
      (inputs : List m.Array) (out : Output) (s : IsServed m grids api inputs out)
      → step_with_grid m grids api
          (s.action ∷ s.rx_grid ∷ s.config ∷ s.mux_format1 ∷ [])
          (some s.grid)
        ≡ ok out
  unfolding step_with_grid
  step_with_grid_complete inputs out s =
      let ports = grids.get_nof_ports s.grid in
      let same : (not (ports == ports)) ≡ false = ground arith in
      rw (s.has_format, list_allowed s.format s.mux_format1 s.has_list, s.has_ports, same)
        s.is_processed

  method_step_complete :
      (inputs : List m.Array) (out : Output) (s : IsServed m grids api inputs out)
      → method_step m grids api 1 inputs ≡ ok out
  unfolding method_step
  method_step_complete inputs out s =
      ap (method_step m grids api 1) s.are_four
      ∙ rw
          (
            checks_complete m s.action s.rx_grid s.config s.mux_format1 s.are_floats s.dims
                s.is_structure s.is_list,
            s.is_read,
          )
          (step_with_grid_complete inputs out s)

  -- `method_step` returns exactly for one output and four inputs, of which the second is an array of
  -- complex floats of two or three dimensions that makes a grid, the third is a scalar structure with
  -- one of the formats 0 to 4 and as many ports as the grid, and the fourth is a structure array or
  -- empty, and empty unless the format is 1, if the processor returns for them. It returns what the
  -- processor does.
  pub method_step-IsServed :
      (outputs : ℕ) (inputs : List m.Array) (out : Output)
      → (method_step m grids api outputs inputs ≡ ok out)
        ↔ ((outputs ≡ 1) × IsServed m grids api inputs out)
  method_step-IsServed outputs inputs out = (
    method_step_sound outputs inputs out,
    λ (one, s). ap (λ n. method_step m grids api n inputs) one ∙ method_step_complete inputs out s,
  )
