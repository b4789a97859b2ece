-- ===== src/Pucch/Step.antt =====
-- pucch_processor_mex.cpp: `check_step_outputs_inputs` and `method_step`.
use srs_ran_matlab.Prelude.{
  ℕ, Bool, true, false, not, ◌&&◌, ◌||◌, List, [], ◌∷◌, Option, none, some, ◌==◌, ltb, length,
}
use srs_ran_matlab.Mex.{
  Matlab, Result, err, abort, num, abort_if, input, is_type, not_scalar, complex_single, struct,
  unsigned_field, Arg, ◌>>=◌, ◌>>◌,
}
use srs_ran_matlab.Mex.Call.{lift}
use srs_ran_matlab.Mex.Dispatcher.{Callbacks, create_callbacks}
use srs_ran_matlab.Grid.{GridApi, read_resource_grid}
use srs_ran_matlab.Pucch.Api.{PucchApi}
use srs_ran_matlab.Pucch.Processor.{Output, call_processor, mux_is_empty}

abbrev quoted : List ℕ → List Arg
quoted [] = []
quoted (n ∷ ns) = num n ∷ quoted ns

module _ (m : Matlab) where
  open m use {Array, get_type, get_dimensions}

  -- `outputs` counts the outputs that the caller wants.
  unfoldable pub check_step_outputs_inputs : ℕ → List Array → Result (Unit {0})
  check_step_outputs_inputs outputs inputs = do
    abort_if (not (length inputs == 4)) "Wrong number of inputs: expected {}, provided {}."
        (num 4 ∷ num (length inputs) ∷ [])
    in1 ← input m inputs 1
    let in1_dims = get_dimensions in1
    abort_if
        (not (is_type (get_type in1) complex_single)
          || ltb (length in1_dims) 2
          || ltb 3 (length in1_dims))
        "Input 'rxGrid' should be a 2- or 3-dimensional array of complex floats, provided [{}]."
        (quoted in1_dims)
    in2 ← input m inputs 2
    abort_if (not_scalar m struct in2) "Input 'config' should be a scalar structure." []
    in3 ← input m inputs 3
    abort_if (not (m.is_empty in3) && not (is_type (get_type in3) struct))
        "Input 'MuxFormat1' should be a structure array." []
    abort_if (not (outputs == 1)) "Wrong number of outputs: expected {}, provided {}."
        (num 1 ∷ num outputs ∷ [])

  unfoldable pub mux_of : Array → Option Array
  mux_of in3 = elim (m.is_empty in3) [ true ↦ none | false ↦ some in3 ]

module _ (m : Matlab) (grids : GridApi m.Complex) (api : PucchApi grids.Grid) where
  -- The rest of the body, once there is a grid.
  unfoldable pub step_with_grid : List m.Array → Option grids.Grid → Result Output
  unfolding mux_of
  step_with_grid inputs none = err (abort "Cannot create resource grid." [])
  step_with_grid inputs (some grid) = do
    in_cfg ← input m inputs 2
    pucch_format ← unsigned_field m in_cfg "Format"
    in3 ← input m inputs 3
    let mux_f1 = mux_of m in3
    abort_if (not (pucch_format == 1) && not (mux_is_empty m api mux_f1))
        "For PUCCH Format {}, input 'MuxFormat1' should be empty." (num pucch_format ∷ [])
    nof_conf_grid_ports ← unsigned_field m in_cfg "NRxPorts"
    let nof_grid_ports = grids.get_nof_ports grid
    abort_if (not (nof_conf_grid_ports == nof_grid_ports))
        "Field NRxPorts in the configuration structure and the number of resource grid ports do not match: {} vs. {}."
        (num nof_conf_grid_ports ∷ num nof_grid_ports ∷ [])
    call_processor m api grid in_cfg mux_f1

  unfoldable pub method_step : ℕ → List m.Array → Result Output
  unfolding check_step_outputs_inputs step_with_grid
  method_step outputs inputs = do
    check_step_outputs_inputs m outputs inputs
    in1 ← input m inputs 1
    grid ← read_resource_grid m grids in1
    step_with_grid inputs grid

module _ (m : Matlab) (grids : GridApi m.Complex) (api : PucchApi grids.Grid) where
  abbrev pub callback_table : Callbacks m.Array (Unit {0}) Output
  callback_table = ("step", λ outputs inputs. lift (method_step m grids api outputs inputs)) ∷ []

  -- The constructor: whether `create_pucch_processor` made a processor and a validator.
  unfoldable pub construct : Bool → Bool → Result (Callbacks m.Array (Unit {0}) Output)
  construct has_processor has_validator = do
    abort_if (not has_processor) "Cannot create srsRAN PUCCH processor." []
    abort_if (not has_validator) "Cannot create srsRAN PUCCH PDU validator." []
    create_callbacks callback_table []
