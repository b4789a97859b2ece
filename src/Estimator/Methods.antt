-- ===== src/Estimator/Methods.antt =====
-- multiport_channel_estimator_mex.cpp: `method_new` and `method_step`. The state of the MEX object is
-- its `estimator`, `none` for a null pointer.
use srs_ran_matlab.Prelude.{ℕ, zero, suc, ◌+◌, ◌*◌, List, [], ◌∷◌, Option, none, some, length}
use srs_ran_matlab.Mex.{Matlab, Result, ok, err, abort, input}
use srs_ran_matlab.Mex.{◌>>=◌ as bind}
use srs_ran_matlab.Mex.Call.{Call, done, stop, lift, ◌>>=◌}
use srs_ran_matlab.Mex.Dispatcher.{Callbacks, create_callbacks}
use srs_ran_matlab.Grid.{GridApi, read_resource_grid}
use srs_ran_matlab.Estimator.Api.{LayerDmrsPattern, EstimatorConfiguration, EstimatorApi}
use srs_ran_matlab.Estimator.Factory.{create_port_channel_estimator}
use srs_ran_matlab.Estimator.Inputs.{
  read_new, check_step_outputs_inputs, read_estimator_config, first_pattern, read_pilots,
  read_ports,
}
use srs_ran_matlab.Estimator.Outputs.{Info, write_estimates, infos}

module _ (m : Matlab) (grids : GridApi m.Complex)
    (api : EstimatorApi m.Number m.Complex grids.Grid) where
  open api use {Estimator, ChannelEstimate, Pilots, Float}

  abbrev pub Mex : Type 0
  Mex = Option Estimator

  -- What a method puts into its outputs: nothing, or the channel estimates and the metrics.
  pub data Reply : Type 0 where
    no_outputs : Reply
    estimated : List m.Complex → List (Option (Info api)) → Reply

  -- `estimator = create_port_channel_estimator(...)` and the check of it
  unfoldable pub create : Option Estimator → Call Mex Reply
  create none s = stop (abort "Cannot create srsRAN port channel estimator." []) none
  create (some estimator) s = done no_outputs (some estimator)

  unfoldable pub method_new : ℕ → List m.Array → Call Mex Reply
  method_new outputs inputs = do
    read ← lift (read_new m outputs inputs)
    created ← lift (create_port_channel_estimator api.factories read.0 read.1 read.2)
    create created

  abbrev pub grid_or_abort : Option grids.Grid → Result grids.Grid
  grid_or_abort none = err (abort "Cannot create resource grid." [])
  grid_or_abort (some grid) = ok grid

  -- The loop that computes the estimates, port by port.
  unfoldable pub compute_ports :
      grids.Grid
      → Pilots
      → EstimatorConfiguration Float
      → ℕ
      → ℕ
      → Estimator
      → ChannelEstimate
      → Estimator × ChannelEstimate
  compute_ports grid pilots cfg zero i_port estimator ch_estimate = (estimator, ch_estimate)
  compute_ports grid pilots cfg (suc left) i_port estimator ch_estimate =
      let computed = api.compute estimator ch_estimate grid i_port pilots cfg in
      compute_ports grid pilots cfg left (i_port + 1) computed.0 computed.1

  -- What the estimates are computed from.
  pub record StepInputs : Type 0 where
    pub cfg : EstimatorConfiguration Float
    pub nof_layers : ℕ
    pub dmrs_pattern : LayerDmrsPattern
    pub grid : grids.Grid
    pub pilots : Pilots

  unfoldable pub read_step : ℕ → List m.Array → Result StepInputs
  read_step outputs inputs = bind (check_step_outputs_inputs m outputs inputs) λ checked.
      bind (input m inputs 4) λ in_cfg.
        bind (read_estimator_config m api inputs in_cfg) λ configured.
          bind (input m inputs 1) λ in1. bind (read_resource_grid m grids in1) λ read.
            bind (grid_or_abort read) λ grid.
              bind (read_ports m in_cfg (grids.get_nof_ports grid)) λ rx_ports.
                bind (first_pattern m api configured.0.dmrs_pattern) λ dmrs_pattern.
                  bind (read_pilots m api inputs dmrs_pattern configured.1) λ pilots. ok (record {
                    cfg = record configured.0 { rx_ports = rx_ports };
                    nof_layers = configured.1;
                    dmrs_pattern = dmrs_pattern;
                    grid = grid;
                    pilots = pilots;
                  })

  -- The outputs, from the estimates.
  unfoldable pub outputs_of : StepInputs → ℕ → ChannelEstimate → Result Reply
  outputs_of step nof_rx_ports ch_estimate =
      bind
        (write_estimates api ch_estimate nof_rx_ports step.nof_layers (
          length step.dmrs_pattern.rb_mask
          * 12
          * length step.dmrs_pattern.symbols
          * nof_rx_ports
          * step.nof_layers))
        λ ch_est_out.
          bind (infos api ch_estimate nof_rx_ports) λ info_out. ok (estimated ch_est_out info_out)

  abbrev pub finish : Estimator → Result Reply → Call Mex Reply
  finish estimator r s = lift r (some estimator)

  unfoldable pub estimate : Estimator → StepInputs → Call Mex Reply
  estimate estimator step s =
      let nof_rx_ports = grids.get_nof_ports step.grid in
      let ch_estimate = api.channel_estimate (record {
        nof_prb = length step.dmrs_pattern.rb_mask;
        nof_symbols = length step.dmrs_pattern.symbols;
        nof_rx_ports = nof_rx_ports;
        nof_tx_layers = step.nof_layers;
      }) in
      let computed =
        compute_ports step.grid step.pilots step.cfg nof_rx_ports 0 estimator ch_estimate in
      finish computed.0 (outputs_of step nof_rx_ports computed.1) s

  -- `method_step`, whose first check is that there is an estimator
  unfoldable pub step_with : Option Estimator → ℕ → List m.Array → Call Mex Reply
  step_with none outputs inputs s =
      stop (abort "The srsRAN channel estimator was not initialized properly." []) s
  step_with (some estimator) outputs inputs s =
      (lift (read_step outputs inputs) >>= estimate estimator) s

  unfoldable pub method_step : ℕ → List m.Array → Call Mex Reply
  method_step outputs inputs s = step_with s outputs inputs s

  abbrev pub callback_table : Callbacks m.Array Mex Reply
  callback_table = ("new", method_new) ∷ ("step", method_step) ∷ []

  -- The constructor: the object, whose member is a null pointer yet, and its callbacks.
  unfoldable pub construct : Result (Mex × Callbacks m.Array Mex Reply)
  construct = bind (create_callbacks callback_table []) (λ callbacks. ok (none, callbacks))
