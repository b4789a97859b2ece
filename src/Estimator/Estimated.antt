-- ===== src/Estimator/Estimated.antt =====
-- multiport_channel_estimator_mex.cpp: `method_step` as a whole, once its inputs are read.
use srs_ran_matlab.Prelude.{
  ℕ, zero, suc, ◌+◌, ◌*◌, ◌<◌, ◌^◌, ◌≡◌, refl, ap, ◌∙◌, List, Option, some, length, take, drop,
  arith,
}
use srs_ran_matlab.Mex.{Matlab, ok}
use srs_ran_matlab.Mex.Call.{done}
use srs_ran_matlab.Grid.{GridApi}
use srs_ran_matlab.Estimator.Api.{EstimatorApi, EstimatorConfiguration, IsSized}
use srs_ran_matlab.Estimator.Outputs.{Info, write_estimates}
use srs_ran_matlab.Estimator.Methods.{
  estimated, StepInputs, compute_ports, read_step, outputs_of, estimate, step_with, method_step,
}
use srs_ran_matlab.Estimator.Written.{write_estimates_lem}
use srs_ran_matlab.Estimator.Rows.{AreMetrics, infos_lem}

module _ {Number Complex Grid : Type 0} (api : EstimatorApi Number Complex Grid) (grid : Grid)
    (pilots : api.Pilots) (cfg : EstimatorConfiguration api.Float) where
  -- The estimator has computed the estimates of so many ports from a port on, one after the other: from
  -- an estimator and estimates to an estimator and estimates.
  pub data Computes
      : ℕ
        → ℕ
        → api.Estimator
        → api.ChannelEstimate
        → api.Estimator
        → api.ChannelEstimate
        → Type 0 where
    no_port :
        (port : ℕ) (estimator : api.Estimator) (e : api.ChannelEstimate)
        → Computes 0 port estimator e estimator e
    computes :
        (left port : ℕ) (estimator estimator' : api.Estimator) (e e' : api.ChannelEstimate)
        → Computes left
            (port + 1)
            (api.compute estimator e grid port pilots cfg).0
            (api.compute estimator e grid port pilots cfg).1
            estimator'
            e'
        → Computes (suc left) port estimator e estimator' e'

  path-Computes :
      IsSized api
      → {left port : ℕ} {estimator estimator' : api.Estimator} {e e' : api.ChannelEstimate}
      → Computes left port estimator e estimator' e'
      → (p l : ℕ)
      → length (api.get_path_ch_estimate e' p l) ≡ length (api.get_path_ch_estimate e p l)
  path-Computes laws (no_port port estimator e) p l = refl
  path-Computes laws (computes left port estimator estimator' e e' rest) p l =
      path-Computes laws rest p l ∙ laws.path-compute estimator e grid port pilots cfg p l

module _ (m : Matlab) (grids : GridApi m.Complex)
    (api : EstimatorApi m.Number m.Complex grids.Grid) where
  compute_ports-Computes :
      (grid : grids.Grid) (pilots : api.Pilots) (cfg : EstimatorConfiguration api.Float)
      (left port : ℕ) (estimator : api.Estimator) (e : api.ChannelEstimate)
      → Computes api grid pilots cfg left port estimator e
          (compute_ports m grids api grid pilots cfg left port estimator e).0
          (compute_ports m grids api grid pilots cfg left port estimator e).1
  unfolding compute_ports
  compute_ports-Computes grid pilots cfg zero port estimator e = no_port port estimator e
  compute_ports-Computes grid pilots cfg (suc left) port estimator e =
      let next = api.compute estimator e grid port pilots cfg in
      computes left port estimator _ e _
        (compute_ports-Computes grid pilots cfg left (port + 1) next.0 next.1)

  -- The number of elements of a path.
  abbrev pub path_size : StepInputs m grids api → ℕ
  path_size step = length step.dmrs_pattern.rb_mask * 12 * length step.dmrs_pattern.symbols

  -- New channel estimates, for the ports of the grid and the layers.
  abbrev pub no_estimates : StepInputs m grids api → api.ChannelEstimate
  no_estimates step = api.channel_estimate (record {
    nof_prb = length step.dmrs_pattern.rb_mask;
    nof_symbols = length step.dmrs_pattern.symbols;
    nof_rx_ports = grids.get_nof_ports step.grid;
    nof_tx_layers = step.nof_layers;
  })

  -- What a step with an estimator returns, and the estimator that it leaves: the estimates are computed
  -- for every receive port, from the first one on.
  pub record IsReply (step : StepInputs m grids api) (estimator estimator' : api.Estimator)
      (out : List m.Complex) (rows : List (Option (Info api))) : Type 0 where
    pub e : api.ChannelEstimate
    pub is_computed :
        Computes api step.grid step.pilots step.cfg
          (grids.get_nof_ports step.grid)
          0
          estimator
          (no_estimates step)
          estimator'
          e
    pub size : length out ≡ step.nof_layers * grids.get_nof_ports step.grid * path_size step
    pub paths :
        (p l : ℕ)
        → p < grids.get_nof_ports step.grid
        → l < step.nof_layers
        → take
            (path_size step)
            (drop ((l * grids.get_nof_ports step.grid + p) * path_size step) out)
          ≡ api.get_path_ch_estimate e p l
    pub are_metrics : AreMetrics api e (grids.get_nof_ports step.grid) rows

module _ (m : Matlab) (grids : GridApi m.Complex) (api : EstimatorApi m.Number m.Complex grids.Grid)
    (laws : IsSized api) where
  -- A step of an object that has an estimator, once its inputs are read, always returns, if the
  -- successor of the number of ports fits an `unsigned`. The estimator has been run for every receive
  -- port of the grid, from the first to the last, each time on the grid, the pilots and the
  -- configuration that were read; the array that is returned holds the channel estimates of each port
  -- and layer at their place, by layers and then by ports, and the rows hold the metrics of each port
  -- and, for several ports, the averages. The object keeps the estimator as it was left.
  pub method_step_estimates :
      (outputs : ℕ) (inputs : List m.Array) (estimator : api.Estimator)
      (step : StepInputs m grids api)
      → read_step m grids api outputs inputs ≡ ok step
      → grids.get_nof_ports step.grid + 1 < 2 ^ 32
      → (estimator' : api.Estimator) × (out : List m.Complex) × (rows : List (Option (Info api)))
        × (method_step m grids api outputs inputs (some estimator)
            ≡ done (estimated out rows) (some estimator'))
        × IsReply m grids api step estimator estimator' out rows
  unfolding method_step step_with estimate outputs_of
  method_step_estimates outputs inputs estimator step read small =
      let ports = grids.get_nof_ports step.grid in
      let (estimator', e) =
        compute_ports m grids api step.grid step.pilots step.cfg ports 0 estimator
          (no_estimates m grids api step) in
      let ran =
        compute_ports-Computes m grids api step.grid step.pilots step.cfg ports 0 estimator
          (no_estimates m grids api step) in
      let (out, wrote, size, paths) =
        write_estimates_lem api e (path_size m grids api step) ports step.nof_layers (λ p l hp hl.
          path-Computes api step.grid step.pilots step.cfg laws ran p l
          ∙ laws.path-channel_estimate _ p l hp hl) in
      let (rows, in_rows, are_metrics) = infos_lem api e ports small in
      let room : path_size m grids api step * ports * step.nof_layers
          ≡ step.nof_layers * ports * path_size m grids api step =
        omega arith in
      let written : write_estimates api e ports step.nof_layers
            (path_size m grids api step * ports * step.nof_layers)
          ≡ ok out =
        ap (write_estimates api e ports step.nof_layers) room ∙ wrote in
      (
        estimator',
        out,
        rows,
        rw (read, written, in_rows) refl,
        record { e = e; is_computed = ran; size = size; paths = paths; are_metrics = are_metrics },
      )
