-- ===== src/Estimator/Outputs.antt =====
-- multiport_channel_estimator_mex.cpp: the array of channel estimates and the metrics that are
-- returned.
use srs_ran_matlab.Prelude.{
  ℕ, zero, suc, ◌+◌, ◌-◌, List, [], ◌∷◌, ◌++◌, Option, none, some, ◌==◌, ltb, leb, length,
  replicate, not, map, if◌then◌else◌,
}
use srs_ran_matlab.Span.{u32}
use srs_ran_matlab.Mex.{Result, ok, err, exception, assert, ◌>>=◌, ◌>>◌}
use srs_ran_matlab.Mex.Loop.{for_range}
use srs_ran_matlab.Estimator.Api.{EstimatorApi}

-- The number of rows that the structure array is created with.
unfoldable pub nof_infos : ℕ → ℕ
nof_infos nof_rx_ports = if nof_rx_ports == 1 then 1 else u32 (nof_rx_ports + 1)

module _ {Number Complex Grid : Type 0} (api : EstimatorApi Number Complex Grid) where
  open api use {Float, Double, ChannelEstimate}

  -- The output array: the elements that are written, and how many are left in the view.
  pub record Writing : Type 0 where
    pub written : List Complex
    pub ch_est_out_view : ℕ

  unfoldable pub write_path : ChannelEstimate → ℕ → ℕ → Writing → Result Writing
  write_path ch_estimate i_layer i_port w = do
    let ch_estimate_view = api.get_path_ch_estimate ch_estimate i_port i_layer
    assert (leb (length ch_estimate_view) w.ch_est_out_view) "first"
    ok (record {
      written = w.written ++ ch_estimate_view;
      ch_est_out_view = w.ch_est_out_view - length ch_estimate_view;
    })

  unfoldable pub write_layer : ChannelEstimate → ℕ → ℕ → Writing → Result Writing
  write_layer ch_estimate nof_rx_ports i_layer =
      for_range nof_rx_ports 0 (write_path ch_estimate i_layer)

  unfoldable pub write_estimates : ChannelEstimate → ℕ → ℕ → ℕ → Result (List Complex)
  write_estimates ch_estimate nof_rx_ports nof_layers size = do
    w ←
        for_range nof_layers 0 (write_layer ch_estimate nof_rx_ports)
          (record { written = []; ch_est_out_view = size })
    ok (w.written ++ replicate w.ch_est_out_view api.zero_complex)

  -- A row of the metrics; `none` is an empty array.
  pub record Info : Type 0 where
    pub noise_var : Double
    pub rsrp : Double
    pub epre : Double
    pub sinr : Double
    pub time_alignment : Double
    pub cfo : Option Double

  pub record Totals : Type 0 where
    pub total_noise_var : Float
    pub total_rsrp : Float
    pub total_epre : Float
    pub total_time_alignment : Double
    pub total_cfo : Double

  abbrev pub cfo_of : Option Float → Option Double
  cfo_of none = none
  cfo_of (some cfo) = some (api.to_double cfo)

  abbrev pub add_cfo : Double → Option Float → Double
  add_cfo total none = api.nan
  add_cfo total (some cfo) = api.double_add total (api.to_double cfo)

  unfoldable pub port_info : ChannelEstimate → ℕ → Info
  port_info e i_port = record {
    noise_var = api.to_double (api.get_noise_variance e i_port);
    rsrp = api.to_double (api.get_rsrp e i_port);
    epre = api.to_double (api.get_epre e i_port);
    sinr = api.to_double (api.get_snr e i_port);
    time_alignment = api.get_time_alignment e i_port;
    cfo = cfo_of (api.get_cfo_hz e i_port);
  }

  unfoldable pub add_port : ChannelEstimate → ℕ → Totals → Totals
  add_port e i_port t = record {
    total_noise_var = api.float_add t.total_noise_var (api.get_noise_variance e i_port);
    total_rsrp = api.float_add t.total_rsrp (api.get_rsrp e i_port);
    total_epre = api.float_add t.total_epre (api.get_epre e i_port);
    total_time_alignment = api.double_add t.total_time_alignment (api.get_time_alignment e i_port);
    total_cfo = add_cfo t.total_cfo (api.get_cfo_hz e i_port);
  }

  -- The last row, with the metrics of all ports.
  unfoldable pub total_info : ℕ → Totals → Info
  total_info nof_rx_ports t = record {
    noise_var = api.to_double (api.float_divide t.total_noise_var nof_rx_ports);
    rsrp = api.to_double (api.float_divide t.total_rsrp nof_rx_ports);
    epre = api.to_double (api.float_divide t.total_epre nof_rx_ports);
    sinr = api.nan;
    time_alignment = api.double_divide t.total_time_alignment nof_rx_ports;
    cfo =
        if not (api.is_nan t.total_cfo)
        then some (api.double_divide t.total_cfo nof_rx_ports)
        else none;
  }

  -- The rows of the ports from `i_port` on, and the last row if there are several ports.
  unfoldable pub port_infos : ChannelEstimate → ℕ → ℕ → ℕ → Totals → List Info
  port_infos e nof_rx_ports zero i_port t =
      if ltb 1 nof_rx_ports then total_info nof_rx_ports t ∷ [] else []
  port_infos e nof_rx_ports (suc left) i_port t =
      port_info e i_port ∷ port_infos e nof_rx_ports left (i_port + 1) (add_port e i_port t)

  abbrev pub no_totals : Totals
  no_totals = record {
    total_noise_var = api.float_zero;
    total_rsrp = api.float_zero;
    total_epre = api.float_zero;
    total_time_alignment = api.double_zero;
    total_cfo = api.double_zero;
  }

  -- The structure array after the rows are written: a row that is not written is empty, and one that is
  -- written where the array has none is an exception.
  unfoldable pub infos : ChannelEstimate → ℕ → Result (List (Option Info))
  unfolding nof_infos
  infos e nof_rx_ports =
      let rows = map some (port_infos e nof_rx_ports nof_rx_ports 0 no_totals) in
      if leb (length rows) (nof_infos nof_rx_ports)
      then ok (rows ++ replicate (nof_infos nof_rx_ports - length rows) none)
      else err exception
