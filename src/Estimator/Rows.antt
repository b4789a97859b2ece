-- ===== src/Estimator/Rows.antt =====
-- multiport_channel_estimator_mex.cpp: the rows of metrics.
use srs_ran_matlab.Prelude.{
  ℕ, zero, suc, ◌+◌, ◌-◌, ◌<◌, ◌≤◌, ◌^◌, ◌≡◌, refl, ap, ◌∙◌, List, [], ◌∷◌, append-nil, Option,
  none, some, map, true, ltb, leb, ◌==◌, length, get_elem?, if◌then◌else◌, arith, ◌⊎◌, inl, inr,
  Bool-cases,
}
use srs_ran_matlab.Mex.{ok}
use srs_ran_matlab.Estimator.Api.{EstimatorApi}
use srs_ran_matlab.Estimator.Outputs.{
  Info, Totals, port_info, add_port, total_info, no_totals, port_infos, infos, nof_infos,
}

-- The sum of the first values of a function.
unfoldable pub sum_of : {A : Type 0} → (A → A → A) → A → (ℕ → A) → ℕ → A
sum_of add start f zero = start
sum_of add start f (suc n) = add (sum_of add start f n) (f n)

module _ {Number Complex Grid : Type 0} (api : EstimatorApi Number Complex Grid)
    (e : api.ChannelEstimate) where
  abbrev widened : Option api.Float → Option api.Double
  widened none = none
  widened (some cfo) = some (api.to_double cfo)

  -- The metrics of a port: the CFO is there where the estimator has one.
  abbrev pub metrics_of : ℕ → Info api
  metrics_of p = record {
    noise_var = api.to_double (api.get_noise_variance e p);
    rsrp = api.to_double (api.get_rsrp e p);
    epre = api.to_double (api.get_epre e p);
    sinr = api.to_double (api.get_snr e p);
    time_alignment = api.get_time_alignment e p;
    cfo = widened (api.get_cfo_hz e p);
  }

  abbrev more_cfo : api.Double → Option api.Float → api.Double
  more_cfo sum none = api.nan
  more_cfo sum (some cfo) = api.double_add sum (api.to_double cfo)

  -- The sum of the CFOs of the first ports, which starts again from NaN at a port without one.
  unfoldable pub sum_of_cfos : ℕ → api.Double
  sum_of_cfos zero = api.double_zero
  sum_of_cfos (suc n) = more_cfo (sum_of_cfos n) (api.get_cfo_hz e n)

  -- The averages over the ports: there is no SINR, and no CFO where the sum is NaN.
  abbrev pub averages : ℕ → Info api
  averages n = record {
    noise_var =
        api.to_double
          (api.float_divide (sum_of api.float_add api.float_zero (api.get_noise_variance e) n) n);
    rsrp =
        api.to_double (api.float_divide (sum_of api.float_add api.float_zero (api.get_rsrp e) n) n);
    epre =
        api.to_double (api.float_divide (sum_of api.float_add api.float_zero (api.get_epre e) n) n);
    sinr = api.nan;
    time_alignment =
        api.double_divide (sum_of api.double_add api.double_zero (api.get_time_alignment e) n) n;
    cfo = if api.is_nan (sum_of_cfos n) then none else some (api.double_divide (sum_of_cfos n) n);
  }

  unfoldable totals_at : ℕ → Totals api
  totals_at n = record {
    total_noise_var = sum_of api.float_add api.float_zero (api.get_noise_variance e) n;
    total_rsrp = sum_of api.float_add api.float_zero (api.get_rsrp e) n;
    total_epre = sum_of api.float_add api.float_zero (api.get_epre e) n;
    total_time_alignment = sum_of api.double_add api.double_zero (api.get_time_alignment e) n;
    total_cfo = sum_of_cfos n;
  }

  add_port-totals_at : (i : ℕ) → add_port api e i (totals_at i) ≡ totals_at (i + 1)
  unfolding add_port totals_at sum_of sum_of_cfos
  add_port-totals_at i = ap totals_at {x = suc i} {y = i + 1} (omega arith)

  length-map-some : (xs : List (Info api)) → length (map some xs) ≡ length xs
  length-map-some [] = refl
  length-map-some (x ∷ xs) = ap suc (length-map-some xs)

  length-port_infos :
      (n left i : ℕ) (t : Totals api)
      → length (port_infos api e n left i t) ≡ left + (if ltb 1 n then 1 else 0)
  unfolding port_infos
  length-port_infos n zero i t = ground arith
  length-port_infos n (suc left) i t =
      omega (arith, length-port_infos n left (i + 1) (add_port api e i t))

  get_elem?-port_infos :
      (n left i p : ℕ) (t : Totals api)
      → p < left
      → get_elem? (map some (port_infos api e n left i t)) p ≡ some (some (metrics_of (i + p)))
  unfolding port_infos port_info
  get_elem?-port_infos n zero i p t h = ground arith
  get_elem?-port_infos n (suc left) i zero t h =
      ap (λ q. some (some (metrics_of q))) {x = i} {y = i + 0} (omega arith)
  get_elem?-port_infos n (suc left) i (suc p) t h =
      get_elem?-port_infos n left (i + 1) p (add_port api e i t) (omega arith)
      ∙ ap (λ q. some (some (metrics_of q))) {x = i + 1 + p} {y = i + suc p} (omega arith)

  total_info-averages : (n : ℕ) → total_info api n (totals_at n) ≡ averages n
  unfolding total_info totals_at
  total_info-averages n = elim (Bool-cases (api.is_nan (sum_of_cfos n))) [
    | inl h ↦ rw h refl
    | inr h ↦ rw h refl
  ]

  port_infos-last :
      (n left i : ℕ)
      → 1 < n
      → get_elem? (map some (port_infos api e n left i (totals_at i))) left
        ≡ some (some (total_info api n (totals_at (i + left))))
  unfolding port_infos
  port_infos-last n zero i h =
      let several : ltb 1 n ≡ true = ground arith in
      rw several
        (ap (λ q. some (some (total_info api n (totals_at q)))) {x = i} {y = i + 0} (omega arith))
  port_infos-last n (suc left) i h =
      ap (λ t. get_elem? (map some (port_infos api e n left (i + 1) t)) left) (add_port-totals_at i)
      ∙ port_infos-last n left (i + 1) h
      ∙ ap (λ q. some (some (total_info api n (totals_at q)))) {x = i + 1 + left} {y = i + suc left}
          (omega arith)

  -- What the rows hold: the metrics of each port at its place, and after those of several ports the
  -- averages over all of them.
  pub record AreMetrics (nof_rx_ports : ℕ) (rows : List (Option (Info api))) : Type 0 where
    pub size : length rows ≡ (if nof_rx_ports == 1 then 1 else nof_rx_ports + 1)
    pub metrics : (p : ℕ) → p < nof_rx_ports → get_elem? rows p ≡ some (some (metrics_of p))
    pub last :
        (nof_rx_ports ≤ 1) ⊎ (get_elem? rows nof_rx_ports ≡ some (some (averages nof_rx_ports)))

  last_row :
      (n : ℕ)
      → (suc n ≤ 1)
        ⊎ (get_elem? (map some (port_infos api e (suc n) (suc n) 0 (no_totals api))) (suc n)
            ≡ some (some (averages (suc n))))
  unfolding totals_at sum_of sum_of_cfos
  last_row zero = inl (ground arith)
  last_row (suc n) = inr (
      port_infos-last (suc (suc n)) (suc (suc n)) 0 (ground arith)
      ∙ ap (λ q. some (some (total_info api (suc (suc n)) (totals_at q)))) {x = 0 + suc (suc n)}
          {y = suc (suc n)} (omega arith)
      ∙ ap (λ r. some (some r)) (total_info-averages (suc (suc n))))

  infos-no_ports : infos api e 0 ≡ ok (none ∷ [])
  unfolding infos nof_infos port_infos
  infos-no_ports = refl

  -- For a number of ports whose successor fits an `unsigned`, the rows are written without an
  -- exception. There is one row for one port, and else one more than ports; the row at the place of a
  -- port holds the metrics of this port, and after the rows of several ports the last one holds their
  -- averages over the ports.
  pub infos_lem :
      (nof_rx_ports : ℕ)
      → nof_rx_ports + 1 < 2 ^ 32
      → (rows : List (Option (Info api))) × (infos api e nof_rx_ports ≡ ok rows)
        × AreMetrics nof_rx_ports rows
  unfolding infos nof_infos
  infos_lem zero small = (
    none ∷ [],
    infos-no_ports,
    record { size = refl; metrics = λ p h. ground arith; last = inl (ground arith) },
  )
  infos_lem (suc n) small =
      let rows = map some (port_infos api e (suc n) (suc n) 0 (no_totals api)) in
      let size : length rows ≡ suc n + (if ltb 1 (suc n) then 1 else 0) =
        length-map-some _ ∙ length-port_infos (suc n) (suc n) 0 (no_totals api) in
      let as_created : length rows ≡ nof_infos (suc n) = ground (arith, size, small) in
      let room : leb (length rows) (nof_infos (suc n)) ≡ true = ground (arith, as_created) in
      let none_left : nof_infos (suc n) - length rows ≡ 0 = omega (arith, as_created) in
      (
        rows,
        rw (room, none_left) (ap ok (append-nil rows)),
        record {
          size = ground (arith, size);
          metrics = λ p h.
              get_elem?-port_infos (suc n) (suc n) 0 p (no_totals api) h
              ∙ ap (λ q. some (some (metrics_of q))) {x = 0 + p} {y = p} (omega arith);
          last = last_row n;
        },
      )
