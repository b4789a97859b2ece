-- ===== src/Estimator/Written.antt =====
-- multiport_channel_estimator_mex.cpp: the array of channel estimates that is returned.
use native.Mathlib.Nat.{mul-le-mul_right}
use srs_ran_matlab.Prelude.{
  ℕ, zero, suc, ◌+◌, ◌-◌, ◌*◌, ◌<◌, ◌≤◌, ◌≡◌, ◌⊎◌, inl, inr, refl, sym, ap, ◌∙◌, true, List, [],
  ◌∷◌, ◌++◌, length, leb, take, drop, replicate, length-append, drop-append, take_all, append-nil,
  arith,
}
use srs_ran_matlab.Mex.{ok, ◌>>=◌}
use srs_ran_matlab.Mex.Loop.{for_range-invariant}
use srs_ran_matlab.Estimator.Api.{EstimatorApi}
use srs_ran_matlab.Estimator.Outputs.{Writing, write_path, write_layer, write_estimates}

module _ {A : Type 0} where
  -- A stretch that lies in the first list.
  take-drop-append :
      (i n : ℕ) (xs ys : List A)
      → i + n ≤ length xs
      → take n (drop i (xs ++ ys)) ≡ take n (drop i xs)
  take-drop-append zero zero xs ys h = refl
  take-drop-append zero (suc n) [] ys h = ground arith
  take-drop-append zero (suc n) (x ∷ xs) ys h =
      ap (◌∷◌ x) (take-drop-append zero n xs ys (omega arith))
  take-drop-append (suc i) n [] ys h = ground arith
  take-drop-append (suc i) n (x ∷ xs) ys h = take-drop-append i n xs ys (omega arith)

  drop-append_at : (i : ℕ) (xs ys : List A) → i ≡ length xs → drop i (xs ++ ys) ≡ ys
  drop-append_at i xs ys e = ap (λ n. drop n (xs ++ ys)) e ∙ drop-append xs ys

  take_whole : (n : ℕ) (xs : List A) → length xs ≡ n → take n xs ≡ xs
  take_whole n xs e = ap (λ k. take k xs) (sym e) ∙ take_all xs

module _ {Number Complex Grid : Type 0} (api : EstimatorApi Number Complex Grid)
    (e : api.ChannelEstimate) (n ports layers : ℕ)
    (sizes : (p l : ℕ) → p < ports → l < layers → length (api.get_path_ch_estimate e p l) ≡ n) where
  abbrev path : ℕ → ℕ → List Complex
  path p l = api.get_path_ch_estimate e p l

  abbrev offset : ℕ → ℕ → ℕ
  offset p l = (l * ports + p) * n

  write_path_lem :
      (l p : ℕ) (w : Writing api)
      → length (path p l) ≤ w.ch_est_out_view
      → write_path api e l p w
        ≡ ok (record {
          written = w.written ++ path p l;
          ch_est_out_view = w.ch_est_out_view - length (path p l);
        })
  unfolding write_path
  write_path_lem l p w room =
      let fits : leb (length (path p l)) w.ch_est_out_view ≡ true = ground arith in rw fits refl

  record IsWritten (l p : ℕ) (w : Writing api) : Type 0 where
    size : length w.written ≡ offset p l
    left : offset p l + w.ch_est_out_view ≡ layers * ports * n
    holds :
        (q k : ℕ)
        → q < ports
        → (k < l) ⊎ ((k ≡ l) × (q < p))
        → take n (drop (offset q k) w.written) ≡ path q k

  this_or_before :
      (l p q k : ℕ)
      → (k < l) ⊎ ((k ≡ l) × (q < p + 1))
      → ((q ≡ p) × (k ≡ l)) ⊎ ((k < l) ⊎ ((k ≡ l) × (q < p)))
  this_or_before l p q k h = ground arith

  earlier : (l p q k : ℕ) → q < ports → (k < l) ⊎ ((k ≡ l) × (q < p)) → offset q k + n ≤ offset p l
  earlier l p q k hq (inl k<l) =
      let many : k * ports + q + 1 ≤ l * ports + p =
        omega (arith, mul-le-mul_right {m = k + 1} {n = l} ports (omega arith)) in
      omega (arith, mul-le-mul_right n many)
  earlier l p q k hq (inr (same, q<p)) =
      let many : k * ports + q + 1 ≤ l * ports + p = rw same (omega arith) in
      omega (arith, mul-le-mul_right n many)

  path_round :
      (l p : ℕ) (w : Writing api)
      → p < ports
      → l < layers
      → IsWritten l p w
      → (v : Writing api) × (write_path api e l p w ≡ ok v) × IsWritten l (p + 1) v
  path_round l p w hp hl f =
      let one = sizes p l hp hl in
      let many : l * ports + p + 1 ≤ layers * ports =
        omega (arith, mul-le-mul_right {m = l + 1} {n = layers} ports (omega arith)) in
      let fits : offset p l + n ≤ layers * ports * n = omega (arith, mul-le-mul_right n many) in
      (
        record {
          written = w.written ++ path p l;
          ch_est_out_view = w.ch_est_out_view - length (path p l);
        },
        write_path_lem l p w (omega (arith, one, fits, f.left)),
        record {
          size = omega (arith, length-append w.written (path p l), f.size, one);
          left = omega (arith, f.left, fits, one);
          holds = λ q k hq h. elim (this_or_before l p q k h) [
            | inl (e1, e2) ↦
                rw (e1, e2)
                  (ap (take n) (drop-append_at (offset p l) w.written (path p l) (sym f.size))
                    ∙ take_whole n (path p l) one)
            | inr before ↦
                take-drop-append (offset q k) n w.written (path p l)
                  (omega (arith, earlier l p q k hq before, f.size))
                ∙ f.holds q k hq before
          ];
        },
      )

  next_layer :
      (l q k : ℕ)
      → q < ports
      → (k < l + 1) ⊎ ((k ≡ l + 1) × (q < 0))
      → (k < l) ⊎ ((k ≡ l) × (q < ports))
  next_layer l q k hq h = ground arith

  layer_round :
      (l : ℕ) (w : Writing api)
      → l < layers
      → IsWritten l 0 w
      → (v : Writing api) × (write_layer api e ports l w ≡ ok v) × IsWritten (l + 1) 0 v
  unfolding write_layer
  layer_round l w hl f =
      let (v, ran, filled) =
        for_range-invariant (IsWritten l) (write_path api e l) ports
          (λ p s hp g. path_round l p s hp hl g) ports 0 w (omega arith) f in
      (
        v,
        ran,
        record {
          size = omega (arith, filled.size);
          left = omega (arith, filled.left);
          holds = λ q k hq h. filled.holds q k hq (next_layer l q k hq h);
        },
      )

  -- Where all paths are of one size and the output array has room for all of them, no copy fails, the
  -- array is filled, and the stretch at the place of a port and a layer, by layers and then by ports,
  -- holds the channel estimates of this path.
  pub write_estimates_lem :
      (out : List Complex) × (write_estimates api e ports layers (layers * ports * n) ≡ ok out)
      × (length out ≡ layers * ports * n)
      × ((p l : ℕ)
          → p < ports
          → l < layers
          → take n (drop ((l * ports + p) * n) out) ≡ api.get_path_ch_estimate e p l)
  unfolding write_estimates
  write_estimates_lem =
      let empty : Writing api = record { written = []; ch_est_out_view = layers * ports * n } in
      let start : IsWritten 0 0 empty = record {
        size = omega arith;
        left = omega arith;
        holds = λ q k hq h. ground arith;
      } in
      let (w, ran, filled) =
        for_range-invariant (λ l. IsWritten l 0) (write_layer api e ports) layers
          (λ l s hl g. layer_round l s hl g) layers 0 empty (omega arith) start in
      let full : w.ch_est_out_view ≡ 0 = omega (arith, filled.left) in
      (
        w.written,
        ap (λ r. r >>= λ v. ok (v.written ++ replicate v.ch_est_out_view api.zero_complex)) ran
            ∙ ap ok
                (ap (λ k. w.written ++ replicate k api.zero_complex) full ∙ append-nil w.written),
        omega (arith, filled.size),
        λ p l hp hl. filled.holds p l hp (inl hl),
      )
