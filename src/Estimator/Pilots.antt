-- ===== src/Estimator/Pilots.antt =====
-- multiport_channel_estimator_mex.cpp: the slices of pilots that the layers get.
use native.Mathlib.Nat.{mul-le-mul_right}
use srs_ran_matlab.Prelude.{
  ℕ, ◌+◌, ◌-◌, ◌*◌, ◌<◌, ◌≤◌, ◌≡◌, ◌≢◌, ◌⊎◌, inl, inr, refl, ap, ◌∙◌, List, length, take, drop,
  length-drop, drop-drop, arith,
}
use srs_ran_matlab.Mex.{ok}
use srs_ran_matlab.Mex.Loop.{for_range-invariant}
use srs_ran_matlab.Span.{first-take, last-drop}
use srs_ran_matlab.Estimator.Api.{EstimatorApi, IsPilots}
use srs_ran_matlab.Estimator.Inputs.{Slicing, slice_layer, slice_pilots}

module _ {Number Complex Grid : Type 0} (api : EstimatorApi Number Complex Grid) where
  slice_layer_lem :
      (n l : ℕ) (s : Slicing api)
      → n ≤ length s.pilot_view
      → slice_layer api n l s
        ≡ ok (record {
          pilot_view = drop n s.pilot_view;
          pilots = api.set_slice s.pilots (take n s.pilot_view) l;
        })
  unfolding slice_layer
  slice_layer_lem n l s fits =
      let back : length s.pilot_view - (length s.pilot_view - n) ≡ n = omega arith in
      rw
        (
          first-take n s.pilot_view fits,
          last-drop (length s.pilot_view - n) s.pilot_view (omega arith),
          back,
        )
        refl

module _ {Number Complex Grid : Type 0} (api : EstimatorApi Number Complex Grid)
    (laws : IsPilots api) (view : List Complex) (n layers : ℕ)
    (enough : layers * n ≤ length view) where
  -- The slices are set up to a layer, and the view starts at its pilots.
  record IsSliced (l : ℕ) (s : Slicing api) : Type 0 where
    rest : s.pilot_view ≡ drop (l * n) view
    slices : (k : ℕ) → k < l → api.get_slice s.pilots k ≡ take n (drop (k * n) view)

  this_or_before : (l k : ℕ) → k < l + 1 → (k ≡ l) ⊎ ((k ≢ l) × (k < l))
  this_or_before l k h = ground arith

  layer_round :
      (l : ℕ) (s : Slicing api)
      → l < layers
      → IsSliced l s
      → (t : Slicing api) × (slice_layer api n l s ≡ ok t) × IsSliced (l + 1) t
  layer_round l s hl f =
      let many = mul-le-mul_right {m = l + 1} {n = layers} n (omega arith) in
      let room : n ≤ length s.pilot_view =
        omega (arith, many, length-drop (l * n) view, ap length f.rest) in
      (
        record {
          pilot_view = drop n s.pilot_view;
          pilots = api.set_slice s.pilots (take n s.pilot_view) l;
        },
        slice_layer_lem api n l s room,
        record {
          rest =
              ap (drop n) f.rest
              ∙ drop-drop (l * n) n view
              ∙ ap (λ i. drop i view) {x = l * n + n} {y = (l + 1) * n} (omega arith);
          slices = λ k h. elim (this_or_before l k h) [
            | inl e ↦
                rw e
                  (laws.get_slice-set_slice s.pilots (take n s.pilot_view) l ∙ ap (take n) f.rest)
            | inr (other, before) ↦
                laws.get_slice-set_slice_ne s.pilots (take n s.pilot_view) l k other
                ∙ f.slices k before
          ];
        },
      )

  -- Where there are as many pilots as the layers need, the loop makes every slice without a failed
  -- assertion, and the slice of a layer holds the stretch of the pilots at its place.
  pub slice_pilots_lem :
      (pilots : api.Pilots)
      → (t : Slicing api) × (slice_pilots api n layers
            (record { pilot_view = view; pilots = pilots })
          ≡ ok t)
        × ((l : ℕ) → l < layers → api.get_slice t.pilots l ≡ take n (drop (l * n) view))
  unfolding slice_pilots
  slice_pilots_lem pilots =
      let start : IsSliced 0 (record { pilot_view = view; pilots = pilots }) = record {
        rest = ap (λ i. drop i view) {x = 0} {y = 0 * n} (omega arith);
        slices = λ k h. ground arith;
      } in
      let (t, ran, sliced) =
        for_range-invariant IsSliced (slice_layer api n) layers layer_round layers 0
          (record { pilot_view = view; pilots = pilots }) (omega arith) start in
      (t, ran, sliced.slices)
