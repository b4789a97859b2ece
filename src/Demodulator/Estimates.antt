-- ===== src/Demodulator/Estimates.antt =====
-- pusch_demodulator_mex.cpp: the channel estimates that the loops of `method_step` set.
use native.Mathlib.Nat.{mul-le-mul_right}
use srs_ran_matlab.Prelude.{
  ℕ, ◌+◌, ◌-◌, ◌*◌, ◌<◌, ◌≤◌, ◌≡◌, ◌≢◌, ◌⊎◌, inl, inr, refl, ap, ◌∙◌, List, map, ◌==◌, length, take,
  drop, length-take, length-drop, drop-drop, arith, Bool-cases,
}
use srs_ran_matlab.Mex.{ok}
use srs_ran_matlab.Mex.Loop.{for_range-invariant}
use srs_ran_matlab.Span.{first-take, last-drop}
use srs_ran_matlab.Demodulator.Api.{DemodulatorApi, IsEstimate}
use srs_ran_matlab.Demodulator.Inputs.{
  Estimating, copy_path, set_noise, estimate_port, estimate_layer, set_estimates,
}

module _ {Number Complex Grid Llr : Type 0} (api : DemodulatorApi Number Complex Grid Llr)
    (laws : IsEstimate api) where
  open api use {ChannelEstimate, Real, path_size, get_path_ch_estimate, set_path}

  abbrev pub at_view : List Complex → ChannelEstimate → Estimating api
  at_view view e = record { ce_port_view = view; chan_estimates = e }

  copy_path_lem :
      (p l : ℕ) (xs : List Complex) (e : ChannelEstimate)
      → path_size e ≡ length xs
      → copy_path api p l xs e ≡ ok (set_path e p l (map api.to_cbf16 xs))
  unfolding copy_path
  copy_path_lem p l xs e h = ground arith

  estimate_port_lem :
      (re : ℕ) (noise : Real) (l p : ℕ) (view : List Complex) (e : ChannelEstimate)
      → re ≤ length view
      → path_size e ≡ re
      → estimate_port api re noise l p (at_view view e)
        ≡ ok (
            at_view
              (drop re view)
              (set_noise api noise l p (set_path e p l (map api.to_cbf16 (take re view)))))
  unfolding estimate_port
  estimate_port_lem re noise l p view e fits size =
      let taken : path_size e ≡ length (take re view) = omega (arith, size, length-take re view) in
      let back : length view - (length view - re) ≡ re = omega arith in
      rw
        (
          first-take re view fits,
          copy_path_lem p l (take re view) e taken,
          last-drop (length view - re) view (omega arith),
          back,
        )
        refl

  path_size-set_noise :
      (noise : Real) (l p : ℕ) (e : ChannelEstimate)
      → path_size (set_noise api noise l p e) ≡ path_size e
  unfolding set_noise
  path_size-set_noise noise l p e = elim (Bool-cases (l == 0)) [
    | inl h ↦ rw h (laws.path_size-set_noise_variance e noise p)
    | inr h ↦ rw h refl
  ]

  get_path-set_noise :
      (noise : Real) (l p : ℕ) (e : ChannelEstimate) (q n : ℕ)
      → get_path_ch_estimate (set_noise api noise l p e) q n ≡ get_path_ch_estimate e q n
  unfolding set_noise
  get_path-set_noise noise l p e q n = elim (Bool-cases (l == 0)) [
    | inl h ↦ rw h (laws.get_path-set_noise_variance e noise p q n)
    | inr h ↦ rw h refl
  ]

  module _ (view : List Complex) (re ports layers : ℕ) (noise : Real)
      (enough : layers * ports * re ≤ length view) where
    -- Where the elements of a port and a layer start.
    abbrev offset : ℕ → ℕ → ℕ
    offset p l = (l * ports + p) * re

    fits : (p l : ℕ) → p < ports → l < layers → offset p l + re ≤ length view
    fits p l hp hl =
        let many : l * ports + p + 1 ≤ layers * ports =
          omega (arith, mul-le-mul_right {m = l + 1} {n = layers} ports (omega arith)) in
        omega (arith, mul-le-mul_right re many)

    abbrev elements_of : ℕ → ℕ → List Complex
    elements_of p l = take re (drop (offset p l) view)

    -- The estimates are set up to a port of a layer, and the view starts at its elements.
    record IsEstimated (l p : ℕ) (s : Estimating api) : Type 0 where
      rest : s.ce_port_view ≡ drop (offset p l) view
      size : path_size s.chan_estimates ≡ re
      set :
          (q n : ℕ)
          → q < ports
          → (n < l) ⊎ ((n ≡ l) × (q < p))
          → get_path_ch_estimate s.chan_estimates q n ≡ map api.to_cbf16 (elements_of q n)

    this_or_before :
        (l p q n : ℕ)
        → (n < l) ⊎ ((n ≡ l) × (q < p + 1))
        → ((q ≡ p) × (n ≡ l)) ⊎ (((q ≢ p) ⊎ (n ≢ l)) × ((n < l) ⊎ ((n ≡ l) × (q < p))))
    this_or_before l p q n h = ground arith

    port_round :
        (l p : ℕ) (s : Estimating api)
        → p < ports
        → l < layers
        → IsEstimated l p s
        → (t : Estimating api) × (estimate_port api re noise l p s ≡ ok t) × IsEstimated l (p + 1) t
    port_round l p s hp hl f =
        let values = map api.to_cbf16 (take re s.ce_port_view) in
        let values_eq : values ≡ map api.to_cbf16 (elements_of p l) =
          ap (λ v. map api.to_cbf16 (take re v)) f.rest in
        let room : re ≤ length s.ce_port_view =
          omega (arith, fits p l hp hl, length-drop (offset p l) view, ap length f.rest) in
        let copied = set_path s.chan_estimates p l values in
        (
          at_view (drop re s.ce_port_view) (set_noise api noise l p copied),
          estimate_port_lem re noise l p s.ce_port_view s.chan_estimates room f.size,
          record {
            rest =
                ap (drop re) f.rest
                ∙ drop-drop (offset p l) re view
                ∙ ap (λ n. drop n view) {x = offset p l + re} {y = offset (p + 1) l} (omega arith);
            size =
                path_size-set_noise noise l p copied
                ∙ laws.path_size-set_path s.chan_estimates p l values
                ∙ f.size;
            set = λ q n hq h.
                get_path-set_noise noise l p copied q n ∙ elim (this_or_before l p q n h) [
                  | inl (e1, e2) ↦
                      rw (e1, e2) (laws.get_path-set_path s.chan_estimates p l values ∙ values_eq)
                  | inr (other, before) ↦
                      laws.get_path-set_path_ne s.chan_estimates p l q n values other
                      ∙ f.set q n hq before
                ];
          },
        )

    next_layer :
        (l q n : ℕ)
        → q < ports
        → (n < l + 1) ⊎ ((n ≡ l + 1) × (q < 0))
        → (n < l) ⊎ ((n ≡ l) × (q < ports))
    next_layer l q n hq h = ground arith

    layer_round :
        (l : ℕ) (s : Estimating api)
        → l < layers
        → IsEstimated l 0 s
        → (t : Estimating api) × (estimate_layer api re noise ports l s ≡ ok t)
          × IsEstimated (l + 1) 0 t
    unfolding estimate_layer
    layer_round l s hl f =
        let (t, ran, filled) =
          for_range-invariant (IsEstimated l) (estimate_port api re noise l) ports
            (λ p s' hp g. port_round l p s' hp hl g) ports 0 s (omega arith) f in
        (
          t,
          ran,
          record {
            rest =
                filled.rest
                ∙ ap (λ n. drop n view) {x = offset ports l} {y = offset 0 (l + 1)} (omega arith);
            size = filled.size;
            set = λ q n hq h. filled.set q n hq (next_layer l q n hq h);
          },
        )

    -- Where the array has the elements of all ports and layers and each path has room for its own, the
    -- loops set every path without a failed assertion, and the path of a port and a layer holds the
    -- stretch of the array that its place in the array, by layers and then by ports, gives it, converted
    -- to the precision of the channel estimates.
    pub set_estimates_lem :
        (e : ChannelEstimate)
        → path_size e ≡ re
        → (t : Estimating api) × (set_estimates api re noise ports layers (at_view view e) ≡ ok t)
          × ((p l : ℕ)
              → p < ports
              → l < layers
              → get_path_ch_estimate t.chan_estimates p l
                ≡ map api.to_cbf16 (take re (drop ((l * ports + p) * re) view)))
    unfolding set_estimates
    set_estimates_lem e size =
        let start : IsEstimated 0 0 (at_view view e) = record {
          rest = ap (λ n. drop n view) {x = 0} {y = offset 0 0} (omega arith);
          size = size;
          set = λ q n hq h. ground arith;
        } in
        let (t, ran, filled) =
          for_range-invariant (λ l. IsEstimated l 0) (estimate_layer api re noise ports) layers
            (λ l s hl g. layer_round l s hl g) layers 0 (at_view view e) (omega arith) start in
        (t, ran, λ p l hp hl. filled.set p l hp (inl hl))
