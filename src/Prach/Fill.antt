-- ===== src/Prach/Fill.antt =====
-- prach_detector_mex.cpp: the samples that the buffer holds once the loops have filled it.
use srs_ran_matlab.Prelude.{ℕ, ◌+◌, ◌<◌, ◌≤◌, ◌≡◌, ◌≢◌, ◌⊎◌, inl, inr, ◌∙◌, some, arith}
use srs_ran_matlab.Mex.{Matlab, ok}
use srs_ran_matlab.Mex.Loop.{for_range-invariant}
use srs_ran_matlab.Prach.Api.{PrachApi, IsBuffer}
use srs_ran_matlab.Prach.Step.{fill_sample, fill_symbol, fill_port, fill_buffer}

-- A sample is written before another: on an earlier port, or on its port in an earlier symbol, or in
-- its symbol at an earlier index.
abbrev pub IsBefore : ℕ → ℕ → ℕ → ℕ → ℕ → ℕ → ℕ → ℕ → Type 0
IsBefore symbols samples p l k q n j =
    (n < symbols) × (j < samples) × ((q < p) ⊎ ((q ≡ p) × ((n < l) ⊎ ((n ≡ l) × (j < k)))))

module _ (m : Matlab) (api : PrachApi m.Number m.Complex) (laws : IsBuffer api) where
  open api use {Buffer}

  module _ (a : m.Array) (ports symbols samples : ℕ) (value : ℕ → ℕ → ℕ → m.Complex)
      (is_read : (q n j : ℕ)
        → q < ports
        → n < symbols
        → j < samples
        → m.complex_element a j n q ≡ ok (value q n j)) where
    -- The element of the array in the precision of the buffer.
    abbrev stored : ℕ → ℕ → ℕ → api.Sample
    stored q n j = api.to_cbf16 (api.to_cf (value q n j))

    -- The buffer has room for the array, and holds its samples up to a position.
    record IsFilled (p l k : ℕ) (b : Buffer) : Type 0 where
      ports_fit : ports ≤ api.nof_ports b
      symbols_fit : symbols ≤ api.nof_symbols b
      samples_fit : samples ≤ api.nof_samples b
      holds :
          (q n j : ℕ) → IsBefore symbols samples p l k q n j → api.get b q n j ≡ some (stored q n j)

    weaken :
        (p l k p' l' k' : ℕ) (b : Buffer)
        → ((q n j : ℕ)
            → IsBefore symbols samples p' l' k' q n j
            → IsBefore symbols samples p l k q n j)
        → IsFilled p l k b
        → IsFilled p' l' k' b
    weaken p l k p' l' k' b before f = record {
      ports_fit = f.ports_fit;
      symbols_fit = f.symbols_fit;
      samples_fit = f.samples_fit;
      holds = λ q n j h. f.holds q n j (before q n j h);
    }

    written_split :
        (p l k q n j : ℕ)
        → IsBefore symbols samples p l (k + 1) q n j
        → ((q ≡ p) × (n ≡ l) × (j ≡ k))
          ⊎ (((q ≢ p) ⊎ (n ≢ l) ⊎ (j ≢ k)) × IsBefore symbols samples p l k q n j)
    written_split p l k q n j h = ground arith

    sample_round :
        (p l k : ℕ) (b : Buffer)
        → p < ports
        → l < symbols
        → k < samples
        → IsFilled p l k b
        → (c : Buffer) × (fill_sample m api a p l k b ≡ ok c) × IsFilled p l (k + 1) c
    unfolding fill_sample
    sample_round p l k b hp hl hk f =
        let put =
          laws.put-in_range b p l k (stored p l k) (ground (arith, f.ports_fit))
            (ground (arith, f.symbols_fit)) (ground (arith, f.samples_fit)) in
        (
          put.0,
          rw (is_read p l k hp hl hk) put.1,
          record {
            ports_fit = ground (arith, f.ports_fit, put.2);
            symbols_fit = ground (arith, f.symbols_fit, put.3);
            samples_fit = ground (arith, f.samples_fit, put.4);
            holds = λ q n j h. elim (written_split p l k q n j h) [
              | inl (e1, e2, e3) ↦ rw (e1, e2, e3) put.5
              | inr (other, before) ↦ put.6 q n j other ∙ f.holds q n j before
            ];
          },
        )

    next_symbol :
        (p l q n j : ℕ)
        → IsBefore symbols samples p (l + 1) 0 q n j
        → IsBefore symbols samples p l samples q n j
    next_symbol p l q n j h = ground arith

    symbol_round :
        (p l : ℕ) (b : Buffer)
        → p < ports
        → l < symbols
        → IsFilled p l 0 b
        → (c : Buffer) × (fill_symbol m api a samples p l b ≡ ok c) × IsFilled p (l + 1) 0 c
    unfolding fill_symbol
    symbol_round p l b hp hl f =
        let (c, ran, filled) =
          for_range-invariant (IsFilled p l) (fill_sample m api a p l) samples
            (λ k s hk g. sample_round p l k s hp hl hk g) samples 0 b (omega arith) f in
        (c, ran, weaken p l samples p (l + 1) 0 c (next_symbol p l) filled)

    next_port :
        (p q n j : ℕ)
        → IsBefore symbols samples (p + 1) 0 0 q n j
        → IsBefore symbols samples p symbols 0 q n j
    next_port p q n j h = ground arith

    port_round :
        (p : ℕ) (b : Buffer)
        → p < ports
        → IsFilled p 0 0 b
        → (c : Buffer) × (fill_port m api a samples symbols p b ≡ ok c) × IsFilled (p + 1) 0 0 c
    unfolding fill_port
    port_round p b hp f =
        let (c, ran, filled) =
          for_range-invariant (λ l. IsFilled p l 0) (fill_symbol m api a samples p) symbols
            (λ l s hl g. symbol_round p l s hp hl g) symbols 0 b (omega arith) f in
        (c, ran, weaken p symbols 0 (p + 1) 0 0 c (next_port p) filled)

    written_none : (q n j : ℕ) → IsBefore symbols samples 0 0 0 q n j → ⊥
    written_none q n j h = ground arith

    written_all :
        (q n j : ℕ)
        → q < ports
        → n < symbols
        → j < samples
        → IsBefore symbols samples ports 0 0 q n j
    written_all q n j hq hn hj = ground arith

    -- The loops fill a buffer that has room for the array without a failed assertion, and afterwards
    -- the sample of every port, symbol and index is the array's element there, converted first to single
    -- precision and then to the precision of the buffer.
    pub fill_buffer_lem :
        (b : Buffer)
        → ports ≤ api.nof_ports b
        → symbols ≤ api.nof_symbols b
        → samples ≤ api.nof_samples b
        → (c : Buffer) × (fill_buffer m api a samples symbols ports b ≡ ok c)
          × ((q n j : ℕ)
              → q < ports
              → n < symbols
              → j < samples
              → api.get c q n j ≡ some (api.to_cbf16 (api.to_cf (value q n j))))
    unfolding fill_buffer
    fill_buffer_lem b fits_p fits_l fits_k =
        let start : IsFilled 0 0 0 b = record {
          ports_fit = fits_p;
          symbols_fit = fits_l;
          samples_fit = fits_k;
          holds = λ q n j h. absurd (written_none q n j h);
        } in
        let (c, ran, filled) =
          for_range-invariant (λ p. IsFilled p 0 0) (fill_port m api a samples symbols) ports
            (λ p s hp g. port_round p s hp g) ports 0 b (omega arith) start in
        (c, ran, λ q n j hq hn hj. filled.holds q n j (written_all q n j hq hn hj))
