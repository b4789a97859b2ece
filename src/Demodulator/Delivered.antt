-- ===== src/Demodulator/Delivered.antt =====
-- pusch_demodulator_mex.cpp: a step whose demodulator delivers a whole codeword.
use srs_ran_matlab.Prelude.{
  ℕ, ◌<◌, ◌^◌, ◌≡◌, refl, sym, ap, ◌∙◌, subst, false, List, [], ◌∷◌, ◌++◌, some, length,
  length-replicate, replicate, map, arith, inl, inr,
}
use srs_ran_matlab.Mex.{
  Matlab, Result, ok, err, ok-injective, >>=-eq-ok, input, unsigned_field, Result-cases, ◌>>=◌,
}
use srs_ran_matlab.Mex.Call.{done}
use srs_ran_matlab.Grid.{GridApi, read_resource_grid}
use srs_ran_matlab.Demodulator.Codeword.{CodewordBuffer, on_end_codeword, get_data}
use srs_ran_matlab.Demodulator.Codeword.Deliver.{
  Delivery, all_values, deliver, deliver_all, AreOutside, codeword_lem,
}
use srs_ran_matlab.Demodulator.Codeword.Bounds.{assert-eq-ok}
use srs_ran_matlab.Demodulator.Api.{
  DemodulatorApi, DemodulatorConfiguration, BufferCall, delivers, ends,
}
use srs_ran_matlab.Demodulator.Inputs.{
  run_calls, check_step_outputs_inputs, read_demodulator_config, read_estimates,
}
use srs_ran_matlab.Demodulator.Methods.{soft_bits, demodulated, demodulate, method_step}

module _ {Llr : Type 0} where
  -- The calls that deliver the blocks and then end the codeword.
  abbrev pub codeword_calls : List (Delivery Llr) → List (BufferCall Llr)
  codeword_calls ds = map delivers ds ++ (ends ∷ [])

  >>=-ok : (r : Result (CodewordBuffer Llr)) → (r >>= ok) ≡ r
  >>=-ok (ok b) = refl
  >>=-ok (err e) = refl

  run_calls-codeword :
      (ds : List (Delivery Llr)) (b : CodewordBuffer Llr)
      → run_calls (codeword_calls ds) b ≡ (deliver_all ds b >>= on_end_codeword)
  unfolding run_calls deliver_all
  run_calls-codeword [] b = >>=-ok (on_end_codeword b)
  run_calls-codeword (d ∷ ds) b = elim (Result-cases (deliver d b)) [
    | inl (e, failed) ↦ rw failed refl
    | inr (b', delivered) ↦ rw delivered (run_calls-codeword ds b')
  ]

  get_data-ok :
      (c : CodewordBuffer Llr) (llrs : List Llr) → get_data c ≡ ok llrs → c.soft_bits ≡ llrs
  unfolding get_data
  get_data-ok c llrs h =
      ok-injective c.soft_bits llrs
        (assert-eq-ok c.completed "Data processing is not completed." _ h).1

module _ (m : Matlab) (grids : GridApi m.Complex) {Llr : Type 0}
    (api : DemodulatorApi m.Number m.Complex grids.Grid Llr) where
  demodulated_codeword :
      (n : ℕ) (ds : List (Delivery Llr))
      → n < 2 ^ 32
      → length (all_values ds) ≡ n
      → AreOutside api.out_address n ds
      → demodulated m grids api n (codeword_calls ds) ≡ ok (all_values ds)
  unfolding demodulated
  demodulated_codeword n ds small full outside =
      let memory = replicate n api.zero_llr in
      let start : CodewordBuffer Llr = record {
        completed = false;
        base = api.out_address;
        soft_bits = memory;
        count = 0;
      } in
      let size : length memory ≡ n = length-replicate n api.zero_llr in
      let whole =
        codeword_lem ds api.out_address memory (omega (arith, size, small)) (full ∙ sym size)
          (subst (λ k. AreOutside api.out_address k ds) (sym size) outside) in
      let (b, delivered, h) = >>=-eq-ok (deliver_all ds start) _ whole in
      let (c, ended, taken) = >>=-eq-ok (on_end_codeword b) _ h in
      let ran : run_calls (codeword_calls ds) start ≡ ok c =
        run_calls-codeword ds start ∙ ap (λ r. r >>= on_end_codeword) delivered ∙ ended in
      ap (λ r. r >>= λ (x : CodewordBuffer Llr). ok x.soft_bits) ran
      ∙ ap ok (get_data-ok c (all_values ds) taken)

  -- What a step has read from its inputs when it calls the demodulator.
  pub record IsRead (outputs : ℕ) (inputs : List m.Array) (config : DemodulatorConfiguration)
      (grid : grids.Grid) (estimates : api.ChannelEstimate) (n : ℕ) : Type 0 where
    pub checked : check_step_outputs_inputs m outputs inputs ≡ ok tt
    pub in1 : m.Array
    pub has_in1 : input m inputs 1 ≡ ok in1
    pub in_dem_cfg : m.Array
    pub has_config : input m inputs 4 ≡ ok in_dem_cfg
    pub configured : read_demodulator_config m api in_dem_cfg ≡ ok config
    pub has_grid : read_resource_grid m grids in1 ≡ ok (some grid)
    pub estimated : read_estimates m api inputs config ≡ ok estimates
    pub requested : unsigned_field m in_dem_cfg "NumOutputLLR" ≡ ok n

  -- If a step has read its inputs, and the demodulator delivers exactly the requested number of soft
  -- bits, block by block in place or from memory outside the output array, and then ends the codeword,
  -- the step returns these soft bits in their order, and the object keeps the demodulator as the
  -- demodulation left it. The requested number fits an `unsigned`.
  pub method_step_delivers :
      (outputs : ℕ) (inputs : List m.Array) (demodulator demodulator' : api.Demodulator)
      (config : DemodulatorConfiguration) (grid : grids.Grid) (estimates : api.ChannelEstimate)
      (n : ℕ) (ds : List (Delivery Llr))
      → IsRead outputs inputs config grid estimates n
      → n < 2 ^ 32
      → api.demodulate demodulator grid estimates config ≡ (demodulator', codeword_calls ds)
      → length (all_values ds) ≡ n
      → AreOutside api.out_address n ds
      → method_step m grids api outputs inputs (some demodulator)
        ≡ done (soft_bits (all_values ds)) (some demodulator')
  unfolding method_step demodulate
  method_step_delivers outputs inputs demodulator demodulator' config grid estimates n ds read small
        calls full outside =
      rw
        (
          read.checked,
          read.has_config,
          read.configured,
          read.has_in1,
          read.has_grid,
          read.estimated,
          read.requested,
          calls,
          demodulated_codeword n ds small full outside,
        )
        refl
