-- ===== src/Demodulator/Output.antt =====
-- pusch_demodulator_mex.cpp: the soft bits that `method_step` returns.
use srs_ran_matlab.Prelude.{
  ℕ, ◌⊎◌, inl, inr, Bool-cases, ◌+◌, ◌≤◌, ◌<◌, ◌^◌, ◌≡◌, refl, sym, ap, ◌∙◌, subst, Bool, true,
  false, List, [], ◌∷◌, length, length-replicate, replicate, arith,
}
use srs_ran_matlab.Mex.{Matlab, ok, ok-injective, >>=-eq-ok}
use srs_ran_matlab.Grid.{GridApi}
use srs_ran_matlab.Demodulator.Codeword.{CodewordBuffer, on_end_codeword}
use srs_ran_matlab.Demodulator.Codeword.Deliver.{values_of, deliver}
use srs_ran_matlab.Demodulator.Codeword.Bounds.{IsBounded, deliver-Takes, on_end_codeword-ok}
use srs_ran_matlab.Demodulator.Api.{DemodulatorApi, BufferCall, delivers, ends}
use srs_ran_matlab.Demodulator.Inputs.{run_calls}
use srs_ran_matlab.Demodulator.Methods.{demodulated}

module _ {Llr : Type 0} where
  -- The number of soft bits that the calls deliver.
  abbrev pub nof_delivered : List (BufferCall Llr) → ℕ
  nof_delivered [] = 0
  nof_delivered (delivers d ∷ calls) = length (values_of d) + nof_delivered calls
  nof_delivered (ends ∷ calls) = nof_delivered calls

  abbrev pub is_ended : List (BufferCall Llr) → Bool
  is_ended [] = false
  is_ended (delivers d ∷ calls) = is_ended calls
  is_ended (ends ∷ calls) = true

  -- Nothing follows the end of the codeword.
  abbrev pub IsOneCodeword : List (BufferCall Llr) → Type 0
  IsOneCodeword [] = Unit {0}
  IsOneCodeword (delivers d ∷ calls) = IsOneCodeword calls
  IsOneCodeword (ends ∷ calls) = calls ≡ []

  module _ (n : ℕ) (small : n < 2 ^ 32) where
    completed-run :
        (calls : List (BufferCall Llr)) (b c : CodewordBuffer Llr)
        → IsBounded n small b
        → b.completed ≡ true
        → run_calls calls b ≡ ok c
        → (calls ≡ []) × (b ≡ c)
    unfolding run_calls
    completed-run [] b c bounded closed h = (refl, ok-injective b c h)
    completed-run (delivers d ∷ calls) b c bounded closed h =
        let (b', ran, h1) = >>=-eq-ok (deliver d b) _ h in
        absurd (ground (arith, closed, (deliver-Takes n small d b b' bounded ran).open_before))
    completed-run (ends ∷ calls) b c bounded closed h =
        let (b', ran, h1) = >>=-eq-ok (on_end_codeword b) _ h in
        absurd (ground (arith, closed, (on_end_codeword-ok n small b b' bounded ran).0))

    -- A run of calls from an open buffer that has not failed.
    record Ran (calls : List (BufferCall Llr)) (b c : CodewordBuffer Llr) : Type 0 where
      bounded : IsBounded n small c
      counted : c.count ≡ b.count + nof_delivered calls
      completed : c.completed ≡ is_ended calls
      one : IsOneCodeword calls

    run_calls-Ran :
        (calls : List (BufferCall Llr)) (b c : CodewordBuffer Llr)
        → IsBounded n small b
        → b.completed ≡ false
        → run_calls calls b ≡ ok c
        → Ran calls b c
    unfolding run_calls
    run_calls-Ran [] b c bounded opened h =
        let same = ok-injective b c h in
        record {
          bounded = subst (IsBounded n small) same bounded;
          counted = ap (λ (x : CodewordBuffer Llr). x.count) (sym same) ∙ omega arith;
          completed = ap (λ (x : CodewordBuffer Llr). x.completed) (sym same) ∙ opened;
          one = tt;
        }
    run_calls-Ran (delivers d ∷ calls) b c bounded opened h =
        let (b', ran, h1) = >>=-eq-ok (deliver d b) _ h in
        let taken = deliver-Takes n small d b b' bounded ran in
        let rest = run_calls-Ran calls b' c taken.bounded taken.open_after h1 in
        record {
          bounded = rest.bounded;
          counted = omega (arith, rest.counted, taken.counted);
          completed = rest.completed;
          one = rest.one;
        }
    run_calls-Ran (ends ∷ calls) b c bounded opened h =
        let (b', ran, h1) = >>=-eq-ok (on_end_codeword b) _ h in
        let (_, closed, count, bounded') = on_end_codeword-ok n small b b' bounded ran in
        let (none_left, same) = completed-run calls b' c bounded' closed h1 in
        record {
          bounded = subst (IsBounded n small) same bounded';
          counted =
              ap (λ (x : CodewordBuffer Llr). x.count) (sym same)
              ∙ omega (arith, count, ap nof_delivered none_left);
          completed = ap (λ (x : CodewordBuffer Llr). x.completed) (sym same) ∙ closed;
          one = none_left;
        }

module _ (m : Matlab) (grids : GridApi m.Complex) {Llr : Type 0}
    (api : DemodulatorApi m.Number m.Complex grids.Grid Llr) where
  -- Whatever calls the demodulator makes of the codeword buffer, with whatever blocks: if no assertion
  -- fails, the output has exactly the requested number of soft bits, the blocks had no more than those
  -- together, nothing followed the end of the codeword, and if it was ended they had exactly as many.
  -- The requested number fits an `unsigned`.
  pub demodulated_bounded :
      (n : ℕ) (calls : List (BufferCall Llr)) (llrs : List Llr)
      → n < 2 ^ 32
      → demodulated m grids api n calls ≡ ok llrs
      → (length llrs ≡ n)
        × (nof_delivered calls ≤ n)
        × IsOneCodeword calls
        × ((is_ended calls ≡ false) ⊎ (nof_delivered calls ≡ n))
  unfolding demodulated
  demodulated_bounded n calls llrs small h =
      let start : CodewordBuffer Llr = record {
        completed = false;
        base = api.out_address;
        soft_bits = replicate n api.zero_llr;
        count = 0;
      } in
      let (c, ran, h1) = >>=-eq-ok (run_calls calls start) _ h in
      let bounded : IsBounded n small start = record {
        size = length-replicate n api.zero_llr;
        within = omega arith;
        full = λ e. absurd (ground arith);
      } in
      let r = run_calls-Ran n small calls start c bounded refl ran in
      (
        ap length (sym (ok-injective c.soft_bits llrs h1)) ∙ r.bounded.size,
        omega (arith, r.counted, r.bounded.within),
        r.one,
        elim (Bool-cases (is_ended calls)) [
          | inl ended ↦ inr (omega (arith, r.counted, r.bounded.full (r.completed ∙ ended)))
          | inr going ↦ inl going
        ],
      )
