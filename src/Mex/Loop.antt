-- ===== src/Mex/Loop.antt =====
-- The loops `for (unsigned i = 0; i != n; ++i)` of the sources, whose body changes local variables or
-- stops, and the rule that an invariant gives for them.
use srs_ran_matlab.Prelude.{ℕ, zero, suc, ◌+◌, ◌<◌, ◌≡◌, refl, ◌∙◌, ap, subst, arith}
use srs_ran_matlab.Mex.Outcome.{Result, ok, ◌>>=◌}

module _ {S : Type 0} where
  -- From the index on, by the rounds that are left.
  unfoldable pub for_range : ℕ → ℕ → (ℕ → S → Result S) → S → Result S
  for_range zero index body s = ok s
  for_range (suc left) index body s = body index s >>= for_range left (index + 1) body

  -- If every round before `total` returns and keeps the invariant, then so does the loop.
  pub for_range-invariant :
      (Inv : ℕ → S → Type 0) (body : ℕ → S → Result S) (total : ℕ)
      → ((i : ℕ) (s : S) → i < total → Inv i s → (t : S) × (body i s ≡ ok t) × Inv (i + 1) t)
      → (left index : ℕ) (s : S) → index + left ≡ total
      → Inv index s
      → (t : S) × (for_range left index body s ≡ ok t) × Inv total t
  unfolding for_range
  for_range-invariant Inv body total round zero index s all inv =
      (s, refl, subst (λ n. Inv n s) {x = index} {y = total} (omega (arith, all)) inv)
  for_range-invariant Inv body total round (suc left) index s all inv =
      let (t, ran, kept) = round index s (omega (arith, all)) inv in
      let (u, rest, held) =
        for_range-invariant Inv body total round left (index + 1) t (omega (arith, all)) kept in
      (u, ap (λ r. r >>= for_range left (index + 1) body) ran ∙ rest, held)
