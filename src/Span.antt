-- ===== src/Span.antt =====
-- to_span.h: a span is the list of the elements that it views. Its parts are those of `std::span`;
-- a count larger than the span, which is outside their contract, is a failed assertion.
use srs_ran_matlab.Prelude.{
  ℕ, ◌-◌, ◌+◌, ◌%◌, ◌^◌, ◌≤◌, List, ◌≡◌, length, take, drop, leb, if◌then◌else◌, arith,
}
use srs_ran_matlab.Mex.{Result, ok, err, assertion}

-- `unsigned`: values wrap at 2^32.
abbrev pub u32 : ℕ → ℕ
u32 n = n % 2 ^ 32

-- `a - b` on `unsigned`
abbrev pub sub32 : ℕ → ℕ → ℕ
sub32 a b = (a + 2 ^ 32 - b) % 2 ^ 32

module _ {A : Type 0} where
  unfoldable pub first : ℕ → List A → Result (List A)
  first count view =
      if leb count (length view) then ok (take count view) else err (assertion "first")

  unfoldable pub last : ℕ → List A → Result (List A)
  last count view =
      if leb count (length view)
      then ok (drop (length view - count) view)
      else err (assertion "last")

  pub first-take :
      (count : ℕ) (view : List A) → count ≤ length view → first count view ≡ ok (take count view)
  unfolding first
  first-take count view h = ground arith

  pub last-drop :
      (count : ℕ) (view : List A)
      → count ≤ length view
      → last count view ≡ ok (drop (length view - count) view)
  unfolding last
  last-drop count view h = ground arith
