-- ===== src/Numeric/Whole.antt =====
-- Whole numbers as floats, for tests.
use liquidity_arena.Prelude.{ℕ, zero, suc, ◌/◌, ◌^◌, ◌≢◌, arith, Option, none, some, List, [], ◌∷◌}
use liquidity_arena.Prelude.Int.{ℤ, pos, negsuc, ◌+ℤ◌, ◌-ℤ◌, ◌*ℤ◌, ltb_ℤ, floor_div, neg}
use liquidity_arena.Numeric.{Float, IsOrder, Numpy}

-- `none` is a division by zero; the quotient is rounded down.
abbrev pub quotient : ℤ → ℤ → Option ℤ
quotient a (pos zero) = none
quotient a (pos (suc n)) = some (floor_div a (suc n))
quotient a (negsuc n) = some (floor_div (neg a) (suc n))

instance abbrev pub whole : Float ℤ
whole = record {
  of_int = λ n. n;
  literal = λ n k. pos (n / 10 ^ k);
  infinity = pos 1_000_000;
  neg = neg;
  add = ◌+ℤ◌;
  sub = ◌-ℤ◌;
  mul = ◌*ℤ◌;
  div = quotient;
  lt = ltb_ℤ;
  trunc = λ n. some n;
  round = λ n. some n;
}

abbrev steps : List ℤ → List ℤ
steps [] = []
steps (a ∷ []) = []
steps (a ∷ b ∷ xs) = (b -ℤ a) ∷ steps (b ∷ xs)

abbrev first : List ℤ → ℤ
first [] = pos 0
first (x ∷ xs) = x

-- Lists without variance.
instance abbrev pub whole_numpy : Numpy ℤ
whole_numpy = record {
  diff = steps;
  mean = λ xs. first xs;
  std = λ xs. pos 0;
  var = λ xs. pos 0;
  sqrt = λ x. x;
  quotient = λ a b. a;
  log = λ x. x;
  exp = λ x. pos 0;
}

-- The hypothesis of a division that raises only for a divisor of zero.
pub quotient-ne-none : (a b : ℕ) → b ≢ 0 → quotient (pos a) (pos b) ≢ none
quotient-ne-none a zero h e = h (omega arith)
quotient-ne-none a (suc b) h e = absurd (ground arith)

pub whole-IsOrder : IsOrder whole
whole-IsOrder = record { irrefl = λ a. ground arith; asymm = λ a b h. ground arith }
