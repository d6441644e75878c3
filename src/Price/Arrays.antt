-- ===== src/Price/Arrays.antt =====
-- An array of numpy's `int64`, and the prices of a process that is stepped.
use liquidity_arena.Prelude.{
  ℕ, zero, suc, ◌^◌, Bool, Option, none, some, List, [], ◌∷◌, ◌>>=◌, ltb, if◌then◌else◌,
}
use liquidity_arena.Prelude.Int.{ℤ, pos, negsuc}

abbrev fits_int64 : ℤ → Bool
fits_int64 (pos n) = ltb n (2 ^ 63)
fits_int64 (negsuc n) = ltb n (2 ^ 63)

-- `prices[i] = n` raises an `OverflowError` for an integer out of range.
unfoldable pub as_int64 : ℤ → Option ℤ
as_int64 n = if fits_int64 n then some n else none

-- The array that n calls of `step` fill, and the process behind them.
unfoldable pub fill_by : {P : Type 0} → (P → Option (ℤ × P)) → ℕ → P → Option (List ℤ × P)
unfolding as_int64
fill_by step zero p = some ([], p)
fill_by step (suc n) p = do
  (price, p') ← step p
  stored ← as_int64 price
  (rest, p'') ← fill_by step n p'
  some (stored ∷ rest, p'')
