-- ===== src/Price/Process.antt =====
-- The price process that the simulator holds: one of the classes of simulation/market/price_process.py,
-- which all extend `PriceProcess`.
use liquidity_arena.Prelude.{Option, some, ◌>>=◌}
use liquidity_arena.Prelude.Int.{ℤ}
use liquidity_arena.Numeric.{Float, Numpy, Rng, Sampler}
use liquidity_arena.Price.Diffusion.{Gbm, Ou, gbm_step, ou_step}
use liquidity_arena.Price.Regimes.{RegimeProcess, regime_step}

pub data PriceProcess (F S : Type 0) : Type 0 where
  gbm : Gbm F S → PriceProcess F S
  ou : Ou F S → PriceProcess F S
  regime : RegimeProcess F S → PriceProcess F S

module _ {F S : Type 0} ⦃fl : Float F⦄ ⦃np : Numpy F⦄ ⦃g : Rng F S⦄ ⦃sp : Sampler F S⦄ where
  -- `self.price_process.step()`
  unfoldable pub price_step : PriceProcess F S → Option (ℤ × PriceProcess F S)
  price_step (gbm p) = do (price, p') ← gbm_step p; some (price, gbm p')
  price_step (ou p) = do (price, p') ← ou_step p; some (price, ou p')
  price_step (regime p) = do (price, p') ← regime_step p; some (price, regime p')
