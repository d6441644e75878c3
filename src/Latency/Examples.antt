-- ===== src/Latency/Examples.antt =====
-- A jitter that is greater than the base.
use liquidity_arena.Prelude.{ℕ, ◌≡◌, false}
use liquidity_arena.Prelude.Int.{ℤ, pos}
use liquidity_arena.Numeric.{lt}
use liquidity_arena.Numeric.Whole.{whole, whole-IsOrder}
use liquidity_arena.Agents.Samples.{counter}
use liquidity_arena.Latency.{LatencyModel, config_of, sample}
use liquidity_arena.Latency.Delay.{sample-nonneg}

abbrev jittery : LatencyModel ℤ ℕ
jittery = record { config = config_of (pos 5) (pos 20); rng = 0 }

sample-nonneg_example :
    (lt (sample jittery).0 (pos 0) ≡ false) × ((sample jittery).1.config ≡ jittery.config)
sample-nonneg_example = sample-nonneg whole-IsOrder jittery
