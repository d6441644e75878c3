-- ===== src/Latency.antt =====
-- simulation/market/latency_model.py: the delay of an agent's actions. `none` is an exception of a
-- division.
pub mod Delay
mod Examples
use liquidity_arena.Prelude.{ℕ, Option, some, ◌>>=◌, if◌then◌else◌}
use liquidity_arena.Prelude.Int.{pos}
use liquidity_arena.Numeric.{Float, ◌⊕◌, ◌⊖◌, ◌⊗◌, of_int, literal, lt, fmax, Rng}

pub record LatencyConfig (F : Type 0) : Type 0 where
  pub base_us : F
  pub jitter_us : F
  pub spike_prob : F
  pub spike_factor : F

pub record LatencyModel (F S : Type 0) : Type 0 where
  pub config : LatencyConfig F
  pub rng : S

module _ {F S : Type 0} ⦃fl : Float F⦄ ⦃g : Rng F S⦄ where
  unfoldable pub sample : LatencyModel F S → F × LatencyModel F S
  sample m =
      let c = m.config in
      let (jitter, s₁) = g.uniform (fl.neg c.jitter_us) c.jitter_us m.rng in
      let delay = c.base_us ⊕ jitter in
      let (draw, s₂) = g.random s₁ in
      let delay' = if lt draw c.spike_prob then delay ⊗ c.spike_factor else delay in
      (fmax (of_int (pos 0)) delay', record m { rng = s₂ })

  unfoldable pub sample_seconds : LatencyModel F S → Option (F × LatencyModel F S)
  sample_seconds m = do
    let (delay, m') = sample m
    seconds ← fl.div delay (of_int (pos 1_000_000))
    some (seconds, m')

module _ {F : Type 0} ⦃fl : Float F⦄ where
  -- The configuration of a base and a jitter, with the default spikes.
  abbrev pub config_of : F → F → LatencyConfig F
  config_of base jitter = record {
    base_us = base;
    jitter_us = jitter;
    spike_prob = literal 1 3;
    spike_factor = of_int (pos 10);
  }

  abbrev pub default_config : LatencyConfig F
  default_config = config_of (of_int (pos 200)) (of_int (pos 50))

  abbrev pub colocated : LatencyConfig F
  colocated = config_of (of_int (pos 5)) (of_int (pos 2))

  abbrev pub market_maker : LatencyConfig F
  market_maker = config_of (of_int (pos 200)) (of_int (pos 50))

  abbrev pub retail : LatencyConfig F
  retail = config_of (of_int (pos 1000)) (of_int (pos 300))

  abbrev pub latency_arb : LatencyConfig F
  latency_arb = config_of (of_int (pos 50)) (of_int (pos 10))
