-- ===== src/Simulator/Finishing.antt =====
-- How a run ends by itself (`run` of simulation/simulator.py behind its loop).
use liquidity_arena.Prelude.{◌≡◌, refl, sym, ap, Option, none, some}
use liquidity_arena.Numeric.{Float, Numpy}
use liquidity_arena.Metrics.Pnl.{Report, compute_report}
use liquidity_arena.Simulator.State.{Simulator}
use liquidity_arena.Simulator.Loop.{Progress, ended, crashed, unfinished}
use liquidity_arena.Simulator.Run.{disconnected, reported, finish}

module _ {F S : Type 0} where
  pub ended-injective : {s u : Simulator F S} → ◌≡◌ {A = Progress F S} (ended s) (ended u) → s ≡ u
  ended-injective {s} e = ap (elim [ ended s' ↦ s' | crashed ↦ s | unfinished s' ↦ s ]) e

  -- The simulator behind a run whose loop has ended with this one.
  abbrev pub closed : Simulator F S → Simulator F S
  closed v = record v { tcp_client = disconnected v.tcp_client }

module _ {F S : Type 0} ⦃fl : Float F⦄ ⦃np : Numpy F⦄ where
  reported-ended :
      (r : Option (Report F)) (v u : Simulator F S) → reported r v ≡ ended u → u ≡ closed v
  reported-ended none v u e = absurd (cc e)
  reported-ended (some r) v u e = sym (ended-injective e)

  pub finish-ended :
      (p : Progress F S) (u : Simulator F S)
      → finish p ≡ ended u
      → (v : Simulator F S) × (p ≡ ended v) × (u ≡ closed v)
  unfolding finish
  finish-ended (ended v) u e = (v, refl, reported-ended (compute_report v.metrics) v u e)
  finish-ended crashed u e = absurd (cc e)
  finish-ended (unfinished v) u e = absurd (cc e)
