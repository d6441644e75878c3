-- ===== src/Latency/Delay.antt =====
-- The delays of simulation/market/latency_model.py.
use liquidity_arena.Prelude.{◌≡◌, refl, false}
use liquidity_arena.Prelude.Int.{pos}
use liquidity_arena.Prelude.Results.{by_case}
use liquidity_arena.Numeric.{Float, lt, of_int, fmax, Rng, IsOrder}
use liquidity_arena.Latency.{LatencyModel, sample}

module _ {F : Type 0} ⦃fl : Float F⦄ where
  fmax-nonneg : IsOrder fl → (a b : F) → lt (fmax a b) a ≡ false
  fmax-nonneg laws a b =
      by_case (λ x. lt x a ≡ false) (lt a b) (λ e. laws.asymm a b e) (λ e. laws.irrefl a)

module _ {F S : Type 0} ⦃fl : Float F⦄ ⦃g : Rng F S⦄ where
  -- Where `<` is irreflexive and asymmetric, whatever the generator draws and however large the
  -- jitter is, no sampled delay is negative, and the configuration stays as it was.
  pub sample-nonneg :
      IsOrder fl
      → (m : LatencyModel F S)
      → let (delay, m') = sample m in (lt delay (of_int (pos 0)) ≡ false) × (m'.config ≡ m.config)
  unfolding sample
  sample-nonneg laws m = (fmax-nonneg laws (of_int (pos 0)) _, refl)
