-- ===== src/Price/Examples.antt =====
-- Prices and arrivals over whole numbers.
use liquidity_arena.Prelude.{ℕ, ◌≡◌, refl, some, [], ◌∷◌, ◌>>=◌}
use liquidity_arena.Prelude.Int.{ℤ, pos, ◌+ℤ◌, ◌-ℤ◌, ◌*ℤ◌, neg, floor_div}
use liquidity_arena.Prelude.Results.{Gives}
use liquidity_arena.Numeric.Whole.{whole, whole_numpy}
use liquidity_arena.Agents.Samples.{counter}
use liquidity_arena.Price.Samples.{firsts, firsts-IsSampler, whole-IsDivision}
use liquidity_arena.Price.Arrays.{as_int64, fill_by}
use liquidity_arena.Price.Diffusion.{
  Gbm, Ou, new_gbm, new_ou, path, gbm_step, ou_step, gbm_generate, ou_generate,
}
use liquidity_arena.Price.Paths.{seen, gbm_generate-fill_by, ou_generate-fill_by}
use liquidity_arena.Price.Regimes.{
  RegimeProcess, new_regime_process, default_regimes, maybe_switch_regime,
}
use liquidity_arena.Price.Switching.{Switches, maybe_switch_regime-Switches}
use liquidity_arena.Price.Hawkes.{HawkesProcess, prune, add_kernels, intensity, thin, hawkes_step}
use liquidity_arena.Price.Arrivals.{Arrives, hawkes_step-Arrives}

abbrev gbm : Gbm ℤ ℕ
gbm = new_gbm (pos 100) (pos 0) (pos 1) (pos 1) 0

gbm_generate-fill_by_example : gbm_generate 2 gbm ≡ (
    seen (λ q. q.rng) (fill_by gbm_step 2 gbm)
    >>= (λ (prices, g). some (prices, record gbm { rng = g })))
gbm_generate-fill_by_example = gbm_generate-fill_by 2 gbm refl

abbrev ou : Ou ℤ ℕ
ou = new_ou (pos 100) (pos 1) (pos 110) (pos 2) (pos 1) 0

ou_generate_test : ou_generate 2 ou ≡ some (pos 112 ∷ pos 112 ∷ [], record ou { rng = 2 })
unfolding ou_generate path as_int64 ◌+ℤ◌ ◌-ℤ◌ ◌*ℤ◌
ou_generate_test = refl

ou_generate-fill_by_example : ou_generate 2 ou ≡ (
    seen (λ q. q.rng) (fill_by ou_step 2 ou)
    >>= (λ (prices, g). some (prices, record ou { rng = g })))
ou_generate-fill_by_example = ou_generate-fill_by 2 ou refl

abbrev regimes : RegimeProcess ℤ ℕ
regimes = new_regime_process (pos 100) (pos 1) (pos 100) default_regimes (pos 1) 0

maybe_switch_regime-Switches_example : Gives (Switches regimes) (maybe_switch_regime regimes)
maybe_switch_regime-Switches_example =
    maybe_switch_regime-Switches firsts-IsSampler whole-IsDivision regimes

-- The event at time 1 is forgotten; at its intensity, both candidates are accepted.
abbrev bursts : HawkesProcess ℤ ℕ
bursts = record {
  mu = pos 3;
  alpha = pos 0;
  beta = pos 2;
  rng = 0;
  event_times = pos 1 ∷ pos 9 ∷ [];
  current_time = pos 9;
}

abbrev burst : HawkesProcess ℤ ℕ
burst = record bursts { rng = 3; event_times = pos 9 ∷ pos 10 ∷ pos 10 ∷ []; current_time = pos 10 }

hawkes_step-Arrives_example : Arrives (pos 1) bursts (2, burst)
unfolding hawkes_step prune intensity add_kernels thin ◌+ℤ◌ ◌-ℤ◌ ◌*ℤ◌ neg floor_div
hawkes_step-Arrives_example = hawkes_step-Arrives (pos 1) bursts burst 2 refl
