-- ===== src/Price/Regimes.antt =====
-- simulation/market/price_process.py: `RegimeSwitchingProcess`. `none` is an exception.
use liquidity_arena.Prelude.{
  ℕ, zero, suc, ◌+◌, Bool, true, false, Option, none, some, List, [], ◌∷◌, ◌>>=◌, map,
  if◌then◌else◌,
}
use liquidity_arena.Prelude.Int.{ℤ, pos, negsuc, neg, max}
use liquidity_arena.Numeric.{Float, ◌⊕◌, ◌⊖◌, ◌⊗◌, of_int, literal, lt, Numpy, Rng, Sampler}
use liquidity_arena.Price.Arrays.{fill_by}

pub data Regime : Type 0 where
  calm volatile news : Regime

-- `Regime(code)`, which raises for another code.
abbrev pub regime_of : ℕ → Option Regime
regime_of zero = some calm
regime_of (suc zero) = some volatile
regime_of (suc (suc zero)) = some news
regime_of (suc (suc (suc n))) = none

abbrev pub same_regime : Regime → Regime → Bool
same_regime calm calm = true
same_regime volatile volatile = true
same_regime news news = true
same_regime _ _ = false

pub record RegimeParams (F : Type 0) : Type 0 where
  pub sigma : F
  pub duration_mean : ℤ
  pub jump_size : F

-- `regimes` is a dictionary that has all three regimes.
pub record RegimeProcess (F S : Type 0) : Type 0 where
  pub initial_price : ℤ
  pub kappa : F
  pub theta : F
  pub dt : F
  pub rng : S
  pub current_price : F
  pub regimes : Regime → RegimeParams F
  pub current_regime : Regime
  pub steps_in_regime : ℕ

-- A row of `TRANSITION_MATRIX`, in hundredths.
abbrev pub transitions : Regime → List ℕ
transitions calm = 95 ∷ 4 ∷ 1 ∷ []
transitions volatile = 10 ∷ 85 ∷ 5 ∷ []
transitions news = 30 ∷ 50 ∷ 20 ∷ []

module _ {F : Type 0} ⦃fl : Float F⦄ where
  abbrev pub default_regimes : Regime → RegimeParams F
  default_regimes calm = record {
    sigma = of_int (pos 30);
    duration_mean = pos 200;
    jump_size = of_int (pos 0);
  }
  default_regimes volatile = record {
    sigma = of_int (pos 100);
    duration_mean = pos 50;
    jump_size = of_int (pos 0);
  }
  default_regimes news = record {
    sigma = of_int (pos 200);
    duration_mean = pos 10;
    jump_size = of_int (pos 50);
  }

module _ {F S : Type 0} ⦃fl : Float F⦄ where
  -- `__init__`, with the state of the generator that is seeded.
  abbrev pub new_regime_process : ℤ → F → ℤ → (Regime → RegimeParams F) → F → S → RegimeProcess F S
  new_regime_process initial speed mean params increment seeded = record {
    initial_price = initial;
    kappa = speed;
    theta = of_int mean;
    dt = increment;
    rng = seeded;
    current_price = of_int initial;
    regimes = params;
    current_regime = calm;
    steps_in_regime = 0;
  }

module _ {F S : Type 0} ⦃fl : Float F⦄ ⦃np : Numpy F⦄ ⦃g : Rng F S⦄ ⦃sp : Sampler F S⦄ where
  -- "Apply jump on NEWS entry."
  abbrev pub jump_on : Regime → RegimeProcess F S → Option (RegimeProcess F S)
  jump_on news p = do
    (direction, s) ← sp.pick (negsuc 0 ∷ pos 1 ∷ []) p.rng
    let jump = (p.regimes news).jump_size
    some (record p { current_price = p.current_price ⊕ of_int direction ⊗ jump; rng = s })
  jump_on _ p = some p

  abbrev pub enter : Regime → RegimeProcess F S → Option (RegimeProcess F S)
  enter r p =
      if same_regime r p.current_regime
      then some p
      else jump_on r (record p { current_regime = r; steps_in_regime = 0 })

  -- "Sample next regime from transition matrix."
  unfoldable pub switch : RegimeProcess F S → Option (RegimeProcess F S)
  switch p = do
    (code, s) ← sp.choice (map (λ n. literal n 2) (transitions p.current_regime)) p.rng
    r ← regime_of code
    enter r (record p { rng = s })

  unfoldable pub maybe_switch_regime : RegimeProcess F S → Option (RegimeProcess F S)
  maybe_switch_regime p = do
    let steps = p.steps_in_regime + 1
    let duration = (p.regimes p.current_regime).duration_mean
    ratio ← fl.div (of_int (neg (pos steps))) (of_int (max duration (pos 1)))
    let switch_prob = of_int (pos 1) ⊖ np.exp ratio
    let (draw, s) = g.random p.rng
    let p' = record p { steps_in_regime = steps; rng = s }
    if lt draw (switch_prob ⊗ literal 1 1) then switch p' else some p'

  unfoldable pub regime_step : RegimeProcess F S → Option (ℤ × RegimeProcess F S)
  regime_step p = do
    p' ← maybe_switch_regime p
    let sigma = (p'.regimes p'.current_regime).sigma
    (dw, s) ← sp.normal (of_int (pos 0)) (np.sqrt p'.dt) p'.rng
    let price = p'.current_price ⊕ (p'.kappa ⊗ (p'.theta ⊖ p'.current_price) ⊗ p'.dt ⊕ sigma ⊗ dw)
    tick ← fl.round price
    some (tick, record p' { current_price = price; rng = s })

  unfoldable pub regime_generate : ℕ → RegimeProcess F S → Option (List ℤ × RegimeProcess F S)
  regime_generate n p = fill_by regime_step n p
