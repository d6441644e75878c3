-- ===== src/Price/Diffusion.antt =====
-- simulation/market/price_process.py: `GBMProcess` and `OUProcess`. `none` is an exception: of a draw,
-- of the integer of a NaN or an infinity, or of a price that no `int64` holds.
use liquidity_arena.Prelude.{ℕ, zero, suc, Option, some, List, [], ◌∷◌, ◌>>=◌}
use liquidity_arena.Prelude.Int.{ℤ, pos}
use liquidity_arena.Numeric.{Float, ◌⊕◌, ◌⊖◌, ◌⊗◌, of_int, Numpy, Sampler}
use liquidity_arena.Price.Arrays.{as_int64}

pub record Gbm (F S : Type 0) : Type 0 where
  pub initial_price : ℤ
  pub mu : F
  pub sigma : F
  pub dt : F
  pub rng : S
  pub current_price : F

pub record Ou (F S : Type 0) : Type 0 where
  pub initial_price : ℤ
  pub kappa : F
  pub theta : F
  pub sigma : F
  pub dt : F
  pub rng : S
  pub current_price : F

module _ {F S : Type 0} ⦃fl : Float F⦄ where
  -- `__init__`, with the state of the generator that is seeded.
  abbrev pub new_gbm : ℤ → F → F → F → S → Gbm F S
  new_gbm initial drift volatility increment seeded = record {
    initial_price = initial;
    mu = drift;
    sigma = volatility;
    dt = increment;
    rng = seeded;
    current_price = of_int initial;
  }

  abbrev pub new_ou : ℤ → F → ℤ → F → F → S → Ou F S
  new_ou initial speed mean volatility increment seeded = record {
    initial_price = initial;
    kappa = speed;
    theta = of_int mean;
    sigma = volatility;
    dt = increment;
    rng = seeded;
    current_price = of_int initial;
  }

module _ {F S : Type 0} ⦃fl : Float F⦄ where
  -- The loop of `generate`, over the rounds left: the prices behind `s`.
  unfoldable pub path : (F → S → Option (F × S)) → ℕ → F → S → Option (List ℤ × S)
  path move zero s g = some ([], g)
  path move (suc n) s g = do
    (s', g') ← move s g
    price ← fl.round s'
    stored ← as_int64 price
    (rest, g'') ← path move n s' g'
    some (stored ∷ rest, g'')

module _ {F S : Type 0} ⦃fl : Float F⦄ ⦃np : Numpy F⦄ ⦃sp : Sampler F S⦄ where
  -- The body of the loop in `generate` and of `step`: the next price behind `s`.
  abbrev pub gbm_move : Gbm F S → F → S → Option (F × S)
  gbm_move p s g = do
    (dw, g') ← sp.normal (of_int (pos 0)) (np.sqrt p.dt) g
    some (s ⊗ (of_int (pos 1) ⊕ p.mu ⊗ p.dt ⊕ p.sigma ⊗ dw), g')

  abbrev pub ou_move : Ou F S → F → S → Option (F × S)
  ou_move p s g = do
    (dw, g') ← sp.normal (of_int (pos 0)) (np.sqrt p.dt) g
    some (s ⊕ (p.kappa ⊗ (p.theta ⊖ s) ⊗ p.dt ⊕ p.sigma ⊗ dw), g')

  unfoldable pub gbm_step : Gbm F S → Option (ℤ × Gbm F S)
  gbm_step p = do
    (s, g) ← gbm_move p p.current_price p.rng
    price ← fl.round s
    some (price, record p { current_price = s; rng = g })

  unfoldable pub ou_step : Ou F S → Option (ℤ × Ou F S)
  ou_step p = do
    (s, g) ← ou_move p p.current_price p.rng
    price ← fl.round s
    some (price, record p { current_price = s; rng = g })

  unfoldable pub gbm_generate : ℕ → Gbm F S → Option (List ℤ × Gbm F S)
  gbm_generate n p = do
    (prices, g) ← path (gbm_move p) n (of_int p.initial_price) p.rng
    some (prices, record p { rng = g })

  unfoldable pub ou_generate : ℕ → Ou F S → Option (List ℤ × Ou F S)
  ou_generate n p = do
    (prices, g) ← path (ou_move p) n (of_int p.initial_price) p.rng
    some (prices, record p { rng = g })
