-- ===== src/Simulator/Config.antt =====
-- What simulation/simulator.py reads of the configuration that it loads: a section is a record, whose
-- entries are missing or values of the type that the program takes them for. A missing section is one
-- with no entry. (The simulation's `steps` and the `initial_price` have to be there.)
use liquidity_arena.Prelude.{ℕ, Bool, Option, none, some}
use liquidity_arena.Prelude.Int.{ℤ}

-- `config.get(key, default)`
abbrev pub get_or {ℓ} : {A : Type ℓ} → A → Option A → A
get_or default none = default
get_or default (some a) = a

pub data PriceType : Type 0 where
  gbm regime_switching any_other : PriceType

pub record PriceConfig (F : Type 0) : Type 0 where
  pub type : Option PriceType
  pub initial_price : ℤ
  pub mu : Option F
  pub sigma : Option F
  pub kappa : Option F
  pub theta : Option ℤ
  pub seed : Option ℕ

pub record MakerConfig (F : Type 0) : Type 0 where
  pub gamma : Option F
  pub kappa : Option F
  pub levels : Option ℤ
  pub level_spacing : Option ℤ
  pub base_qty : Option ℤ
  pub inventory_limit : Option ℤ

pub record NoiseConfig (F : Type 0) : Type 0 where
  pub order_prob : Option F
  pub spread_range : Option ℤ
  pub min_qty : Option ℤ
  pub max_qty : Option ℤ
  pub market_order_prob : Option F

pub record InformedConfig (F : Type 0) : Type 0 where
  pub threshold : Option ℤ
  pub aggression : Option F
  pub min_qty : Option ℤ
  pub max_qty : Option ℤ

pub record MomentumConfig (F : Type 0) : Type 0 where
  pub fast_period : Option ℤ
  pub slow_period : Option ℤ
  pub trade_prob : Option F
  pub min_qty : Option ℤ
  pub max_qty : Option ℤ

pub record ArbConfig (F : Type 0) : Type 0 where
  pub threshold : Option ℤ
  pub max_position : Option ℤ
  pub trade_prob : Option F

pub record AgentsConfig (F : Type 0) : Type 0 where
  pub num_noise : Option ℕ
  pub market_maker : MakerConfig F
  pub noise_trader : NoiseConfig F
  pub informed_trader : InformedConfig F
  pub momentum_trader : MomentumConfig F
  pub latency_arb : ArbConfig F

-- `is_hawkes`: the `model` is "hawkes".
pub record OrderFlowConfig (F : Type 0) : Type 0 where
  pub is_hawkes : Bool
  pub hawkes_mu : Option F
  pub hawkes_alpha : Option F
  pub hawkes_beta : Option F

pub record Config (F : Type 0) : Type 0 where
  pub steps : ℕ
  pub dt : Option F
  pub price_process : PriceConfig F
  pub agents : AgentsConfig F
  pub order_flow : OrderFlowConfig F
