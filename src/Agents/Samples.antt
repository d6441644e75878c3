-- ===== src/Agents/Samples.antt =====
-- Values for tests: a generator that counts, and agents over whole numbers as floats.
use liquidity_arena.Prelude.{ℕ, ◌+◌, none, some, [], ◌∷◌, arith, true, if◌then◌else◌}
use liquidity_arena.Prelude.Int.{ℤ, pos, ltb_ℤ}
use liquidity_arena.Numeric.Whole.{whole}
use liquidity_arena.Numeric.{Rng, IsRng}
use liquidity_arena.Wire.Messages.{BookUpdateMsg}
use liquidity_arena.Agents.Base.{AgentOrder, BaseAgent, new_stats}
use liquidity_arena.Agents.Human.{HumanAgent}
use liquidity_arena.Agents.Noise.{NoiseTrader}
use liquidity_arena.Agents.Informed.{InformedTrader}
use liquidity_arena.Agents.LatencyArb.{LatencyArb}
use liquidity_arena.Agents.MarketMaker.{MarketMaker}
use liquidity_arena.Agents.Momentum.{MomentumTrader}

-- Every draw is the lowest value that it may be.
instance abbrev pub counter : Rng ℤ ℕ
counter = record {
  random = λ s. (pos 0, s + 1);
  uniform = λ low high s. (low, s + 1);
  integers = λ low high s. if ltb_ℤ low high then some (low, s + 1) else none;
}

pub counter-IsRng : IsRng counter
counter-IsRng = record {
  in_range = λ low high v s s' e. ground arith;
  draws = λ low high s from h to. (low, s + 1, ground arith);
}

abbrev pub book : BookUpdateMsg
book = record {
  best_bid = pos 9995;
  best_ask = pos 10005;
  num_bid_levels = pos 0;
  num_ask_levels = pos 0;
  bid_prices = [];
  bid_quantities = [];
  ask_prices = [];
  ask_quantities = [];
}

abbrev pub resting : AgentOrder
resting = record {
  order_id = 1;
  side = pos 1;
  order_type = pos 0;
  price = pos 10000;
  quantity = pos 100;
}

abbrev pub agent : BaseAgent ℤ
agent = record {
  tick_size = pos 1;
  stats = new_stats;
  id_offset = 0;
  next_id = 2;
  active_orders = (1, resting) ∷ [];
  fill_prices = [];
  mid_price = pos 0;
}

abbrev pub noise : NoiseTrader ℤ ℕ
noise = record {
  base = agent;
  order_prob = pos 1;
  spread_range = pos 20;
  min_qty = pos 10;
  max_qty = pos 100;
  market_order_prob = pos 0;
  rng = 0;
}

abbrev pub informed : InformedTrader ℤ ℕ
informed = record {
  base = agent;
  threshold = pos 15;
  aggression = pos 1;
  min_qty = pos 50;
  max_qty = pos 200;
  rng = 0;
  true_price = pos 10015;
}

abbrev pub arb : LatencyArb ℤ ℕ
arb = record {
  base = agent;
  threshold = pos 5;
  max_position = pos 50;
  trade_prob = pos 1;
  min_qty = pos 10;
  max_qty = pos 50;
  rng = 0;
  true_price = pos 10015;
}

abbrev pub momentum : MomentumTrader ℤ ℕ
momentum = record {
  base = agent;
  fast_alpha = pos 1;
  slow_alpha = pos 0;
  trade_prob = pos 1;
  min_qty = pos 20;
  max_qty = pos 80;
  rng = 0;
  fast_ema = pos 9000;
  slow_ema = pos 9000;
  initialized = true;
}

abbrev pub human : HumanAgent ℤ
human = record { base = agent; pending_orders = []; pending_cancels = []; last_book = some book }

abbrev pub maker : MarketMaker ℤ
maker = record {
  base = agent;
  gamma = pos 1;
  kappa = pos 1;
  max_inventory = pos 100;
  num_levels = pos 2;
  level_spacing = pos 1;
  base_quantity = pos 10;
  sigma_window = 5;
  total_steps = pos 10;
  mid_history = [];
  sigma_sq = pos 1;
  quote_history = [];
  pending_cancels = none;
}
