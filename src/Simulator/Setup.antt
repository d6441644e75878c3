-- ===== src/Simulator/Setup.antt =====
-- simulation/simulator.py: `__init__`, `_create_price_process` and `_create_agents`. A seed is turned into
-- the state of a generator by numpy's `default_rng`, which is an argument. The agents' constructors
-- take the class-level counter of agents and give its new value. `none` is an exception.
use liquidity_arena.Prelude.{ℕ, zero, suc, ◌+◌, false, Option, none, some, [], ◌>>=◌}
use liquidity_arena.Prelude.Int.{pos}
use liquidity_arena.Numeric.{Float, of_int, literal}
use liquidity_arena.Latency.{LatencyConfig, config_of}
use liquidity_arena.Latency
use liquidity_arena.Agents.Human.{new_human}
use liquidity_arena.Agents.Noise.{new_noise}
use liquidity_arena.Agents.Informed.{new_informed}
use liquidity_arena.Agents.LatencyArb.{new_arb}
use liquidity_arena.Agents.Momentum.{new_momentum}
use liquidity_arena.Agents.MarketMaker.{Settings, new_maker}
use liquidity_arena.Metrics.{new_engine}
use liquidity_arena.Price.Process.{PriceProcess}
use liquidity_arena.Price.Process
use liquidity_arena.Price.Diffusion.{new_gbm, new_ou}
use liquidity_arena.Price.Regimes.{new_regime_process, default_regimes}
use liquidity_arena.Simulator.Traders.{
  AgentId, Trader, Delay, insert_id, maker, noise_trader, informed_trader, momentum_trader,
  arbitrageur, player, zero_latency, model,
}
use liquidity_arena.Simulator.State.{Simulator}
use liquidity_arena.Simulator.Config.{
  get_or, PriceType, PriceConfig, MakerConfig, NoiseConfig, AgentsConfig, Config,
}

module _ {F S : Type 0} ⦃fl : Float F⦄ (default_rng : ℕ → S) where
  abbrev process_of : PriceType → PriceConfig F → PriceProcess F S
  process_of PriceType.gbm c = Process.gbm (
      new_gbm c.initial_price (get_or (of_int (pos 0)) c.mu) (get_or (literal 5 3) c.sigma)
        (literal 1 3) (default_rng (get_or 42 c.seed)))
  process_of PriceType.regime_switching c = Process.regime (
      new_regime_process c.initial_price (get_or (literal 3 1) c.kappa)
        (get_or c.initial_price c.theta) default_regimes (literal 1 3)
        (default_rng (get_or 42 c.seed)))
  process_of PriceType.any_other c = Process.ou (
      new_ou c.initial_price (get_or (literal 5 1) c.kappa) (get_or c.initial_price c.theta)
        (get_or (of_int (pos 50)) c.sigma) (literal 1 3) (default_rng (get_or 42 c.seed)))

  -- `_create_price_process`, of the type "ou" by default.
  unfoldable pub create_price_process : PriceConfig F → PriceProcess F S
  create_price_process c = process_of (get_or PriceType.any_other c.type) c

  -- `__init__`
  unfoldable pub new_simulator : Config F → Simulator F S
  new_simulator c = record {
    dt = get_or (literal 1 3) c.dt;
    running = false;
    current_time = of_int (pos 0);
    event_queue = [];
    tcp_client = none;
    ws_bridge = none;
    price_process = create_price_process c.price_process;
    hawkes = none;
    metrics = new_engine (pos 100);
    agents = [];
    agent_latencies = [];
    current_mid = c.price_process.initial_price;
    last_book_update = none;
    step_count = 0;
    total_steps = c.steps;
  }

-- A new agent, with the id and the latency under which it is stored.
abbrev pub Entry : Type 0 → Type 0 → Type 0
Entry F S = AgentId × Trader F S × Delay F S

module _ {F S : Type 0} where
  -- `self.agents[id] = agent` and `self.agent_latencies[id] = latency`
  unfoldable pub add_agent : Entry F S → Simulator F S → Simulator F S
  add_agent (i, t, d) s = record s {
    agents = insert_id i t s.agents;
    agent_latencies = insert_id i d s.agent_latencies;
  }

module _ {F : Type 0} ⦃fl : Float F⦄ where
  -- `tick_size`, which is 0.01 by default.
  abbrev tick : F
  tick = literal 1 2

module _ {F S : Type 0} ⦃fl : Float F⦄ where
  unfoldable pub make_human : ℕ → Entry F S × ℕ
  make_human agent_counter =
      let (t, agent_counter') = new_human agent_counter tick in
      ((AgentId.human, player t, zero_latency), agent_counter')

module _ {F S : Type 0} ⦃fl : Float F⦄ (default_rng : ℕ → S) where
  abbrev delayed_by : LatencyConfig F → ℕ → Delay F S
  delayed_by c seed = model (record { config = c; rng = default_rng seed })

  unfoldable pub make_maker : MakerConfig F → ℕ → Entry F S × ℕ
  make_maker c agent_counter =
      let settings : Settings F = record {
        gamma = get_or (literal 1 1) c.gamma;
        kappa = get_or (literal 15 1) c.kappa;
        max_inventory = get_or (pos 500) c.inventory_limit;
        num_levels = get_or (pos 3) c.levels;
        level_spacing = get_or (pos 5) c.level_spacing;
        base_quantity = get_or (pos 100) c.base_qty;
        sigma_window = 100;
        total_steps = pos 10000;
      } in
      let (t, agent_counter') = new_maker agent_counter tick settings in
      ((AgentId.mm, maker t, delayed_by Latency.market_maker 42), agent_counter')

  unfoldable pub make_noise : ℕ → NoiseConfig F → ℕ → Entry F S × ℕ
  make_noise i c agent_counter =
      let (t, agent_counter') =
        new_noise agent_counter tick (get_or (literal 3 1) c.order_prob)
          (get_or (pos 20) c.spread_range) (get_or (pos 10) c.min_qty) (get_or (pos 100) c.max_qty)
          (get_or (literal 5 2) c.market_order_prob) (default_rng (42 + i)) in
      ((AgentId.noise i, noise_trader t, delayed_by Latency.retail (42 + i)), agent_counter')

  -- The loop over the noise traders left, from a number on.
  unfoldable pub add_noise : ℕ → ℕ → NoiseConfig F → ℕ → Simulator F S → Simulator F S × ℕ
  add_noise zero i c agent_counter s = (s, agent_counter)
  add_noise (suc left) i c agent_counter s =
      let (entry, agent_counter') = make_noise i c agent_counter in
      add_noise left (i + 1) c agent_counter' (add_agent entry s)

  unfoldable pub make_informed : AgentsConfig F → ℕ → Entry F S × ℕ
  make_informed ac agent_counter =
      let c = ac.informed_trader in
      let (t, agent_counter') =
        new_informed agent_counter tick (get_or (pos 15) c.threshold)
          (get_or (literal 8 1) c.aggression) (get_or (pos 50) c.min_qty)
          (get_or (pos 200) c.max_qty) (default_rng 100) in
      (
        (
          AgentId.informed,
          informed_trader t,
          delayed_by (config_of (of_int (pos 500)) (of_int (pos 100))) 100,
        ),
        agent_counter',
      )

  unfoldable pub make_momentum : AgentsConfig F → ℕ → Option (Entry F S × ℕ)
  make_momentum ac agent_counter = do
    let c = ac.momentum_trader
    (t, agent_counter') ←
        new_momentum agent_counter tick (get_or (pos 10) c.fast_period)
          (get_or (pos 50) c.slow_period) (get_or (literal 3 1) c.trade_prob)
          (get_or (pos 20) c.min_qty) (get_or (pos 80) c.max_qty) (default_rng 200)
    some ((AgentId.momentum, momentum_trader t, delayed_by Latency.retail 200), agent_counter')

  unfoldable pub make_arb : AgentsConfig F → ℕ → Entry F S × ℕ
  make_arb ac agent_counter =
      let c = ac.latency_arb in
      let (t, agent_counter') =
        new_arb agent_counter tick (get_or (pos 5) c.threshold) (get_or (pos 50) c.max_position)
          (get_or (literal 9 1) c.trade_prob) (pos 10) (pos 50) (default_rng 300) in
      ((AgentId.lat_arb, arbitrageur t, delayed_by Latency.latency_arb 300), agent_counter')

  unfoldable pub create_agents : AgentsConfig F → ℕ → Simulator F S → Option (Simulator F S × ℕ)
  create_agents ac agent_counter s = do
    let (mm, n₁) = make_maker ac.market_maker agent_counter
    let (s₂, n₂) = add_noise (get_or 3 ac.num_noise) 0 ac.noise_trader n₁ (add_agent mm s)
    let (informed, n₃) = make_informed ac n₂
    (momentum, n₄) ← make_momentum ac n₃
    let (arb, n₅) = make_arb ac n₄
    let (human, n₆) = make_human n₅
    some (add_agent human (add_agent arb (add_agent momentum (add_agent informed s₂))), n₆)
