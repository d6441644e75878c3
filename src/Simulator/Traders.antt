-- ===== src/Simulator/Traders.antt =====
-- The agents that the simulator holds: the classes of simulation/agents, by the ids and through the
-- methods that simulation/simulator.py uses.
use liquidity_arena.Prelude.{
  ℕ, Bool, true, false, Option, none, some, List, [], ◌∷◌, ◌==◌, ◌>>=◌, if◌then◌else◌,
}
use liquidity_arena.Prelude.Int.{ℤ, pos}
use liquidity_arena.Numeric.{Float, of_int, Numpy, Rng}
use liquidity_arena.Wire.Messages.{BookUpdateMsg}
use liquidity_arena.Latency.{LatencyModel, sample_seconds}
use liquidity_arena.Agents.Base.{BaseAgent, Reaction}
use liquidity_arena.Agents.Human.{HumanAgent}
use liquidity_arena.Agents.Human
use liquidity_arena.Agents.Noise.{NoiseTrader}
use liquidity_arena.Agents.Noise
use liquidity_arena.Agents.Informed.{InformedTrader}
use liquidity_arena.Agents.Informed
use liquidity_arena.Agents.LatencyArb.{LatencyArb}
use liquidity_arena.Agents.LatencyArb
use liquidity_arena.Agents.Momentum.{MomentumTrader}
use liquidity_arena.Agents.Momentum
use liquidity_arena.Agents.MarketMaker.{MarketMaker}
use liquidity_arena.Agents.MarketMaker

-- "MM", "NOISE_0" and so on, "INFORMED", "MOMENTUM", "LAT_ARB" and "HUMAN".
pub data AgentId : Type 0 where
  mm : AgentId
  noise : ℕ → AgentId
  informed momentum lat_arb human : AgentId

abbrev pub same_id : AgentId → AgentId → Bool
same_id mm mm = true
same_id (noise i) (noise j) = i == j
same_id informed informed = true
same_id momentum momentum = true
same_id lat_arb lat_arb = true
same_id human human = true
same_id _ _ = false

-- The dictionaries by agent.
abbrev pub lookup_id {ℓ} : {A : Type ℓ} → AgentId → List (AgentId × A) → Option A
lookup_id i [] = none
lookup_id i ((j, a) ∷ d) = if same_id i j then some a else lookup_id i d

-- `d[i] = a`
abbrev pub insert_id {ℓ} : {A : Type ℓ} → AgentId → A → List (AgentId × A) → List (AgentId × A)
insert_id i a [] = (i, a) ∷ []
insert_id i a ((j, b) ∷ d) = if same_id i j then (j, a) ∷ d else (j, b) ∷ insert_id i a d

abbrev pub ids {ℓ} : {A : Type ℓ} → List (AgentId × A) → List AgentId
ids [] = []
ids ((i, a) ∷ d) = i ∷ ids d

-- `for value in d.values()`, where each is changed.
abbrev pub map_values {ℓ} : {A : Type ℓ} → (A → A) → List (AgentId × A) → List (AgentId × A)
map_values f [] = []
map_values f ((i, a) ∷ d) = (i, f a) ∷ map_values f d

-- `ZeroLatency`, which is the player's, and the `LatencyModel` of any other agent.
pub data Delay (F S : Type 0) : Type 0 where
  zero_latency : Delay F S
  model : LatencyModel F S → Delay F S

abbrev list_or_nil : Option (List ℕ) → List ℕ
list_or_nil none = []
list_or_nil (some oids) = oids

pub data Trader (F S : Type 0) : Type 0 where
  maker : MarketMaker F → Trader F S
  noise_trader : NoiseTrader F S → Trader F S
  informed_trader : InformedTrader F S → Trader F S
  momentum_trader : MomentumTrader F S → Trader F S
  arbitrageur : LatencyArb F S → Trader F S
  player : HumanAgent F → Trader F S

module _ {F S : Type 0} where
  -- The attributes of the base class.
  abbrev pub base_of : Trader F S → BaseAgent F
  base_of (maker t) = t.base
  base_of (noise_trader t) = t.base
  base_of (informed_trader t) = t.base
  base_of (momentum_trader t) = t.base
  base_of (arbitrageur t) = t.base
  base_of (player t) = t.base

  -- A method of the base class, on the agent.
  abbrev pub on_base : (BaseAgent F → BaseAgent F) → Trader F S → Trader F S
  on_base f (maker t) = maker (record t { base = f t.base })
  on_base f (noise_trader t) = noise_trader (record t { base = f t.base })
  on_base f (informed_trader t) = informed_trader (record t { base = f t.base })
  on_base f (momentum_trader t) = momentum_trader (record t { base = f t.base })
  on_base f (arbitrageur t) = arbitrageur (record t { base = f t.base })
  on_base f (player t) = player (record t { base = f t.base })

  -- `_pending_cancels`, or no ids if the agent has no such attribute.
  abbrev pub cancels_of : Trader F S → List ℕ
  cancels_of (maker t) = list_or_nil t.pending_cancels
  cancels_of (player t) = t.pending_cancels
  cancels_of _ = []

  -- `agent._pending_cancels = []`
  abbrev pub clear_cancels : Trader F S → Trader F S
  clear_cancels (maker t) = maker (record t { pending_cancels = some [] })
  clear_cancels (player t) = player (record t { pending_cancels = [] })
  clear_cancels t = t

module _ {F S : Type 0} ⦃fl : Float F⦄ ⦃g : Rng F S⦄ where
  -- `self.agent_latencies[...].sample_seconds()`
  unfoldable pub delay_seconds : Delay F S → Option (F × Delay F S)
  delay_seconds zero_latency = some (of_int (pos 0), zero_latency)
  delay_seconds (model m) = do (seconds, m') ← sample_seconds m; some (seconds, model m')

  -- `set_true_price`, if the agent has it.
  abbrev pub tell_price : ℤ → Trader F S → Trader F S
  tell_price price (informed_trader t) = informed_trader (Informed.set_true_price price t)
  tell_price price (arbitrageur t) = arbitrageur (LatencyArb.set_true_price price t)
  tell_price price t = t

module _ {F S : Type 0} ⦃fl : Float F⦄ ⦃np : Numpy F⦄ ⦃g : Rng F S⦄ where
  -- `agent.on_book_update(update, step)`
  unfoldable pub act : BookUpdateMsg → ℕ → Trader F S → Reaction (Trader F S)
  act update step (maker t) = do
    (orders, t') ← MarketMaker.on_book_update update step t
    some (orders, maker t')
  act update step (noise_trader t) = do
    (orders, t') ← Noise.on_book_update update step t
    some (orders, noise_trader t')
  act update step (informed_trader t) = do
    (orders, t') ← Informed.on_book_update update step t
    some (orders, informed_trader t')
  act update step (momentum_trader t) = do
    (orders, t') ← Momentum.on_book_update update step t
    some (orders, momentum_trader t')
  act update step (arbitrageur t) = do
    (orders, t') ← LatencyArb.on_book_update update step t
    some (orders, arbitrageur t')
  act update step (player t) =
      let (orders, t') = Human.on_book_update update step t in some (orders, player t')
