-- ===== src/Simulator/State.antt =====
-- simulation/simulator.py: the attributes of `Simulator`. An agent stands in the dictionary by its id;
-- `self.human` is the agent of the id "HUMAN". Of the bridge to the frontend the model keeps what has
-- been pushed to it.
use liquidity_arena.Prelude.{ℕ, Bool, Option, none, some, List, [], ◌∷◌, ◌++◌}
use liquidity_arena.Prelude.Int.{ℤ}
use liquidity_arena.Wire.Messages.{BookUpdateMsg}
use liquidity_arena.Wire.Client.{Client}
use liquidity_arena.Metrics.{MetricsEngine}
use liquidity_arena.Price.Process.{PriceProcess}
use liquidity_arena.Price.Hawkes.{HawkesProcess}
use liquidity_arena.Simulator.Traders.{AgentId, Trader, Delay}
use liquidity_arena.Simulator.Events.{Event}

-- The objects that are pushed to the bridge as JSON.
pub data Notice (F : Type 0) : Type 0 where
  metrics : F → ℤ → ℤ → Notice F
  book : F → List (ℤ × ℤ) → List (ℤ × ℤ) → Notice F

-- `dt` is `config["simulation"].get("dt", 0.001)`.
pub record Simulator (F S : Type 0) : Type 0 where
  pub dt : F
  pub running : Bool
  pub current_time : F
  pub event_queue : List (Event F)
  pub tcp_client : Option Client
  pub ws_bridge : Option (List (Notice F))
  pub price_process : PriceProcess F S
  pub hawkes : Option (HawkesProcess F S)
  pub metrics : MetricsEngine F
  pub agents : List (AgentId × Trader F S)
  pub agent_latencies : List (AgentId × Delay F S)
  pub current_mid : ℤ
  pub last_book_update : Option BookUpdateMsg
  pub step_count : ℕ
  pub total_steps : ℕ

abbrev pub noticed : {F : Type 0} → Notice F → Option (List (Notice F)) → Option (List (Notice F))
noticed n none = none
noticed n (some notices) = some (notices ++ n ∷ [])

module _ {F S : Type 0} where
  -- `if self.ws_bridge: self.ws_bridge.push(...)`
  abbrev pub push : Notice F → Simulator F S → Simulator F S
  push n s = record s { ws_bridge = noticed n s.ws_bridge }
