-- ===== src/Simulator/Run.antt =====
-- simulation/simulator.py: `run`, without what it logs. `none` and `crashed` are exceptions that end the
-- run.
use liquidity_arena.Prelude.{ℕ, Bool, true, Option, none, some, [], ◌>>=◌, if◌then◌else◌}
use liquidity_arena.Prelude.Int.{ℤ, pos, ◌+ℤ◌, ◌-ℤ◌}
use liquidity_arena.Numeric.{Float, of_int, literal, Numpy, Rng, Sampler}
use liquidity_arena.Wire.Messages.{BookUpdateMsg}
use liquidity_arena.Wire.Client.{Outcome, returned, raised, Client, new_client, connect, disconnect}
use liquidity_arena.Metrics.Pnl.{Report, compute_report}
use liquidity_arena.Price.Hawkes.{HawkesProcess, new_hawkes}
use liquidity_arena.Simulator.Events.{Heapq}
use liquidity_arena.Simulator.State.{Simulator}
use liquidity_arena.Simulator.Config.{get_or, OrderFlowConfig, Config}
use liquidity_arena.Simulator.Setup.{create_agents}
use liquidity_arena.Simulator.Loop.{
  Inputs, Progress, ended, crashed, unfinished, schedule_initial_events, main_loop,
}

-- "Running in standalone mode" if the engine does not accept the connection.
abbrev pub connected : Outcome (Unit {0}) → Client → Option Client
connected (returned u) c = some c
connected (raised e) c = none

abbrev pub connect_engine : Bool → Option Client
connect_engine accepted = let (result, c) = connect accepted new_client in connected result c

-- "Create an initial book update for agents."
abbrev pub initial_book : ℤ → BookUpdateMsg
initial_book mid = record {
  best_bid = mid -ℤ pos 5;
  best_ask = mid +ℤ pos 5;
  num_bid_levels = pos 0;
  num_ask_levels = pos 0;
  bid_prices = [];
  bid_quantities = [];
  ask_prices = [];
  ask_quantities = [];
}

abbrev pub disconnected : Option Client → Option Client
disconnected none = none
disconnected (some c) = some (disconnect c)

module _ {F S : Type 0} ⦃fl : Float F⦄ (default_rng : ℕ → S) where
  -- "Create Hawkes process if configured." The assertion of its constructor raises.
  unfoldable pub create_hawkes : OrderFlowConfig F → Option (Option (HawkesProcess F S))
  create_hawkes c =
      if c.is_hawkes
      then (do
        h ←
            new_hawkes (get_or (of_int (pos 1)) c.hawkes_mu) (get_or (literal 6 1) c.hawkes_alpha)
              (get_or (literal 15 1) c.hawkes_beta) (default_rng 42)
        some (some h))
      else some none

module _ {F S : Type 0} ⦃fl : Float F⦄ ⦃g : Rng F S⦄ ⦃hq : Heapq F⦄ (default_rng : ℕ → S) where
  -- `run` up to its loop. `accepted` says whether the engine accepts the connection.
  unfoldable pub start_run : Bool → Config F → ℕ → Simulator F S → Option (Simulator F S × ℕ)
  start_run accepted c agent_counter s = do
    (s₁, agent_counter') ← create_agents default_rng c.agents agent_counter s
    h ← create_hawkes default_rng c.order_flow
    s₂ ← schedule_initial_events (record s₁ {
      hawkes = h;
      tcp_client = connect_engine accepted;
      last_book_update = some (initial_book s₁.current_mid);
    })
    some (record s₂ { running = true }, agent_counter')

module _ {F S : Type 0} ⦃fl : Float F⦄ ⦃np : Numpy F⦄ where
  abbrev pub reported : Option (Report F) → Simulator F S → Progress F S
  reported none s = crashed
  reported (some r) s = ended (record s { tcp_client = disconnected s.tcp_client })

  -- Behind the loop: the report, and the end of the connection.
  unfoldable pub finish : Progress F S → Progress F S
  finish (ended s) = reported (compute_report s.metrics) s
  finish crashed = crashed
  finish (unfinished s) = unfinished s

module _ {F S : Type 0} ⦃fl : Float F⦄ ⦃np : Numpy F⦄ ⦃g : Rng F S⦄ ⦃sp : Sampler F S⦄
    ⦃hq : Heapq F⦄ where
  abbrev pub run_from : ℕ → (ℕ → Inputs) → Option (Simulator F S × ℕ) → Progress F S
  run_from rounds io none = crashed
  run_from rounds io (some (s, agent_counter)) = finish (main_loop rounds io s)

module _ {F S : Type 0} ⦃fl : Float F⦄ ⦃np : Numpy F⦄ ⦃g : Rng F S⦄ ⦃sp : Sampler F S⦄
    ⦃hq : Heapq F⦄ (default_rng : ℕ → S) where
  -- `run`, with a number of rounds of its loop and the inputs of each.
  unfoldable pub run : ℕ → (ℕ → Inputs) → Bool → Config F → ℕ → Simulator F S → Progress F S
  run rounds io accepted c agent_counter s =
      run_from rounds io (start_run default_rng accepted c agent_counter s)
