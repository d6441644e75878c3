-- ===== src/Simulator/Loop.antt =====
-- simulation/simulator.py: `_schedule_initial_events`, `_process_event` and the loop of `run`. `none` is
-- an exception that ends the run.
use liquidity_arena.Prelude.{
  ◌≡◌, ap, ℕ, zero, suc, ◌+◌, ◌%◌, Bool, true, false, Option, none, some, List, [], ◌∷◌, ◌>>=◌,
  ◌&&◌, ◌==◌, not, if◌then◌else◌,
}
use liquidity_arena.Prelude.Int.{pos}
use liquidity_arena.Numeric.{Float, ◌⊕◌, ◌⊗◌, of_int, literal, Numpy, Rng, Sampler}
use liquidity_arena.Wire.Messages.{BookUpdateMsg}
use liquidity_arena.Wire.Client.{Recv}
use liquidity_arena.Metrics.{record_state}
use liquidity_arena.Price.Process.{price_step}
use liquidity_arena.Price.Hawkes.{HawkesProcess, hawkes_step}
use liquidity_arena.Simulator.Traders.{
  AgentId, Trader, lookup_id, insert_id, map_values, base_of, cancels_of, clear_cancels, tell_price,
  delay_seconds, act,
}
use liquidity_arena.Simulator.Events.{EventType, Event, has_events, Heapq}
use liquidity_arena.Simulator.State.{Simulator, Notice, push}
use liquidity_arena.Simulator.Exchange.{submit_orders, submit_cancels}
use liquidity_arena.Simulator.Frontend.{WsMessage, process_incoming}

-- What the outside does in one round of the loop: the frontend's messages, the room that the socket
-- has for each cancel and for each order, what `recv` gives, and whether `stop` is called.
pub record Inputs : Type 0 where
  pub incoming : List (ℕ × WsMessage)
  pub cancel_room : ℕ → ℕ
  pub order_room : ℕ → ℕ
  pub recv : Recv
  pub stops : Bool

-- The items with the room for each.
abbrev pub with_rooms : {A : Type 0} → (ℕ → ℕ) → ℕ → List A → List (ℕ × A)
with_rooms rooms k [] = []
with_rooms rooms k (a ∷ xs) = (rooms k, a) ∷ with_rooms rooms (k + 1) xs

module _ {F : Type 0} where
  abbrev pub move_at : F → Event F
  move_at t = record { timestamp = t; event_type = EventType.midprice_move; agent_id = none }

  abbrev pub action_at : F → AgentId → Event F
  action_at t i = record { timestamp = t; event_type = EventType.agent_action; agent_id = some i }

  abbrev pub sample_at : F → Event F
  sample_at t = record { timestamp = t; event_type = EventType.metrics_sample; agent_id = none }

module _ {F S : Type 0} ⦃hq : Heapq F⦄ where
  -- `self.event_queue.push(event)`
  abbrev pub schedule : Event F → Simulator F S → Simulator F S
  schedule e s = record s { event_queue = hq.heappush e s.event_queue }

module _ {F S : Type 0} ⦃fl : Float F⦄ ⦃g : Rng F S⦄ ⦃hq : Heapq F⦄ where
  -- An action of the agent after its latency. An agent without latency raises a `KeyError`.
  unfoldable pub schedule_action : F → AgentId → Simulator F S → Option (Simulator F S)
  schedule_action t i s = do
    delay ← lookup_id i s.agent_latencies
    (latency_s, delay') ← delay_seconds delay
    some (
        schedule (action_at (t ⊕ latency_s) i)
          (record s { agent_latencies = insert_id i delay' s.agent_latencies }))

  -- "Schedule agent actions (with per-agent latency offset)", for the agents left.
  unfoldable pub schedule_actions :
      F → List (AgentId × Trader F S) → Simulator F S → Option (Simulator F S)
  schedule_actions t [] s = some s
  schedule_actions t ((i, agent) ∷ rest) s = schedule_action t i s >>= schedule_actions t rest

  -- "Metrics sampling every 100 steps."
  abbrev pub schedule_sample : ℕ → F → Simulator F S → Simulator F S
  schedule_sample step t s =
      if step % 100 == 0 then schedule (sample_at (t ⊕ s.dt ⊗ literal 5 1)) s else s

  unfoldable pub schedule_step : ℕ → Simulator F S → Option (Simulator F S)
  schedule_step step s = do
    let t = of_int (pos step) ⊗ s.dt
    s' ← schedule_actions t s.agents (schedule (move_at t) s)
    some (schedule_sample step t s')

  -- The loop over the steps left, from a step on.
  unfoldable pub schedule_steps : ℕ → ℕ → Simulator F S → Option (Simulator F S)
  schedule_steps zero step s = some s
  schedule_steps (suc left) step s = schedule_step step s >>= schedule_steps left (step + 1)

  abbrev pub schedule_initial_events : Simulator F S → Option (Simulator F S)
  schedule_initial_events s = schedule_steps s.total_steps 0 s

  -- "Extra events manifest as noise trader actions", for the events left.
  unfoldable pub add_extra : ℕ → F → Simulator F S → Option (Simulator F S)
  add_extra zero time s = some s
  add_extra (suc n) time s = elim (lookup_id (AgentId.noise 0) s.agents) [
    | none ↦ add_extra n time s
    | some agent ↦ schedule_action time (AgentId.noise 0) s >>= add_extra n time
  ]

module _ {F S : Type 0} ⦃fl : Float F⦄ ⦃np : Numpy F⦄ ⦃g : Rng F S⦄ ⦃sp : Sampler F S⦄
    ⦃hq : Heapq F⦄ where
  -- "Hawkes-driven additional order flow."
  abbrev pub extra_flow : F → Option (HawkesProcess F S) → Simulator F S → Option (Simulator F S)
  extra_flow time none s = some s
  extra_flow time (some h) s = do
    (n_extra, h') ← hawkes_step s.dt h
    add_extra n_extra time (record s { hawkes = some h' })

  unfoldable pub move_price : F → Simulator F S → Option (Simulator F S)
  move_price time s = do
    (mid, p) ← price_step s.price_process
    extra_flow time s.hawkes (record s {
      current_mid = mid;
      price_process = p;
      step_count = s.step_count + 1;
      agents = map_values (tell_price mid) s.agents;
    })

module _ {F S : Type 0} ⦃fl : Float F⦄ ⦃np : Numpy F⦄ ⦃g : Rng F S⦄ where
  -- "Send cancels for stale quotes (cancel-and-replace pattern).", if there are any.
  abbrev pub replace_quotes : Inputs → AgentId → Trader F S → List ℕ → Simulator F S → Simulator F S
  replace_quotes io i agent [] s = s
  replace_quotes io i agent (oid ∷ oids) s =
      let s' = submit_cancels (with_rooms io.cancel_room 0 (oid ∷ oids)) s in
      record s' { agents = insert_id i (clear_cancels agent) s'.agents }

  -- The agent reacts to the last book.
  unfoldable pub react :
      Inputs → AgentId → Trader F S → BookUpdateMsg → Simulator F S → Option (Simulator F S)
  react io i agent update s = do
    (orders, agent') ← act update s.step_count agent
    let s' = record s { agents = insert_id i agent' s.agents }
    let s'' = replace_quotes io i agent' (cancels_of agent') s'
    some (submit_orders (with_rooms io.order_room 0 orders) io.recv s'')

  -- `self.agents.get(event.agent_id)`
  abbrev pub find_agent :
      Option AgentId → List (AgentId × Trader F S) → Option (AgentId × Trader F S)
  find_agent none d = none
  find_agent (some i) d = do agent ← lookup_id i d; some (i, agent)

  abbrev pub react_if :
      Inputs
      → Option BookUpdateMsg
      → Option (AgentId × Trader F S)
      → Simulator F S
      → Option (Simulator F S)
  react_if io none found s = some s
  react_if io (some update) none s = some s
  react_if io (some update) (some (i, agent)) s = react io i agent update s

  -- Records the market maker's state, if there is one.
  abbrev pub sampled : Option (Trader F S) → Simulator F S → Simulator F S
  sampled none s = s
  sampled (some agent) s =
      let stats = (base_of agent).stats in
      push (Notice.metrics stats.total_pnl stats.inventory s.current_mid) (record s {
        metrics = record_state s.step_count stats.total_pnl stats.inventory s.current_mid s.metrics;
      })

module _ {F S : Type 0} ⦃fl : Float F⦄ ⦃np : Numpy F⦄ ⦃g : Rng F S⦄ ⦃sp : Sampler F S⦄
    ⦃hq : Heapq F⦄ where
  abbrev pub process_as : EventType → Inputs → Event F → Simulator F S → Option (Simulator F S)
  process_as EventType.midprice_move io e s = move_price e.timestamp s
  process_as EventType.agent_action io e s =
      react_if io s.last_book_update (find_agent e.agent_id s.agents) s
  process_as EventType.metrics_sample io e s = some (sampled (lookup_id AgentId.mm s.agents) s)
  process_as EventType.order_cancel io e s = some s
  process_as EventType.book_update io e s = some s

  abbrev pub process_event : Inputs → Event F → Simulator F S → Option (Simulator F S)
  process_event io e s = process_as e.event_type io e s

  -- The body of the loop. A call of `stop` shows at the next test of the loop.
  unfoldable pub round : Inputs → Simulator F S → Option (Simulator F S)
  round io s = do
    let s₁ = process_incoming io.incoming s
    (e, q) ← hq.heappop s₁.event_queue
    s₂ ← process_event io e (record s₁ { event_queue = q; current_time = e.timestamp })
    some (record s₂ { running = s₂.running && not io.stops })

  abbrev pub goes_on : Simulator F S → Bool
  goes_on s = has_events s.event_queue && s.running

-- How the loop stands: it has ended by its test, or by an exception, or it goes on.
pub data Progress (F S : Type 0) : Type 0 where
  ended : Simulator F S → Progress F S
  crashed : Progress F S
  unfinished : Simulator F S → Progress F S

module _ {F S : Type 0} ⦃fl : Float F⦄ ⦃np : Numpy F⦄ ⦃g : Rng F S⦄ ⦃sp : Sampler F S⦄
    ⦃hq : Heapq F⦄ where
  abbrev pub proceed : Option (Simulator F S) → (Simulator F S → Progress F S) → Progress F S
  proceed none k = crashed
  proceed (some s) k = k s

  -- `while self.event_queue and self.running`, for a number of rounds. `io` has the inputs of each.
  unfoldable pub main_loop : ℕ → (ℕ → Inputs) → Simulator F S → Progress F S
  main_loop zero io s = unfinished s
  main_loop (suc n) io s = elim (goes_on s) [
    | false ↦ ended s
    | true ↦ proceed (round (io 0) s) (main_loop n (λ k. io (suc k)))
  ]

  pub main_loop-stop :
      (n : ℕ) (io : ℕ → Inputs) (s : Simulator F S)
      → goes_on s ≡ false
      → main_loop (suc n) io s ≡ ended s
  unfolding main_loop
  main_loop-stop n io s e =
      ap {B = Progress F S}
        (elim [ false ↦ ended s | true ↦ proceed (round (io 0) s) (main_loop n (λ k. io (suc k))) ])
        e

  pub main_loop-go :
      (n : ℕ) (io : ℕ → Inputs) (s : Simulator F S)
      → goes_on s ≡ true
      → main_loop (suc n) io s ≡ proceed (round (io 0) s) (main_loop n (λ k. io (suc k)))
  unfolding main_loop
  main_loop-go n io s e =
      ap {B = Progress F S}
        (elim [ false ↦ ended s | true ↦ proceed (round (io 0) s) (main_loop n (λ k. io (suc k))) ])
        e
