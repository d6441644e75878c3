-- ===== src/Simulator/Round.antt =====
-- One round of the simulator's loop (`run` of simulation/simulator.py): what it does to the clock, the
-- events and the counters.
use liquidity_arena.Prelude.{◌+◌, ◌≡◌, sym, ap, ◌∙◌, true, not, ◌&&◌, some, List, [], All, length}
use liquidity_arena.Prelude.Results.{Every, Every-bind_of, Every-chain}
use liquidity_arena.Numeric.{Float, Numpy, Rng, Sampler}
use liquidity_arena.Simulator.Traders.{AgentId, Delay, ids, delay_seconds}
use liquidity_arena.Simulator.Events.{EventType, Event, Heapq}
use liquidity_arena.Simulator.State.{Simulator}
use liquidity_arena.Simulator.Frame.Incoming.{process_incoming-Frame}
use liquidity_arena.Simulator.Extends.{push_all, ActionAfter}
use liquidity_arena.Simulator.Frontend.{process_incoming}
use liquidity_arena.Simulator.Loop.{Inputs, process_event, round}
use liquidity_arena.Simulator.Effect.{is_in, one_if, Happens, process_as-Happens}

-- What a round does: it takes an event from the queue, sets the clock to its time, and processes it.
pub record RoundEffect {F S : Type 0} ⦃fl : Float F⦄ ⦃hq : Heapq F⦄ (P : F → Type 0) (io : Inputs)
    (s s' : Simulator F S) : Type 0 where
  pub event : Event F
  pub rest : List (Event F)
  pub pop : hq.heappop s.event_queue ≡ some (event, rest)
  pub added : List (Event F)
  pub each : All (ActionAfter P event.timestamp) added
  pub quiet : one_if EventType.midprice_move event.event_type ≡ 0 → added ≡ []
  pub queue : s'.event_queue ≡ push_all added rest
  pub clock : s'.current_time ≡ event.timestamp
  pub dt : s'.dt ≡ s.dt
  pub running : s'.running ≡ (s.running && not io.stops)
  pub total : s'.total_steps ≡ s.total_steps
  pub members : ids s'.agents ≡ ids s.agents
  pub steps : s'.step_count ≡ one_if EventType.midprice_move event.event_type + s.step_count
  pub samples :
      is_in AgentId.mm (ids s.agents) ≡ true
      → length s'.metrics.pnl_history
        ≡ one_if EventType.metrics_sample event.event_type + length s.metrics.pnl_history

module _ {F S : Type 0} ⦃fl : Float F⦄ ⦃np : Numpy F⦄ ⦃g : Rng F S⦄ ⦃sp : Sampler F S⦄
    ⦃hq : Heapq F⦄ (P : F → Type 0)
    (delays : (d : Delay F S) → Every (λ r. P r.0) (delay_seconds d)) where
  pub round-RoundEffect :
      (io : Inputs) (s : Simulator F S) → Every (RoundEffect P io s) (round io s)
  unfolding round
  round-RoundEffect io s =
      let s₁ = process_incoming io.incoming s in
      let f = process_incoming-Frame io.incoming s in
      Every-bind_of (RoundEffect P io s) (hq.heappop s₁.event_queue) _ (λ r pop.
        let s₂ = record s₁ { event_queue = r.1; current_time = r.0.timestamp } in
        Every-chain (Happens P delays r.0.event_type r.0.timestamp s₂) (RoundEffect P io s)
          (process_event io r.0 s₂) _ (process_as-Happens P delays r.0.event_type io r.0 s₂)
          (λ u (added, e, each, quiet). record {
            event = r.0;
            rest = r.1;
            pop = ap hq.heappop (sym f.queue) ∙ pop;
            added = added;
            each = each;
            quiet = quiet;
            queue = e.queue;
            clock = e.clock;
            dt = e.dt ∙ f.dt;
            running = ap (λ b. b && not io.stops) (e.running ∙ f.running);
            total = e.total ∙ f.total;
            members = e.members ∙ f.members;
            steps = e.steps ∙ ap (λ n. one_if EventType.midprice_move r.0.event_type + n) f.steps;
            samples = λ h.
                e.samples (ap (is_in AgentId.mm) f.members ∙ h)
                ∙ ap (λ l. one_if EventType.metrics_sample r.0.event_type + length l) f.history;
          }))
