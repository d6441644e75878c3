-- ===== src/Simulator/Effect.antt =====
-- What one round of the simulator's loop does to its clock, its events and its counters
-- (`_process_event` and `run` of simulation/simulator.py).
use liquidity_arena.Prelude.{
  ℕ, ◌+◌, ◌≡◌, refl, ap, ◌∙◌, Bool, true, false, Option, none, some, List, [], ◌∷◌, All, length,
  length-append, arith, if◌then◌else◌,
}
use liquidity_arena.Prelude.Results.{Every, Every-bind, Every-mono}
use liquidity_arena.Numeric.{Float, Numpy, Rng, Sampler}
use liquidity_arena.Price.Process.{price_step}
use liquidity_arena.Price.Hawkes.{HawkesProcess, hawkes_step}
use liquidity_arena.Metrics.{record_state}
use liquidity_arena.Simulator.Traders.{
  AgentId, Trader, Delay, same_id, lookup_id, ids, map_values, tell_price, delay_seconds,
}
use liquidity_arena.Simulator.Events.{EventType, same_type, Event, Heapq}
use liquidity_arena.Simulator.State.{Simulator}
use liquidity_arena.Simulator.Frame.{Frame, Frame-refl, ids-map_values}
use liquidity_arena.Simulator.Frame.Acting.{react_if-Frame}
use liquidity_arena.Simulator.Extends.{
  push_all, ActionAfter, Extends-refl, Extends-of, AddsSome, add_extra-AddsSome,
}
use liquidity_arena.Simulator.Loop.{Inputs, extra_flow, add_extra, move_price, sampled, process_as}

abbrev pub is_in : AgentId → List AgentId → Bool
is_in i [] = false
is_in i (j ∷ js) = if same_id i j then true else is_in i js

-- 1 for an event of the type, and 0 for another.
abbrev pub one_if : EventType → EventType → ℕ
one_if t u = if same_type t u then 1 else 0

-- What an event does, to the simulator from which it has been taken: it pushes `added`.
pub record Effect {F S : Type 0} ⦃hq : Heapq F⦄ (t : EventType) (added : List (Event F))
    (s s' : Simulator F S) : Type 0 where
  pub queue : s'.event_queue ≡ push_all added s.event_queue
  pub clock : s'.current_time ≡ s.current_time
  pub dt : s'.dt ≡ s.dt
  pub running : s'.running ≡ s.running
  pub total : s'.total_steps ≡ s.total_steps
  pub members : ids s'.agents ≡ ids s.agents
  pub steps : s'.step_count ≡ one_if EventType.midprice_move t + s.step_count
  pub samples :
      is_in AgentId.mm (ids s.agents) ≡ true
      → length s'.metrics.pnl_history
        ≡ one_if EventType.metrics_sample t + length s.metrics.pnl_history

lookup_id-is_in :
    {A : Type 0} (i : AgentId) (d : List (AgentId × A))
    → lookup_id i d ≡ none
    → is_in i (ids d) ≡ false
lookup_id-is_in i [] h = refl
lookup_id-is_in i ((j, a) ∷ d) h =
    elim (same_id i j)
        as (λ b.
          (if b then some a else lookup_id i d) ≡ none
          → (if b then true else is_in i (ids d)) ≡ false) [
            | true ↦ λ e. absurd (ground arith)
            | false ↦ λ e. lookup_id-is_in i d e
          ]
      h

module _ {F S : Type 0} ⦃fl : Float F⦄ ⦃np : Numpy F⦄ ⦃g : Rng F S⦄ ⦃sp : Sampler F S⦄
    ⦃hq : Heapq F⦄ (P : F → Type 0)
    (delays : (d : Delay F S) → Every (λ r. P r.0) (delay_seconds d)) where
  -- A move of the price pushes delayed actions, and any other event pushes nothing.
  abbrev pub Happens : EventType → F → Simulator F S → Simulator F S → Type 0
  Happens t time s s' =
      (added : List (Event F)) × Effect t added s s'
      × All (ActionAfter P time) added
      × (one_if EventType.midprice_move t ≡ 0 → added ≡ [])

  Happens-Frame :
      (t : EventType) (time : F) (s : Simulator F S)
      → one_if EventType.midprice_move t ≡ 0
      → one_if EventType.metrics_sample t ≡ 0
      → (s' : Simulator F S) → Frame s s'
      → Happens t time s s'
  Happens-Frame t time s h k s' f = (
    [],
    record {
      queue = f.queue;
      clock = f.clock;
      dt = f.dt;
      running = f.running;
      total = f.total;
      members = f.members;
      steps = f.steps ∙ omega arith;
      samples = λ _. ap length f.history ∙ omega arith;
    },
    tt,
    λ _. refl,
  )

  extra_flow-AddsSome :
      (time : F) (h : Option (HawkesProcess F S)) (s : Simulator F S)
      → Every (AddsSome P time s) (extra_flow time h s)
  extra_flow-AddsSome time none s = (0, ([], Extends-refl s, tt, refl))
  extra_flow-AddsSome time (some h) s = Every-bind (AddsSome P time s) (hawkes_step s.dt h) _ (λ r.
      let s' = record s { hawkes = some r.1 } in
      Every-mono (AddsSome P time s') (AddsSome P time s) (add_extra r.0 time s')
        (λ u k. (k.0, (k.1.0, Extends-of (some r.1) k.1.1, k.1.2, k.1.3)))
        (add_extra-AddsSome P delays r.0 time s'))

  move_price-Happens :
      (time : F) (s : Simulator F S)
      → Every (Happens EventType.midprice_move time s) (move_price time s)
  unfolding move_price
  move_price-Happens time s =
      Every-bind (Happens EventType.midprice_move time s) (price_step s.price_process) _ (λ r.
        let s' = record s {
          current_mid = r.0;
          price_process = r.1;
          step_count = s.step_count + 1;
          agents = map_values (tell_price r.0) s.agents;
        } in
        Every-mono (AddsSome P time s') (Happens EventType.midprice_move time s)
          (extra_flow time s.hawkes s')
          (λ u (n, (added, e, each, l)). (
            added,
            record {
              queue = e.queue;
              clock = e.clock;
              dt = e.dt;
              running = e.running;
              total = e.total;
              members = ap ids e.agents ∙ ids-map_values (tell_price r.0) s.agents;
              steps = e.steps ∙ omega arith;
              samples = λ _. ap (λ m. length m.pnl_history) e.metrics ∙ omega arith;
            },
            each,
            λ h. absurd (omega arith),
          ))
          (extra_flow-AddsSome time s.hawkes s'))

  sampled-Happens :
      (time : F) (o : Option (Trader F S)) (s : Simulator F S)
      → lookup_id AgentId.mm s.agents ≡ o
      → Happens EventType.metrics_sample time s (sampled o s)
  unfolding record_state
  sampled-Happens time none s h = (
    [],
    record {
      queue = refl;
      clock = refl;
      dt = refl;
      running = refl;
      total = refl;
      members = refl;
      steps = omega arith;
      samples = λ k. absurd (cc (lookup_id-is_in AgentId.mm s.agents h));
    },
    tt,
    λ _. refl,
  )
  sampled-Happens time (some a) s h = (
    [],
    record {
      queue = refl;
      clock = refl;
      dt = refl;
      running = refl;
      total = refl;
      members = refl;
      steps = omega arith;
      samples = λ k. length-append s.metrics.pnl_history _ ∙ omega arith;
    },
    tt,
    λ _. refl,
  )

  pub process_as-Happens :
      (t : EventType) (io : Inputs) (e : Event F) (s : Simulator F S)
      → Every (Happens t e.timestamp s) (process_as t io e s)
  process_as-Happens EventType.midprice_move io e s = move_price-Happens e.timestamp s
  process_as-Happens EventType.agent_action io e s =
      Every-mono (Frame s) (Happens EventType.agent_action e.timestamp s) _
        (Happens-Frame EventType.agent_action e.timestamp s refl refl)
        (react_if-Frame io s.last_book_update e.agent_id s)
  process_as-Happens EventType.metrics_sample io e s =
      sampled-Happens e.timestamp (lookup_id AgentId.mm s.agents) s refl
  process_as-Happens EventType.order_cancel io e s =
      Happens-Frame EventType.order_cancel e.timestamp s refl refl s (Frame-refl s)
  process_as-Happens EventType.book_update io e s =
      Happens-Frame EventType.book_update e.timestamp s refl refl s (Frame-refl s)
