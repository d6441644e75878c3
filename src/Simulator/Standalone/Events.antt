-- ===== src/Simulator/Standalone/Events.antt =====
-- The events of a run without an engine (`_schedule_initial_events` and `_process_event` of
-- simulation/simulator.py) trade nothing.
use liquidity_arena.Prelude.{
  ℕ, zero, suc, ◌+◌, ◌%◌, ◌==◌, ◌≡◌, refl, ◌∙◌, Option, none, some, List, [], ◌∷◌, ◌>>=◌,
}
use liquidity_arena.Prelude.Int.{pos}
use liquidity_arena.Prelude.Results.{Every, Every-bind, Every-chain, Every-mono, either}
use liquidity_arena.Numeric.{Float, of_int, ◌⊗◌, Numpy, Rng, Sampler}
use liquidity_arena.Wire.Messages.{BookUpdateMsg}
use liquidity_arena.Metrics.{record_state}
use liquidity_arena.Price.Process.{price_step}
use liquidity_arena.Price.Hawkes.{HawkesProcess, hawkes_step}
use liquidity_arena.Simulator.Traders.{
  AgentId, Trader, lookup_id, cancels_of, delay_seconds, act, insert_id, map_values, tell_price,
}
use liquidity_arena.Simulator.Events.{EventType, Event, Heapq}
use liquidity_arena.Simulator.State.{Simulator}
use liquidity_arena.Simulator.Frontend.{process_incoming}
use liquidity_arena.Simulator.Loop.{
  Inputs, with_rooms, move_at, schedule, schedule_action, schedule_actions, schedule_step,
  schedule_steps, add_extra, extra_flow, move_price, replace_quotes, react, find_agent, react_if,
  sampled, process_as, process_event, round,
}
use liquidity_arena.Simulator.Standalone.{
  Idle, client-Idle, submit_orders-Idle, submit_cancels-Idle, process_polled-Idle,
}

module _ {F S : Type 0} ⦃fl : Float F⦄ ⦃g : Rng F S⦄ ⦃hq : Heapq F⦄ where
  schedule_action-Idle :
      (t : F) (i : AgentId) (s : Simulator F S) → Every (Idle s) (schedule_action t i s)
  unfolding schedule_action
  schedule_action-Idle t i s =
      Every-bind (Idle s) (lookup_id i s.agent_latencies) _
        (λ d. Every-bind (Idle s) (delay_seconds d) _ (λ r. refl))

  schedule_actions-Idle :
      (t : F) (d : List (AgentId × Trader F S)) (s : Simulator F S)
      → Every (Idle s) (schedule_actions t d s)
  unfolding schedule_actions
  schedule_actions-Idle t [] s = refl
  schedule_actions-Idle t ((i, a) ∷ d) s =
      Every-chain (Idle s) (Idle s) (schedule_action t i s) _ (schedule_action-Idle t i s) (λ u h.
        Every-mono (Idle u) (Idle s) (schedule_actions t d u) (λ v k. k ∙ h)
          (schedule_actions-Idle t d u))

  schedule_step-Idle : (step : ℕ) (s : Simulator F S) → Every (Idle s) (schedule_step step s)
  unfolding schedule_step
  schedule_step-Idle step s =
      let t = of_int (pos step) ⊗ s.dt in
      Every-chain (Idle s) (Idle s) (schedule_actions t s.agents (schedule (move_at t) s)) _
        (schedule_actions-Idle t s.agents (schedule (move_at t) s))
        (λ u h. either (Idle s) (step % 100 == 0) h h)

  pub schedule_steps-Idle :
      (left step : ℕ) (s : Simulator F S) → Every (Idle s) (schedule_steps left step s)
  unfolding schedule_steps
  schedule_steps-Idle zero step s = refl
  schedule_steps-Idle (suc left) step s =
      Every-chain (Idle s) (Idle s) (schedule_step step s) _ (schedule_step-Idle step s) (λ u h.
        Every-mono (Idle u) (Idle s) (schedule_steps left (step + 1) u) (λ v k. k ∙ h)
          (schedule_steps-Idle left (step + 1) u))

  add_extra_if-Idle :
      (k : Option (Trader F S)) (n : ℕ) (time : F) (s : Simulator F S)
      → ((u : Simulator F S) → Every (Idle u) (add_extra n time u))
      → Every (Idle s) (elim k [
        | none ↦ add_extra n time s
        | some agent ↦ schedule_action time (AgentId.noise 0) s >>= add_extra n time
      ])
  add_extra_if-Idle none n time s h = h s
  add_extra_if-Idle (some a) n time s h =
      Every-chain (Idle s) (Idle s) (schedule_action time (AgentId.noise 0) s) _
        (schedule_action-Idle time (AgentId.noise 0) s)
        (λ u k. Every-mono (Idle u) (Idle s) (add_extra n time u) (λ v l. l ∙ k) (h u))

  add_extra-Idle : (n : ℕ) (time : F) (s : Simulator F S) → Every (Idle s) (add_extra n time s)
  unfolding add_extra
  add_extra-Idle zero time s = refl
  add_extra-Idle (suc n) time s =
      add_extra_if-Idle (lookup_id (AgentId.noise 0) s.agents) n time s (add_extra-Idle n time)

module _ {F S : Type 0} ⦃fl : Float F⦄ ⦃np : Numpy F⦄ ⦃g : Rng F S⦄ ⦃sp : Sampler F S⦄
    ⦃hq : Heapq F⦄ where
  extra_flow-Idle :
      (time : F) (k : Option (HawkesProcess F S)) (s : Simulator F S)
      → Every (Idle s) (extra_flow time k s)
  extra_flow-Idle time none s = refl
  extra_flow-Idle time (some h) s =
      Every-bind (Idle s) (hawkes_step s.dt h) _
        (λ r. add_extra-Idle r.0 time (record s { hawkes = some r.1 }))

  move_price-Idle : (time : F) (s : Simulator F S) → Every (Idle s) (move_price time s)
  unfolding move_price
  move_price-Idle time s = Every-bind (Idle s) (price_step s.price_process) _ (λ r.
      extra_flow-Idle time s.hawkes (record s {
        current_mid = r.0;
        price_process = r.1;
        step_count = s.step_count + 1;
        agents = map_values (tell_price r.0) s.agents;
      }))

  replace_quotes-Idle :
      (io : Inputs) (i : AgentId) (a : Trader F S) (oids : List ℕ) (s : Simulator F S)
      → s.tcp_client ≡ none
      → Idle s (replace_quotes io i a oids s)
  replace_quotes-Idle io i a [] s e = refl
  replace_quotes-Idle io i a (oid ∷ oids) s e =
      submit_cancels-Idle (with_rooms io.cancel_room 0 (oid ∷ oids)) s e

  react_if-Idle :
      (io : Inputs) (b : Option BookUpdateMsg) (k : Option (AgentId × Trader F S))
      (s : Simulator F S)
      → s.tcp_client ≡ none
      → Every (Idle s) (react_if io b k s)
  unfolding react
  react_if-Idle io none k s e = refl
  react_if-Idle io (some u) none s e = refl
  react_if-Idle io (some u) (some (i, a)) s e = Every-bind (Idle s) (act u s.step_count a) _ (λ r.
      let s' = record s { agents = insert_id i r.1 s.agents } in
      let s'' = replace_quotes io i r.1 (cancels_of r.1) s' in
      let h = replace_quotes-Idle io i r.1 (cancels_of r.1) s' e in
      submit_orders-Idle (with_rooms io.order_room 0 r.0) io.recv s'' (client-Idle s' s'' h e) ∙ h)

  sampled-Idle : (k : Option (Trader F S)) (s : Simulator F S) → Idle s (sampled k s)
  unfolding record_state
  sampled-Idle none s = refl
  sampled-Idle (some a) s = refl

  process_as-Idle :
      (t : EventType) (io : Inputs) (e : Event F) (s : Simulator F S)
      → s.tcp_client ≡ none
      → Every (Idle s) (process_as t io e s)
  process_as-Idle EventType.midprice_move io e s h = move_price-Idle e.timestamp s
  process_as-Idle EventType.agent_action io e s h =
      react_if-Idle io s.last_book_update (find_agent e.agent_id s.agents) s h
  process_as-Idle EventType.metrics_sample io e s h = sampled-Idle (lookup_id AgentId.mm s.agents) s
  process_as-Idle EventType.order_cancel io e s h = refl
  process_as-Idle EventType.book_update io e s h = refl

  pub round-Idle :
      (io : Inputs) (s : Simulator F S) → s.tcp_client ≡ none → Every (Idle s) (round io s)
  unfolding round
  round-Idle io s h =
      let s₁ = process_incoming io.incoming s in
      let i = process_polled-Idle s.ws_bridge io.incoming s h in
      Every-bind (Idle s) (hq.heappop s₁.event_queue) _ (λ r.
        let s₂ = record s₁ { event_queue = r.1; current_time = r.0.timestamp } in
        Every-chain (Idle s₂) (Idle s) (process_event io r.0 s₂) _
          (process_as-Idle r.0.event_type io r.0 s₂ (client-Idle s s₁ i h)) (λ u k. k ∙ i))
