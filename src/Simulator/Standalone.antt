-- ===== src/Simulator/Standalone.antt =====
-- A run without an engine ("standalone mode" of simulation/simulator.py).
pub mod Events
pub mod Running
use liquidity_arena.Prelude.{
  ℕ, zero, suc, ◌+◌, ◌%◌, ◌==◌, ◌≡◌, refl, sym, ap, ◌∙◌, Bool, true, false, Option, none, some,
  List, [], ◌∷◌, ◌>>=◌,
}
use liquidity_arena.Prelude.Int.{ℤ, pos}
use liquidity_arena.Prelude.Results.{Every, Every-some, Every-bind, Every-chain, Every-mono, either}
use liquidity_arena.Numeric.{Float, of_int, ◌⊗◌, Numpy, Rng, Sampler}
use liquidity_arena.Wire.Messages.{BookUpdateMsg}
use liquidity_arena.Wire.Client.{Client, Recv}
use liquidity_arena.Agents.Base.{AgentOrder}
use liquidity_arena.Metrics.{FillRecord, QuoteRecord, record_state}
use liquidity_arena.Metrics.Pnl.{Report, compute_report}
use liquidity_arena.Price.Process.{price_step}
use liquidity_arena.Price.Hawkes.{HawkesProcess, hawkes_step}
use liquidity_arena.Simulator.Traders.{
  AgentId, Trader, lookup_id, cancels_of, delay_seconds, act, insert_id, map_values, tell_price,
}
use liquidity_arena.Simulator.Events.{EventType, Event, Heapq}
use liquidity_arena.Simulator.State.{Simulator, Notice}
use liquidity_arena.Simulator.Exchange.{submit_orders, submit_cancels, send_and_read, cancel_each}
use liquidity_arena.Simulator.Frontend.{
  WsMessage, human_action, scenario, unknown_type, malformed, flash_crash, whale_buy, vol_spike,
  unknown_scenario, whale_sent, process_message, process_messages, process_polled, process_incoming,
  acted, Action, int_field,
}
use liquidity_arena.Simulator.Loop.{
  Inputs, with_rooms, move_at, schedule, schedule_action, schedule_actions, schedule_sample,
  schedule_step, schedule_steps, add_extra, extra_flow, move_price, replace_quotes, react,
  find_agent, react_if, sampled, process_as, process_event, round,
}

-- What trading changes: the client, the book, and the fills, quotes and counters of the metrics.
abbrev pub Trades : Type 0 → Type 0
Trades F =
    Option Client × Option BookUpdateMsg × List (FillRecord F) × List (QuoteRecord F) × ℕ × ℕ × ℕ

module _ {F S : Type 0} where
  abbrev pub trades : Simulator F S → Trades F
  trades s = (
    s.tcp_client, s.last_book_update, s.metrics.fills, s.metrics.quotes, s.metrics.total_fills,
    s.metrics.total_orders_sent, s.metrics.total_cancels,
  )

  -- Nothing has been traded from one simulator to the other.
  abbrev pub Idle : Simulator F S → Simulator F S → Type 0
  Idle s u = trades u ≡ trades s

  pub client-Idle : (s u : Simulator F S) → Idle s u → s.tcp_client ≡ none → u.tcp_client ≡ none
  client-Idle s u h e = ap {B = Option Client} (λ (r : Trades F). r.0) h ∙ e

whale_sent-none : (room : ℕ) (k : Option Client) → k ≡ none → whale_sent room k ≡ k
whale_sent-none room none e = refl
whale_sent-none room (some c) e = absurd (cc e)

module _ {F S : Type 0} ⦃fl : Float F⦄ where
  send_and_read-Idle :
      (orders : List (ℕ × AgentOrder)) (r : Recv) (k : Option Client) (s : Simulator F S)
      → k ≡ none
      → Idle s (send_and_read orders r k s)
  send_and_read-Idle orders r none s e = refl
  send_and_read-Idle orders r (some c) s e = absurd (cc e)

  pub submit_orders-Idle :
      (orders : List (ℕ × AgentOrder)) (r : Recv) (s : Simulator F S)
      → s.tcp_client ≡ none
      → Idle s (submit_orders orders r s)
  unfolding submit_orders
  submit_orders-Idle orders r s e = send_and_read-Idle orders r s.tcp_client s e

  cancel_each-Idle :
      (oids : List (ℕ × ℕ)) (k : Option Client) (s : Simulator F S)
      → k ≡ none
      → Idle s (cancel_each oids k s)
  cancel_each-Idle oids none s e = refl
  cancel_each-Idle oids (some c) s e = absurd (cc e)

  pub submit_cancels-Idle :
      (oids : List (ℕ × ℕ)) (s : Simulator F S)
      → s.tcp_client ≡ none
      → Idle s (submit_cancels oids s)
  unfolding submit_cancels
  submit_cancels-Idle oids s e = cancel_each-Idle oids s.tcp_client s e

  acted-Idle :
      (a : Action) (qty offset : Option ℤ) (s : Simulator F S) → Idle s (acted a qty offset s)
  acted-Idle a none offset s = refl
  acted-Idle a (some qty) none s = refl
  acted-Idle a (some qty) (some offset) s = refl

  process_message-Idle :
      (room : ℕ) (m : WsMessage) (s : Simulator F S)
      → s.tcp_client ≡ none
      → Idle s (process_message room m s)
  unfolding process_message
  process_message-Idle room (human_action a qty offset) s e =
      acted-Idle a (int_field (pos 100) qty) (int_field (pos 0) offset) s
  process_message-Idle room (scenario flash_crash) s e = refl
  process_message-Idle room (scenario whale_buy) s e =
      ap (λ k. trades (record s { tcp_client = k })) (whale_sent-none room s.tcp_client e)
  process_message-Idle room (scenario vol_spike) s e = refl
  process_message-Idle room (scenario unknown_scenario) s e = refl
  process_message-Idle room unknown_type s e = refl
  process_message-Idle room malformed s e = refl

  process_messages-Idle :
      (ms : List (ℕ × WsMessage)) (s : Simulator F S)
      → s.tcp_client ≡ none
      → Idle s (process_messages ms s)
  process_messages-Idle [] s e = refl
  process_messages-Idle ((room, m) ∷ ms) s e =
      let h = process_message-Idle room m s e in
      process_messages-Idle ms (process_message room m s)
        (client-Idle s (process_message room m s) h e)
      ∙ h

  pub process_polled-Idle :
      (b : Option (List (Notice F))) (ms : List (ℕ × WsMessage)) (s : Simulator F S)
      → s.tcp_client ≡ none
      → Idle s (process_polled b ms s)
  process_polled-Idle none ms s e = refl
  process_polled-Idle (some notices) ms s e = process_messages-Idle ms s e
