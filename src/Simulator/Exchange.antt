-- ===== src/Simulator/Exchange.antt =====
-- simulation/simulator.py: how `Simulator` sends an agent's orders and cancels and what it does with
-- the messages that it reads back. A send is given with the room that the socket has for it.
use liquidity_arena.Prelude.{ℕ, true, Option, none, some, List, [], ◌∷◌, false}
use liquidity_arena.Prelude.Int.{ℤ, pos, ◌+ℤ◌, half}
use liquidity_arena.Numeric.{Float, of_int}
use liquidity_arena.Wire.Messages.{NewOrderMsg, FillMsg, BookUpdateMsg}
use liquidity_arena.Wire.Client.{
  Outcome, returned, raised, Message, fill, book_update, Client, Recv, send_new_order, send_cancel,
  poll,
}
use liquidity_arena.Agents.Base.{AgentOrder, on_fill}
use liquidity_arena.Metrics.{FillRecord, MetricsEngine, record_fill, record_quote, record_cancel}
use liquidity_arena.Simulator.Traders.{on_base, map_values}
use liquidity_arena.Simulator.State.{Simulator, Notice, push}

abbrev pub order_msg : AgentOrder → NewOrderMsg
order_msg o = record {
  id = o.order_id;
  side = o.side;
  order_type = o.order_type;
  price = o.price;
  quantity = o.quantity;
  display_qty = pos 0;
}

-- `zip(prices, quantities)`, which ends with the shorter list.
abbrev pub zip : List ℤ → List ℤ → List (ℤ × ℤ)
zip (p ∷ ps) (q ∷ qs) = (p, q) ∷ zip ps qs
zip _ _ = []

module _ {F : Type 0} where
  -- A failed send is only logged.
  abbrev pub quote_counted : Outcome (Unit {0}) → ℕ → F → MetricsEngine F → MetricsEngine F
  quote_counted (returned u) oid time m =
      record_quote
        (record { order_id = oid; timestamp = time; cancel_timestamp = none; was_filled = false }) m
  quote_counted (raised e) oid time m = m

  abbrev pub cancel_counted : Outcome (Unit {0}) → ℕ → F → MetricsEngine F → MetricsEngine F
  cancel_counted (returned u) oid time m = record_cancel oid time m
  cancel_counted (raised e) oid time m = m

  unfoldable pub send_orders :
      List (ℕ × AgentOrder) → F → Client → MetricsEngine F → Client × MetricsEngine F
  send_orders [] time c m = (c, m)
  send_orders ((room, o) ∷ orders) time c m =
      let (result, c') = send_new_order room (order_msg o) c in
      send_orders orders time c' (quote_counted result o.order_id time m)

  unfoldable pub send_cancels :
      List (ℕ × ℕ) → F → Client → MetricsEngine F → Client × MetricsEngine F
  send_cancels [] time c m = (c, m)
  send_cancels ((room, oid) ∷ ids) time c m =
      let (result, c') = send_cancel room oid c in
      send_cancels ids time c' (cancel_counted result oid time m)

module _ {F S : Type 0} ⦃fl : Float F⦄ where
  abbrev mid_after : Simulator F S → ℤ
  mid_after s = elim s.last_book_update [
    | none ↦ s.current_mid
    | some update ↦ half (update.best_bid +ℤ update.best_ask)
  ]

  -- A `FillMsg` has no fees, so both are 0.0.
  abbrev pub fill_record : FillMsg → Simulator F S → FillRecord F
  fill_record f s = record {
    timestamp = s.current_time;
    price = f.price;
    quantity = f.quantity;
    side = pos 0;
    is_maker = true;
    mid_at_fill = s.current_mid;
    mid_after_fill = some (mid_after s);
    maker_fee = of_int (pos 0);
    taker_fee = of_int (pos 0);
  }

  unfoldable pub handle : Message → Simulator F S → Simulator F S
  handle (book_update update) s = record s { last_book_update = some update }
  handle (fill f) s = record s {
    agents = map_values (on_base (λ b. on_fill f b)) s.agents;
    metrics = record_fill (fill_record f s) s.metrics;
  }

  unfoldable pub handle_all : List Message → Simulator F S → Simulator F S
  handle_all [] s = s
  handle_all (m ∷ ms) s = handle_all ms (handle m s)

  -- The frontend gets the last book.
  abbrev pub push_book : Option BookUpdateMsg → Simulator F S → Simulator F S
  push_book none s = s
  push_book (some update) s =
      push
        (Notice.book s.current_time (zip update.bid_prices update.bid_quantities)
          (zip update.ask_prices update.ask_quantities))
        s

  -- An exception of `poll` is only logged.
  abbrev pub handled : Outcome (List Message) → Simulator F S → Simulator F S
  handled (returned ms) s = let s' = handle_all ms s in push_book s'.last_book_update s'
  handled (raised e) s = s

  -- "Read back fills and book updates."
  unfoldable pub read_back : Recv → Client → Simulator F S → Simulator F S
  read_back r c s = let p = poll r c in handled p.result (record s { tcp_client = some p.client })

  -- With no client ("standalone mode") nothing is sent.
  abbrev pub send_and_read :
      List (ℕ × AgentOrder) → Recv → Option Client → Simulator F S → Simulator F S
  send_and_read orders r none s = s
  send_and_read orders r (some c) s =
      let (c', m) = send_orders orders s.current_time c s.metrics in
      read_back r c' (record s { tcp_client = some c'; metrics = m })

  unfoldable pub submit_orders : List (ℕ × AgentOrder) → Recv → Simulator F S → Simulator F S
  submit_orders orders r s = send_and_read orders r s.tcp_client s

  abbrev pub cancel_each : List (ℕ × ℕ) → Option Client → Simulator F S → Simulator F S
  cancel_each oids none s = s
  cancel_each oids (some c) s =
      let (c', m) = send_cancels oids s.current_time c s.metrics in
      record s { tcp_client = some c'; metrics = m }

  unfoldable pub submit_cancels : List (ℕ × ℕ) → Simulator F S → Simulator F S
  submit_cancels oids s = cancel_each oids s.tcp_client s
