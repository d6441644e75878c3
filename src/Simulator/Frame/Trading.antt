-- ===== src/Simulator/Frame/Trading.antt =====
-- Trading leaves the clock and the queue of events as they were (`_submit_orders` and `_submit_cancels` of
-- simulation/simulator.py).
use liquidity_arena.Prelude.{ℕ, ◌≡◌, refl, ◌∙◌, Option, none, some, List, [], ◌∷◌}
use liquidity_arena.Numeric.{Float}
use liquidity_arena.Wire.Messages.{BookUpdateMsg}
use liquidity_arena.Wire.Client.{
  Client, Outcome, returned, raised, Message, fill, book_update, Recv, poll, send_new_order,
  send_cancel,
}
use liquidity_arena.Agents.Base.{AgentOrder, on_fill}
use liquidity_arena.Metrics.{MetricsEngine, record_fill, record_quote, record_cancel}
use liquidity_arena.Simulator.Traders.{on_base}
use liquidity_arena.Simulator.State.{Simulator}
use liquidity_arena.Simulator.Exchange.{
  order_msg, handle, handle_all, handled, read_back, push_book, quote_counted, cancel_counted,
  send_orders, send_cancels, send_and_read, cancel_each, submit_orders, submit_cancels,
}
use liquidity_arena.Simulator.Frame.{Frame, Frame-refl, Frame-trans, Frame-of, ids-map_values}

module _ {F : Type 0} ⦃fl : Float F⦄ where
  quote_counted-history :
      (o : Outcome (Unit {0})) (oid : ℕ) (time : F) (m : MetricsEngine F)
      → (quote_counted o oid time m).pnl_history ≡ m.pnl_history
  unfolding record_quote
  quote_counted-history (returned u) oid time m = refl
  quote_counted-history (raised e) oid time m = refl

  cancel_counted-history :
      (o : Outcome (Unit {0})) (oid : ℕ) (time : F) (m : MetricsEngine F)
      → (cancel_counted o oid time m).pnl_history ≡ m.pnl_history
  unfolding record_cancel
  cancel_counted-history (returned u) oid time m = refl
  cancel_counted-history (raised e) oid time m = refl

  send_orders-history :
      (orders : List (ℕ × AgentOrder)) (time : F) (c : Client) (m : MetricsEngine F)
      → (send_orders orders time c m).1.pnl_history ≡ m.pnl_history
  unfolding send_orders
  send_orders-history [] time c m = refl
  send_orders-history ((room, o) ∷ orders) time c m =
      let (result, c') = send_new_order room (order_msg o) c in
      send_orders-history orders time c' (quote_counted result o.order_id time m)
      ∙ quote_counted-history result o.order_id time m

  send_cancels-history :
      (oids : List (ℕ × ℕ)) (time : F) (c : Client) (m : MetricsEngine F)
      → (send_cancels oids time c m).1.pnl_history ≡ m.pnl_history
  unfolding send_cancels
  send_cancels-history [] time c m = refl
  send_cancels-history ((room, oid) ∷ oids) time c m =
      let (result, c') = send_cancel room oid c in
      send_cancels-history oids time c' (cancel_counted result oid time m)
      ∙ cancel_counted-history result oid time m

module _ {F S : Type 0} ⦃fl : Float F⦄ where
  handle_all-Frame : (ms : List Message) (s : Simulator F S) → Frame s (handle_all ms s)
  unfolding handle_all handle record_fill
  handle_all-Frame [] s = Frame-refl s
  handle_all-Frame (fill f ∷ ms) s =
      Frame-trans (Frame-of s (ids-map_values (on_base (λ b. on_fill f b)) s.agents) refl)
        (handle_all-Frame ms (handle (fill f) s))
  handle_all-Frame (book_update u ∷ ms) s =
      Frame-trans (Frame-of s refl refl) (handle_all-Frame ms (handle (book_update u) s))

  push_book-Frame : (b : Option BookUpdateMsg) (s : Simulator F S) → Frame s (push_book b s)
  push_book-Frame none s = Frame-refl s
  push_book-Frame (some update) s = Frame-of s refl refl

  handled-Frame : (o : Outcome (List Message)) (s : Simulator F S) → Frame s (handled o s)
  handled-Frame (returned ms) s =
      let s' = handle_all ms s in
      Frame-trans (handle_all-Frame ms s) (push_book-Frame s'.last_book_update s')
  handled-Frame (raised e) s = Frame-refl s

  read_back-Frame : (r : Recv) (c : Client) (s : Simulator F S) → Frame s (read_back r c s)
  unfolding read_back
  read_back-Frame r c s =
      Frame-trans (Frame-of s refl refl)
        (handled-Frame (poll r c).result (record s { tcp_client = some (poll r c).client }))

  send_and_read-Frame :
      (orders : List (ℕ × AgentOrder)) (r : Recv) (k : Option Client) (s : Simulator F S)
      → Frame s (send_and_read orders r k s)
  send_and_read-Frame orders r none s = Frame-refl s
  send_and_read-Frame orders r (some c) s =
      let (c', m) = send_orders orders s.current_time c s.metrics in
      Frame-trans (Frame-of s refl (send_orders-history orders s.current_time c s.metrics))
        (read_back-Frame r c' (record s { tcp_client = some c'; metrics = m }))

  pub submit_orders-Frame :
      (orders : List (ℕ × AgentOrder)) (r : Recv) (s : Simulator F S)
      → Frame s (submit_orders orders r s)
  unfolding submit_orders
  submit_orders-Frame orders r s = send_and_read-Frame orders r s.tcp_client s

  cancel_each-Frame :
      (oids : List (ℕ × ℕ)) (k : Option Client) (s : Simulator F S)
      → Frame s (cancel_each oids k s) × ((cancel_each oids k s).agents ≡ s.agents)
  cancel_each-Frame oids none s = (Frame-refl s, refl)
  cancel_each-Frame oids (some c) s =
      (Frame-of s refl (send_cancels-history oids s.current_time c s.metrics), refl)

  pub submit_cancels-Frame :
      (oids : List (ℕ × ℕ)) (s : Simulator F S)
      → Frame s (submit_cancels oids s) × ((submit_cancels oids s).agents ≡ s.agents)
  unfolding submit_cancels
  submit_cancels-Frame oids s = cancel_each-Frame oids s.tcp_client s
