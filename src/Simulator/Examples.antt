-- ===== src/Simulator/Examples.antt =====
-- Sends and messages of a simulator over whole numbers.
use liquidity_arena.Prelude.{ℕ, ◌≡◌, refl, List, [], ◌∷◌, map, arith}
use liquidity_arena.Prelude.Int.{pos}
use liquidity_arena.Numeric.Whole.{whole}
use liquidity_arena.Wire.Messages.{MsgType, FillMsg, cancel_order_format, new_order_format}
use liquidity_arena.Wire.Client.{Message, fill, book_update}
use liquidity_arena.Agents.Base.{AgentOrder}
use liquidity_arena.Agents.Samples.{book, resting}
use liquidity_arena.Metrics.Log.{run}
use liquidity_arena.Simulator.Exchange.{handle_all, send_orders, send_cancels}
use liquidity_arena.Simulator.Samples.{socket, client, engine, simulator}
use liquidity_arena.Simulator.Messages.{IsHandled, handle_all-IsHandled}
use liquidity_arena.Simulator.Sends.{
  sent_all, AreRequests, order_fields, cancels_of, quotes_of, send_cancels-AreRequests,
  send_orders-AreRequests,
}

abbrev sold : FillMsg
sold = record { maker_id = 1; taker_id = 900; price = pos 10000; quantity = pos 40 }

abbrev messages : List Message
messages = fill sold ∷ book_update book ∷ fill sold ∷ []

handle_all-IsHandled_example : IsHandled messages simulator (handle_all messages simulator)
handle_all-IsHandled_example = handle_all-IsHandled messages simulator

abbrev ids : List (ℕ × ℕ)
ids = (100, 1) ∷ (80, 2) ∷ []

send_cancels-AreRequests_example :
    (frames : List (List ℕ)) × (send_cancels ids (pos 3) client engine
      ≡ (sent_all client socket frames, run (cancels_of ids (pos 3)) engine))
    × AreRequests MsgType.cancel_order cancel_order_format (map (λ r. pos r.1 ∷ []) ids) frames
send_cancels-AreRequests_example =
    send_cancels-AreRequests ids (pos 3) client engine socket refl refl (omega arith)

abbrev orders : List (ℕ × AgentOrder)
orders = (100, resting) ∷ (60, resting) ∷ []

send_orders-AreRequests_example :
    (frames : List (List ℕ)) × (send_orders orders (pos 3) client engine
      ≡ (sent_all client socket frames, run (quotes_of orders (pos 3)) engine))
    × AreRequests MsgType.new_order new_order_format (map (λ r. order_fields r.1) orders) frames
send_orders-AreRequests_example =
    send_orders-AreRequests orders (pos 3) client engine socket refl refl (omega arith)
