-- ===== src/Simulator/Sends.antt =====
-- What `_submit_cancels` and the first loop of `_submit_orders` of simulation/simulator.py put on the
-- wire and into the metrics.
use liquidity_arena.Prelude.{
  ℕ, ◌^◌, ◌≡◌, ◌≤◌, ◌<◌, refl, sym, ap, ◌∙◌, true, false, none, some, List, [], ◌∷◌, ◌++◌, map,
  append_assoc, append-nil, All,
}
use liquidity_arena.Prelude.Int.{ℤ, pos}
use liquidity_arena.Numeric.{Float}
use liquidity_arena.Wire.Struct.{Code}
use liquidity_arena.Wire.Messages.{MsgType, new_order_format, cancel_order_format}
use liquidity_arena.Wire.Client.{Client, Socket}
use liquidity_arena.Wire.Client.Requests.{
  AllFit, IsRequest, send_new_order-IsRequest, send_cancel-IsRequest,
}
use liquidity_arena.Agents.Base.{AgentOrder}
use liquidity_arena.Metrics.{MetricsEngine}
use liquidity_arena.Metrics.Log.{Call, quote, cancel, run}
use liquidity_arena.Simulator.Exchange.{order_msg, send_orders, send_cancels}

abbrev flat : List (List ℕ) → List ℕ
flat [] = []
flat (xs ∷ xss) = xs ++ flat xss

-- The client whose connected socket has taken these frames too.
abbrev pub sent_all : Client → Socket → List (List ℕ) → Client
sent_all c s frames = record c { sock = some (record s { sent = s.sent ++ flat frames }) }

-- One frame for each list of fields, in order.
abbrev pub AreRequests : MsgType → List Code → List (List ℤ) → List (List ℕ) → Type 0
AreRequests t cs [] [] = Unit
AreRequests t cs (vs ∷ rest) (frame ∷ frames) =
    IsRequest t cs vs frame × AreRequests t cs rest frames
AreRequests t cs _ _ = ⊥

sent_all-nil : (c : Client) (s : Socket) → c.sock ≡ some s → c ≡ sent_all c s []
sent_all-nil c s h =
    ap (λ k. record c { sock = k })
      (h ∙ ap (λ bytes. some (record s { sent = bytes })) (sym (append-nil s.sent)))

sent_all-cons :
    (c : Client) (s : Socket) (frame : List ℕ) (frames : List (List ℕ))
    → let s' = record s { sent = s.sent ++ frame } in
      sent_all (record c { sock = some s' }) s' frames ≡ sent_all c s (frame ∷ frames)
sent_all-cons c s frame frames =
    ap (λ bytes. record c { sock = some (record s { sent = bytes }) })
      (append_assoc s.sent frame (flat frames))

-- The fields of an order as the engine reads them, with no display quantity.
abbrev pub order_fields : AgentOrder → List ℤ
order_fields o = pos o.order_id ∷ o.side ∷ o.order_type ∷ o.price ∷ o.quantity ∷ pos 0 ∷ []

module _ {F : Type 0} where
  abbrev pub cancels_of : List (ℕ × ℕ) → F → List (Call F)
  cancels_of [] time = []
  cancels_of ((room, oid) ∷ ids) time = cancel oid time ∷ cancels_of ids time

  abbrev pub quotes_of : List (ℕ × AgentOrder) → F → List (Call F)
  quotes_of [] time = []
  quotes_of ((room, o) ∷ orders) time =
      quote (record {
        order_id = o.order_id;
        timestamp = time;
        cancel_timestamp = none;
        was_filled = false;
      })
      ∷ quotes_of orders time

module _ {F : Type 0} ⦃fl : Float F⦄ where
  -- On a connected socket that has room for 13 bytes at each send, the cancels of any ids below
  -- 2^64 are sent as one frame each, in order, in which the engine finds the cancel of that id, and
  -- each is recorded in the metrics as a cancel at the current time.
  pub send_cancels-AreRequests :
      (ids : List (ℕ × ℕ)) (time : F) (c : Client) (m : MetricsEngine F) (s : Socket)
      → c.sock ≡ some s
      → s.connected ≡ true
      → All (λ r. (13 ≤ r.0) × (r.1 < 2 ^ 64)) ids
      → (frames : List (List ℕ)) × (send_cancels ids time c m
          ≡ (sent_all c s frames, run (cancels_of ids time) m))
        × AreRequests MsgType.cancel_order cancel_order_format (map (λ r. pos r.1 ∷ []) ids) frames
  unfolding send_cancels
  send_cancels-AreRequests [] time c m s hs hc h = ([], ap (λ k. (k, m)) (sent_all-nil c s hs), tt)
  send_cancels-AreRequests ((room, oid) ∷ ids) time c m s hs hc ((fits, small), h) =
      let (frame, e, request) = send_cancel-IsRequest room oid c s hs hc fits small in
      let s' = record s { sent = s.sent ++ frame } in
      let c' = record c { sock = some s' } in
      let m' = run (cancel oid time ∷ []) m in
      let (frames, es, requests) = send_cancels-AreRequests ids time c' m' s' refl hc h in
      (
        frame ∷ frames,
        rw e (es ∙ ap (λ k. (k, run (cancels_of ids time) m')) (sent_all-cons c s frame frames)),
        (request, requests),
      )

  -- On a connected socket that has room for 31 bytes at each send, orders whose fields are in the
  -- ranges of the format are sent as one frame each, in order, in which the engine finds a
  -- NEW_ORDER message with the order's id, side, type, price and quantity, in this order, and a
  -- display quantity of 0, and each is recorded in the metrics as a quote of
  -- its id at the current time.
  pub send_orders-AreRequests :
      (orders : List (ℕ × AgentOrder)) (time : F) (c : Client) (m : MetricsEngine F) (s : Socket)
      → c.sock ≡ some s
      → s.connected ≡ true
      → All (λ r. (31 ≤ r.0) × AllFit new_order_format (order_fields r.1)) orders
      → (frames : List (List ℕ)) × (send_orders orders time c m
          ≡ (sent_all c s frames, run (quotes_of orders time) m))
        × AreRequests MsgType.new_order new_order_format (map (λ r. order_fields r.1) orders) frames
  unfolding send_orders
  send_orders-AreRequests [] time c m s hs hc h = ([], ap (λ k. (k, m)) (sent_all-nil c s hs), tt)
  send_orders-AreRequests ((room, o) ∷ orders) time c m s hs hc ((fits, small), h) =
      let (frame, e, request) = send_new_order-IsRequest room (order_msg o) c s hs hc fits small in
      let s' = record s { sent = s.sent ++ frame } in
      let c' = record c { sock = some s' } in
      let m' = run (quotes_of ((room, o) ∷ []) time) m in
      let (frames, es, requests) = send_orders-AreRequests orders time c' m' s' refl hc h in
      (
        frame ∷ frames,
        rw e (es ∙ ap (λ k. (k, run (quotes_of orders time) m')) (sent_all-cons c s frame frames)),
        (request, requests),
      )
