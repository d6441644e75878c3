-- ===== src/Agents/Human/Queue.antt =====
-- The queue of `HumanAgent` in simulation/agents/human_agent.py: what the player asked for between
-- two calls of `on_book_update` is what the second call sends.
use liquidity_arena.Prelude.{
  ℕ, ◌+◌, ◌≡◌, refl, sym, ap, ◌∙◌, List, [], ◌∷◌, ◌++◌, Option, none, some, arith, if◌then◌else◌,
  append_assoc, append-nil, Bool-cases, Option-cases, ◌⊎◌, inl, inr,
}
use liquidity_arena.Prelude.Int.{ℤ, pos, ◌+ℤ◌, ◌-ℤ◌, leb_ℤ, ◌==ℤ◌, ◌<ℤ◌}
use liquidity_arena.Numeric.{Float}
use liquidity_arena.Wire.Messages.{BookUpdateMsg}
use liquidity_arena.Agents.Base.{AgentOrder}
use liquidity_arena.Agents.Human.{
  HumanAgent, on_book_update, enqueue, place_market_order, limit_price, place_limit_order,
  cancel_all_quotes,
}

-- The calls that the player's clicks make.
pub data Click : Type 0 where
  market : (side qty : ℤ) → Click
  limit : (side offset qty : ℤ) → Click
  cancel : Click

-- The orders that clicks ask for on a book, numbered upwards: every market order, and the limit
-- orders whose price on that book is positive.
abbrev order : ℕ → ℤ → ℤ → ℤ → ℤ → AgentOrder
order oid side' type price' qty = record {
  order_id = oid;
  side = side';
  order_type = type;
  price = price';
  quantity = qty;
}

abbrev pub asked : Option BookUpdateMsg → ℕ → List Click → List AgentOrder
asked book n [] = []
asked book n (market side qty ∷ cs) = order n side (pos 1) (pos 0) qty ∷ asked book (n + 1) cs
asked none n (limit side offset qty ∷ cs) = asked none n cs
asked (some b) n (limit side offset qty ∷ cs) =
    let price = if side ==ℤ pos 0 then b.best_bid -ℤ offset else b.best_ask +ℤ offset in
    let accepted = order n side (pos 0) price qty ∷ asked (some b) (n + 1) cs in
    let refused = asked (some b) n cs in if leb_ℤ price (pos 0) then refused else accepted
asked book n (cancel ∷ cs) = asked book n cs

module _ {F : Type 0} ⦃fl : Float F⦄ where
  abbrev pub click : Click → HumanAgent F → HumanAgent F
  click (market side qty) h = place_market_order side qty h
  click (limit side offset qty) h = place_limit_order side offset qty h
  click cancel h = cancel_all_quotes h

  abbrev pub clicks : List Click → HumanAgent F → HumanAgent F
  clicks [] h = h
  clicks (c ∷ cs) h = clicks cs (click c h)

  -- A limit order is queued if there is a book and its price on it is positive.
  place_limit_order-cases :
      (side offset qty : ℤ) (h : HumanAgent F)
      → (place_limit_order side offset qty h ≡ h)
          × ((n : ℕ) (cs : List Click)
              → asked h.last_book n (limit side offset qty ∷ cs) ≡ asked h.last_book n cs)
        ⊎ ((price : ℤ) × (place_limit_order side offset qty h ≡ enqueue side (pos 0) price qty h)
            × (pos 0 <ℤ price)
            × ((n : ℕ) (cs : List Click)
                → asked h.last_book n (limit side offset qty ∷ cs)
                  ≡ order n side (pos 0) price qty ∷ asked h.last_book (n + 1) cs))
  unfolding place_limit_order
  place_limit_order-cases side offset qty h = elim (Option-cases h.last_book) [
    | inl e ↦ inl (ground arith, λ n cs. ground arith)
    | inr (b, e) ↦
        let price = limit_price side offset b in
        elim (Bool-cases (leb_ℤ price (pos 0))) [
          | inl low ↦ inl (ground arith, λ n cs. ground arith)
          | inr high ↦ inr (price, ground arith, ground arith, λ n cs. ground arith)
        ]
  ]

  enqueue_lem :
      (side type price qty : ℤ) (h : HumanAgent F)
      → let h' = enqueue side type price qty h in
        (h'.pending_orders ≡ h.pending_orders ++ order h.base.next_id side type price qty ∷ [])
        × (h'.last_book ≡ h.last_book)
        × (h'.base.next_id ≡ h.base.next_id + 1)
  unfolding enqueue
  enqueue_lem side type price qty h = (refl, refl, refl)

  clicks-asked :
      (cs : List Click) (h : HumanAgent F)
      → (clicks cs h).pending_orders ≡ h.pending_orders ++ asked h.last_book h.base.next_id cs
  unfolding place_market_order cancel_all_quotes
  clicks-asked [] h = sym (append-nil h.pending_orders)
  clicks-asked (market side qty ∷ cs) h =
      clicks-asked cs (place_market_order side qty h) ∙ append_assoc h.pending_orders _ _
  clicks-asked (limit side offset qty ∷ cs) h = elim (place_limit_order-cases side offset qty h) [
    | inl (same, skips) ↦
        ap (λ k. (clicks cs k).pending_orders) same
        ∙ clicks-asked cs h
        ∙ ap (λ l. h.pending_orders ++ l) (sym (skips h.base.next_id cs))
    | inr (price, made, _, asks) ↦
        let h' = enqueue side (pos 0) price qty h in
        let (queue, book, next) = enqueue_lem side (pos 0) price qty h in
        ap (λ k. (clicks cs k).pending_orders) made
        ∙ clicks-asked cs h'
        ∙ ap (λ l. l ++ asked h'.last_book h'.base.next_id cs) queue
        ∙ append_assoc h.pending_orders _ _
        ∙ ap (λ l. h.pending_orders ++ l) (sym (asks h.base.next_id cs))
  ]
  clicks-asked (cancel ∷ cs) h = clicks-asked cs (cancel_all_quotes h)

  -- For an agent with no order queued, the call of `on_book_update` that follows any clicks sends
  -- exactly the orders that the clicks ask for on the agent's last book, in order and with its next
  -- ids: every market order and every limit order with a positive price, which is the offset below
  -- the best bid for side 0 and above the best ask for any other. Nothing stays queued.
  pub on_book_update-asked :
      (cs : List Click) (h : HumanAgent F) (update : BookUpdateMsg) (step : ℕ)
      → h.pending_orders ≡ []
      → let (orders, h') = on_book_update update step (clicks cs h) in
        (orders ≡ asked h.last_book h.base.next_id cs)
        × (h'.pending_orders ≡ [])
        × (h'.last_book ≡ some update)
  unfolding on_book_update
  on_book_update-asked cs h update step empty =
      (clicks-asked cs h ∙ ap (λ l. l ++ asked h.last_book h.base.next_id cs) empty, refl, refl)
