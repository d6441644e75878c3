-- ===== src/Agents/LatencyArb/Position.antt =====
-- The orders of `LatencyArb` in simulation/agents/latency_arb.py, and its position limit.
use liquidity_arena.Prelude.{
  ℕ, ◌≡◌, refl, ◌⊎◌, inl, inr, List, some, arith, Option-cases, Bool-cases, ◌||◌, ◌&&◌,
}
use liquidity_arena.Prelude.Int.{
  ℤ, pos, ◌+ℤ◌, ◌-ℤ◌, neg, half, abs, min, leb_ℤ, ltb_ℤ, ◌≤ℤ◌, ◌<ℤ◌, int_laws,
}
use liquidity_arena.Prelude.Results.{Every-some}
use liquidity_arena.Numeric.{Float, lt, literal, Rng}
use liquidity_arena.Wire.Messages.{BookUpdateMsg}
use liquidity_arena.Agents.Base.{AgentOrder}
use liquidity_arena.Agents.Base.Sending.{Sends, Sends-mono, order_of}
use liquidity_arena.Agents.LatencyArb.{
  LatencyArb, pick_off, flatten, try_flatten, try_sell, try_buy, on_book_update,
}
use liquidity_arena.Agents.LatencyArb.Kept.{KeepsRest, on_book_update-Kept}

min-le : (a b : ℤ) → (min a b ≤ℤ a) × (min a b ≤ℤ b)
unfolding min
min-le a b = ground arith

-- A market order that buys below the true price or sells above it, by more than the threshold, and
-- that filled whole keeps the position within the limit on its side; or a limit order beside the
-- mid price that filled whole does not take the position across zero.
abbrev pub IsBuy : (edge threshold max_position inventory : ℤ) → AgentOrder → Type 0
IsBuy edge threshold max_position inventory o =
    (o.order_type ≡ pos 1)
    × (o.side ≡ pos 0)
    × (threshold <ℤ edge)
    × (pos 0 <ℤ o.quantity)
    × (inventory +ℤ o.quantity ≤ℤ max_position)

abbrev pub IsSell : (edge threshold max_position inventory : ℤ) → AgentOrder → Type 0
IsSell edge threshold max_position inventory o =
    (o.order_type ≡ pos 1)
    × (o.side ≡ pos 1)
    × (threshold <ℤ edge)
    × (pos 0 <ℤ o.quantity)
    × (neg max_position ≤ℤ inventory -ℤ o.quantity)

abbrev pub IsFlattening : (mid max_position inventory : ℤ) → AgentOrder → Type 0
IsFlattening mid max_position inventory o =
    (o.order_type ≡ pos 0)
    × (half max_position <ℤ abs inventory)
    × ((o.side ≡ pos 1)
          × (o.price ≡ mid +ℤ pos 1)
          × (pos 0 <ℤ inventory)
          × (o.quantity ≤ℤ inventory)
        ⊎ ((o.side ≡ pos 0)
            × (o.price ≡ mid -ℤ pos 1)
            × (inventory ≤ℤ pos 0)
            × (o.quantity ≤ℤ neg inventory)))

module _ {F S : Type 0} ⦃fl : Float F⦄ ⦃g : Rng F S⦄ where
  abbrev pub IsArbOrder : BookUpdateMsg → LatencyArb F S → AgentOrder → Type 0
  IsArbOrder update t o =
      let inventory = t.base.stats.inventory in
      IsBuy (t.true_price -ℤ update.best_ask) t.threshold t.max_position inventory o
      ⊎ IsSell (update.best_bid -ℤ t.true_price) t.threshold t.max_position inventory o
      ⊎ IsFlattening (half (update.best_bid +ℤ update.best_ask)) t.max_position inventory o

  -- A picked-off quantity is positive and leaves the room that was given.
  pick_off-Sends :
      (side' room : ℤ) (t t' : LatencyArb F S) (orders : List AgentOrder)
      → pick_off side' room t ≡ some (orders, t')
      → Sends
          (λ o.
            (o.order_type ≡ pos 1)
            × (o.side ≡ side')
            × (pos 0 <ℤ o.quantity)
            × (o.quantity ≤ℤ room))
          t.base
          orders
          t'.base
  unfolding pick_off
  pick_off-Sends side' room t t' orders e =
      elim (Option-cases (g.integers t.min_qty (t.max_qty +ℤ pos 1) t.rng)) [
        | inl e1 ↦ absurd (ground arith)
        | inr ((drawn, s), e1) ↦
            let (_, fits) = min-le drawn room in
            elim (Bool-cases (ltb_ℤ (pos 0) (min drawn room))) [
              | inr b ↦ inl (ground arith)
              | inl b ↦ inr (
                order_of side' (pos 1) (pos 0) (min drawn room) t.base,
                ground arith,
                (refl, refl, ground arith, fits),
                refl,
                ground arith,
              )
            ]
      ]

  flatten-Sends :
      (mid : ℤ) (t t' : LatencyArb F S) (orders : List AgentOrder)
      → half t.max_position <ℤ abs t.base.stats.inventory
      → flatten mid t ≡ some (orders, t')
      → Sends (IsFlattening mid t.max_position t.base.stats.inventory) t.base orders t'.base
  unfolding flatten
  flatten-Sends mid t t' orders h e =
      let inventory = t.base.stats.inventory in
      elim (Bool-cases (ltb_ℤ (pos 0) inventory)) [
        | inl b ↦ inr (
          order_of (pos 1) (pos 0) (mid +ℤ pos 1) (min inventory t.max_qty) t.base,
          ground arith,
          (refl, h, inl (refl, refl, ground arith, (min-le inventory t.max_qty).0)),
          refl,
          ground arith,
        )
        | inr b ↦ inr (
          order_of (pos 0) (pos 0) (mid -ℤ pos 1) (min (neg inventory) t.max_qty) t.base,
          ground arith,
          (refl, h, inr (refl, refl, ground arith, (min-le (neg inventory) t.max_qty).0)),
          refl,
          ground arith,
        )
      ]

  try_flatten-Sends :
      (update : BookUpdateMsg) (t t' : LatencyArb F S) (orders : List AgentOrder)
      → try_flatten (half (update.best_bid +ℤ update.best_ask)) t ≡ some (orders, t')
      → Sends (IsArbOrder update t) t.base orders t'.base
  unfolding try_flatten
  try_flatten-Sends update t t' orders e =
      let mid = half (update.best_bid +ℤ update.best_ask) in
      let far = ltb_ℤ (half t.max_position) (abs t.base.stats.inventory) in
      let t1 = record t { rng = (g.random t.rng).1 } in
      elim (Bool-cases far) [
        | inr b ↦ inl (ground arith)
        | inl b ↦ elim (Bool-cases (lt (g.random t.rng).0 (literal 3 1))) [
          | inr b1 ↦ inl (ground arith)
          | inl b1 ↦
              let made : flatten mid t1 ≡ some (orders, t') = ground arith in
              Sends-mono _ (IsArbOrder update t) t.base t'.base orders (λ o h. inr (inr h))
                (flatten-Sends mid t1 t' orders (ground arith) made)
        ]
      ]

  try_sell-Sends :
      (update : BookUpdateMsg) (t t' : LatencyArb F S) (orders : List AgentOrder)
      → try_sell update (half (update.best_bid +ℤ update.best_ask)) t ≡ some (orders, t')
      → Sends (IsArbOrder update t) t.base orders t'.base
  unfolding try_sell
  try_sell-Sends update t t' orders e =
      let mid = half (update.best_bid +ℤ update.best_ask) in
      let inventory = t.base.stats.inventory in
      let room = t.max_position +ℤ inventory in
      let signal =
        ltb_ℤ t.threshold (update.best_bid -ℤ t.true_price)
        && ltb_ℤ (neg t.max_position) inventory in
      let t1 = record t { rng = (g.random t.rng).1 } in
      elim (Bool-cases signal) [
        | inr b ↦
            let made : try_flatten mid t ≡ some (orders, t') = ground arith in
            try_flatten-Sends update t t' orders made
        | inl b ↦ elim (Bool-cases (lt (g.random t.rng).0 t.trade_prob)) [
          | inr b1 ↦
              let made : try_flatten mid t1 ≡ some (orders, t') = ground arith in
              try_flatten-Sends update t1 t' orders made
          | inl b1 ↦
              let made : pick_off (pos 1) room t1 ≡ some (orders, t') = ground arith in
              let edge : t.threshold <ℤ update.best_bid -ℤ t.true_price = ground arith in
              Sends-mono _ (IsArbOrder update t) t.base t'.base orders
                (λ o (k, s, q, r). inr (inl (k, s, edge, q, omega int_laws)))
                (pick_off-Sends (pos 1) room t1 t' orders made)
        ]
      ]

  try_buy-Sends :
      (update : BookUpdateMsg) (t t' : LatencyArb F S) (orders : List AgentOrder)
      → try_buy update (half (update.best_bid +ℤ update.best_ask)) t ≡ some (orders, t')
      → Sends (IsArbOrder update t) t.base orders t'.base
  unfolding try_buy
  try_buy-Sends update t t' orders e =
      let mid = half (update.best_bid +ℤ update.best_ask) in
      let inventory = t.base.stats.inventory in
      let room = t.max_position -ℤ inventory in
      let signal =
        ltb_ℤ t.threshold (t.true_price -ℤ update.best_ask) && ltb_ℤ inventory t.max_position in
      let t1 = record t { rng = (g.random t.rng).1 } in
      elim (Bool-cases signal) [
        | inr b ↦
            let made : try_sell update mid t ≡ some (orders, t') = ground arith in
            try_sell-Sends update t t' orders made
        | inl b ↦ elim (Bool-cases (lt (g.random t.rng).0 t.trade_prob)) [
          | inr b1 ↦
              let made : try_sell update mid t1 ≡ some (orders, t') = ground arith in
              try_sell-Sends update t1 t' orders made
          | inl b1 ↦
              let made : pick_off (pos 0) room t1 ≡ some (orders, t') = ground arith in
              let edge : t.threshold <ℤ t.true_price -ℤ update.best_ask = ground arith in
              Sends-mono _ (IsArbOrder update t) t.base t'.base orders
                (λ o (k, s, q, r). inl (k, s, edge, q, omega int_laws))
                (pick_off-Sends (pos 0) room t1 t' orders made)
        ]
      ]

  on_book_update-Sends :
      (update : BookUpdateMsg) (step : ℕ) (t t' : LatencyArb F S) (orders : List AgentOrder)
      → on_book_update update step t ≡ some (orders, t')
      → Sends (IsArbOrder update t) t.base orders t'.base
  unfolding on_book_update
  on_book_update-Sends update step t t' orders e =
      let mid = half (update.best_bid +ℤ update.best_ask) in
      elim (Bool-cases (leb_ℤ update.best_bid (pos 0) || leb_ℤ update.best_ask (pos 0))) [
        | inl b ↦ inl (ground arith)
        | inr b ↦ elim (Bool-cases (leb_ℤ t.true_price (pos 0))) [
          | inl b1 ↦ inl (ground arith)
          | inr b1 ↦
              let made : try_buy update mid t ≡ some (orders, t') = ground arith in
              try_buy-Sends update t t' orders made
        ]
      ]

  -- A call of `on_book_update` that raises nothing changes only the base agent and the generator of
  -- random numbers. It sends no order and leaves the base agent as it was, or sends and tracks one
  -- order: a market order to buy more than `threshold` below the true price that filled whole keeps
  -- the inventory at `max_position` at most, or to sell more than `threshold` above it that filled
  -- whole keeps the inventory at `-max_position` at least, or, with an inventory of more than half
  -- the limit, a limit order one tick from the mid price and against the inventory that filled
  -- whole does not take it across zero.
  pub on_book_update-IsArbOrder :
      (update : BookUpdateMsg) (step : ℕ) (t t' : LatencyArb F S) (orders : List AgentOrder)
      → on_book_update update step t ≡ some (orders, t')
      → Sends (IsArbOrder update t) t.base orders t'.base × KeepsRest t t'
  on_book_update-IsArbOrder update step t t' orders e = (
    on_book_update-Sends update step t t' orders e,
    Every-some (λ p. KeepsRest t p.1) (on_book_update update step t) (orders, t')
        (on_book_update-Kept update step t) e,
  )
