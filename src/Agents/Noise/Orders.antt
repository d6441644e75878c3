-- ===== src/Agents/Noise/Orders.antt =====
-- The orders of `NoiseTrader` in simulation/agents/noise_trader.py.
use liquidity_arena.Prelude.{
  ℕ, ◌-◌, ◌^◌, ◌≡◌, refl, ◌⊎◌, inl, inr, ◌≢◌, List, none, some, arith, if◌then◌else◌, Option-cases,
  Bool-cases, ◌||◌,
}
use liquidity_arena.Prelude.Int.{
  ℤ, pos, ◌+ℤ◌, ◌-ℤ◌, half, leb_ℤ, ◌==ℤ◌, negsuc, ◌≤ℤ◌, ◌<ℤ◌, int_laws,
}
use liquidity_arena.Prelude.Results.{Every, Every-some, Every-bind, either}
use liquidity_arena.Numeric.{Float, lt, Rng, IsRng}
use liquidity_arena.Wire.Messages.{BookUpdateMsg}
use liquidity_arena.Agents.Base.{AgentOrder, Reaction}
use liquidity_arena.Agents.Base.Sending.{Sends, order_of}
use liquidity_arena.Agents.Noise.{NoiseTrader, limit_order, random_order, on_book_update}

side-cases : (side : ℤ) → pos 0 ≤ℤ side → side <ℤ pos 2 → (side ≡ pos 0) ⊎ (side ≡ pos 1)
side-cases side lo hi = ground arith

-- A market order, or a limit order at most `spread_range` ticks from the mid price: a bid below it,
-- an ask above it.
abbrev pub IsPriced : (spread_range mid : ℤ) → AgentOrder → Type 0
IsPriced spread_range mid o =
    (o.order_type ≡ pos 1) × (o.price ≡ pos 0)
    ⊎ ((o.order_type ≡ pos 0)
        × (o.side ≡ pos 0)
        × (mid -ℤ spread_range ≤ℤ o.price)
        × (o.price <ℤ mid))
    ⊎ ((o.order_type ≡ pos 0)
        × (o.side ≡ pos 1)
        × (mid <ℤ o.price)
        × (o.price ≤ℤ mid +ℤ spread_range))

pub record IsNoiseOrder (min_qty max_qty spread_range mid : ℤ) (o : AgentOrder) : Type 0 where
  pub sided : (o.side ≡ pos 0) ⊎ (o.side ≡ pos 1)
  pub min_le : min_qty ≤ℤ o.quantity
  pub le_max : o.quantity ≤ℤ max_qty
  pub priced : IsPriced spread_range mid o

limit-IsPriced :
    (oid : ℕ) (spread mid side' qty offset : ℤ)
    → (side' ≡ pos 0) ⊎ (side' ≡ pos 1)
    → pos 1 ≤ℤ offset
    → offset <ℤ spread +ℤ pos 1
    → IsPriced spread mid (record {
      order_id = oid;
      side = side';
      order_type = pos 0;
      price = if side' ==ℤ pos 0 then mid -ℤ offset else mid +ℤ offset;
      quantity = qty;
    })
limit-IsPriced oid spread mid side' qty offset (inl h) low high =
    rw h (inr (inl (refl, refl, omega int_laws, omega int_laws)))
limit-IsPriced oid spread mid side' qty offset (inr h) low high =
    rw h (inr (inr (refl, refl, omega int_laws, omega int_laws)))

module _ {F S : Type 0} ⦃fl : Float F⦄ ⦃g : Rng F S⦄ where
  -- Only what every agent has and the generator have changed.
  abbrev pub KeepsRest : NoiseTrader F S → NoiseTrader F S → Type 0
  KeepsRest t t' = t' ≡ record t { base = t'.base; rng = t'.rng }

  abbrev Kept : NoiseTrader F S → Reaction (NoiseTrader F S) → Type 0
  Kept t r = Every (λ p. KeepsRest t p.1) r

  limit_order-Kept : (mid side qty : ℤ) (t : NoiseTrader F S) → Kept t (limit_order mid side qty t)
  unfolding limit_order
  limit_order-Kept mid side qty t =
      Every-bind (λ p. KeepsRest t p.1) (g.integers (pos 1) (t.spread_range +ℤ pos 1) t.rng) _
        (λ r. refl)

  random_order-Kept : (mid : ℤ) (t : NoiseTrader F S) → Kept t (random_order mid t)
  unfolding random_order
  random_order-Kept mid t =
      Every-bind (λ p. KeepsRest t p.1) (g.integers (pos 0) (pos 2) t.rng) _
        (λ (side, s1).
          Every-bind (λ p. KeepsRest t p.1) (g.integers t.min_qty (t.max_qty +ℤ pos 1) s1) _
            (λ (qty, s2).
              either (Kept t) (lt (g.random s2).0 t.market_order_prob) refl
                (limit_order-Kept mid side qty (record t { rng = (g.random s2).1 }))))

  on_book_update-Kept :
      (update : BookUpdateMsg) (step : ℕ) (t : NoiseTrader F S)
      → Kept t (on_book_update update step t)
  unfolding on_book_update
  on_book_update-Kept update step t =
      let mid = half (update.best_bid +ℤ update.best_ask) in
      either (Kept t) (leb_ℤ update.best_bid (pos 0) || leb_ℤ update.best_ask (pos 0)) refl (
        either (Kept t) (lt t.order_prob (g.random t.rng).0) refl
          (random_order-Kept mid (record t { rng = (g.random t.rng).1 })))

  module _ (laws : IsRng g) where
    limit_order-Sends :
        (mid side qty : ℤ) (t t' : NoiseTrader F S) (orders : List AgentOrder)
        → (side ≡ pos 0) ⊎ (side ≡ pos 1)
        → t.min_qty ≤ℤ qty
        → qty ≤ℤ t.max_qty
        → limit_order mid side qty t ≡ some (orders, t')
        → Sends (IsNoiseOrder t.min_qty t.max_qty t.spread_range mid) t.base orders t'.base
    unfolding limit_order
    limit_order-Sends mid side qty t t' orders hs lo hi e =
        elim (Option-cases (g.integers (pos 1) (t.spread_range +ℤ pos 1) t.rng)) [
          | inl e1 ↦ absurd (ground arith)
          | inr ((offset, s), e1) ↦
              let (low, high) = laws.in_range (pos 1) (t.spread_range +ℤ pos 1) offset t.rng s e1 in
              let price = if side ==ℤ pos 0 then mid -ℤ offset else mid +ℤ offset in
              let priced' =
                limit-IsPriced t.base.next_id t.spread_range mid side qty offset hs low high in
              inr (
                order_of side (pos 0) price qty t.base,
                ground arith,
                record { sided = hs; min_le = lo; le_max = hi; priced = priced' },
                refl,
                ground arith,
              )
        ]

    random_order-Sends :
        (mid : ℤ) (t t' : NoiseTrader F S) (orders : List AgentOrder)
        → random_order mid t ≡ some (orders, t')
        → Sends (IsNoiseOrder t.min_qty t.max_qty t.spread_range mid) t.base orders t'.base
    unfolding random_order
    random_order-Sends mid t t' orders e = elim (Option-cases (g.integers (pos 0) (pos 2) t.rng)) [
      | inl e1 ↦ absurd (ground arith)
      | inr ((side, s1), e1) ↦ elim (Option-cases (g.integers t.min_qty (t.max_qty +ℤ pos 1) s1)) [
        | inl e2 ↦ absurd (ground arith)
        | inr ((qty, s2), e2) ↦
            let (side_low, side_high) = laws.in_range (pos 0) (pos 2) side t.rng s1 e1 in
            let (low, high) = laws.in_range t.min_qty (t.max_qty +ℤ pos 1) qty s1 s2 e2 in
            let sided' = side-cases side side_low side_high in
            let t3 = record t { rng = (g.random s2).1 } in
            elim (Bool-cases (lt (g.random s2).0 t.market_order_prob)) [
              | inl b ↦ inr (
                order_of side (pos 1) (pos 0) qty t.base,
                ground arith,
                record {
                  sided = sided';
                  min_le = low;
                  le_max = omega int_laws;
                  priced = inl (refl, refl);
                },
                refl,
                ground arith,
              )
              | inr b ↦
                  let made : limit_order mid side qty t3 ≡ some (orders, t') = ground arith in
                  limit_order-Sends mid side qty t3 t' orders sided' low (omega int_laws) made
            ]
      ]
    ]

    on_book_update-Sends :
        (update : BookUpdateMsg) (step : ℕ) (t t' : NoiseTrader F S) (orders : List AgentOrder)
        → on_book_update update step t ≡ some (orders, t')
        → let mid = half (update.best_bid +ℤ update.best_ask) in
          Sends (IsNoiseOrder t.min_qty t.max_qty t.spread_range mid) t.base orders t'.base
    unfolding on_book_update
    on_book_update-Sends update step t t' orders e =
        let mid = half (update.best_bid +ℤ update.best_ask) in
        let t1 = record t { rng = (g.random t.rng).1 } in
        elim (Bool-cases (leb_ℤ update.best_bid (pos 0) || leb_ℤ update.best_ask (pos 0))) [
          | inl b ↦ inl (ground arith)
          | inr b ↦ elim (Bool-cases (lt t.order_prob (g.random t.rng).0)) [
            | inl b1 ↦ inl (ground arith)
            | inr b1 ↦
                let made : random_order mid t1 ≡ some (orders, t') = ground arith in
                random_order-Sends mid t1 t' orders made
          ]
        ]

    -- A call of `on_book_update` that raises nothing changes only the base agent and the generator of
    -- random numbers. It sends no order and leaves the base agent as it was, or sends and tracks one
    -- order: on side 0 or 1, of a quantity from `min_qty` to `max_qty`, and priced as a market order
    -- or at most `spread_range` ticks from the mid price, a bid below it and an ask above it.
    pub on_book_update-IsNoiseOrder :
        (update : BookUpdateMsg) (step : ℕ) (t t' : NoiseTrader F S) (orders : List AgentOrder)
        → on_book_update update step t ≡ some (orders, t')
        → let mid = half (update.best_bid +ℤ update.best_ask) in
          Sends (IsNoiseOrder t.min_qty t.max_qty t.spread_range mid) t.base orders t'.base
          × KeepsRest t t'
    on_book_update-IsNoiseOrder update step t t' orders e = (
      on_book_update-Sends update step t t' orders e,
      Every-some (λ p. KeepsRest t p.1) (on_book_update update step t) (orders, t')
          (on_book_update-Kept update step t) e,
    )

    -- With a quantity range and a spread range that are not empty and lie within the integers of 64
    -- bits, from which numpy draws, no call raises.
    pub on_book_update-ne-none :
        (update : BookUpdateMsg) (step : ℕ) (t : NoiseTrader F S)
        → negsuc (2 ^ 63 - 1) ≤ℤ t.min_qty
        → t.min_qty ≤ℤ t.max_qty
        → t.max_qty <ℤ pos (2 ^ 63)
        → pos 1 ≤ℤ t.spread_range
        → t.spread_range <ℤ pos (2 ^ 63)
        → on_book_update update step t ≢ none
    unfolding on_book_update random_order limit_order
    on_book_update-ne-none update step t low hq high hs wide e =
        let s = (g.random t.rng).1 in
        let (side, s1, e1) =
          laws.draws (pos 0) (pos 2) s (omega arith) (omega arith) (omega arith) in
        let (qty, s2, e2) =
          laws.draws t.min_qty (t.max_qty +ℤ pos 1) s1 low (omega int_laws) (omega int_laws) in
        let s3 = (g.random s2).1 in
        let (offset, s4, e3) =
          laws.draws (pos 1) (t.spread_range +ℤ pos 1) s3 (omega arith) (omega int_laws)
            (omega int_laws) in
        ground arith
