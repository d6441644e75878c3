-- ===== src/Agents/Informed/Orders.antt =====
-- The orders of `InformedTrader` in simulation/agents/informed_trader.py.
use liquidity_arena.Prelude.{
  ℕ, ◌-◌, ◌^◌, ◌≡◌, refl, ◌⊎◌, inl, inr, List, [], ◌∷◌, some, arith, if◌then◌else◌, Option-cases,
  Bool-cases, false, ◌||◌,
}
use liquidity_arena.Prelude.Int.{
  ℤ, pos, negsuc, ◌+ℤ◌, ◌-ℤ◌, half, abs, leb_ℤ, ltb_ℤ, ◌≤ℤ◌, ◌<ℤ◌, int_laws,
}
use liquidity_arena.Prelude.Results.{Every, Every-some, Every-bind, either}
use liquidity_arena.Numeric.{Float, lt, Rng, IsRng}
use liquidity_arena.Wire.Messages.{BookUpdateMsg}
use liquidity_arena.Agents.Base.{AgentOrder, Reaction, next_order_id, track_order}
use liquidity_arena.Agents.Base.Sending.{Sends, order_of}
use liquidity_arena.Agents.Informed.{InformedTrader, trade, on_book_update}

-- A market order of a quantity in range, on the side of an edge that reaches the threshold.
pub record IsInformedOrder (min_qty max_qty threshold edge : ℤ) (o : AgentOrder) : Type 0 where
  pub market : o.order_type ≡ pos 1
  pub unpriced : o.price ≡ pos 0
  pub min_le : min_qty ≤ℤ o.quantity
  pub le_max : o.quantity ≤ℤ max_qty
  pub reached : threshold ≤ℤ abs edge
  pub sided : (o.side ≡ pos 0) × (pos 0 <ℤ edge) ⊎ ((o.side ≡ pos 1) × (edge ≤ℤ pos 0))

-- The edge of the true price over the mid price.
abbrev pub edge_of : ℤ → BookUpdateMsg → ℤ
edge_of true_price update = true_price -ℤ half (update.best_bid +ℤ update.best_ask)

module _ {F S : Type 0} ⦃fl : Float F⦄ ⦃g : Rng F S⦄ where
  -- Only what every agent has and the generator have changed.
  abbrev pub KeepsRest : InformedTrader F S → InformedTrader F S → Type 0
  KeepsRest t t' = t' ≡ record t { base = t'.base; rng = t'.rng }

  abbrev Kept : InformedTrader F S → Reaction (InformedTrader F S) → Type 0
  Kept t r = Every (λ p. KeepsRest t p.1) r

  trade-Kept : (edge : ℤ) (t : InformedTrader F S) → Kept t (trade edge t)
  unfolding trade
  trade-Kept edge t =
      Every-bind (λ p. KeepsRest t p.1) (g.integers t.min_qty (t.max_qty +ℤ pos 1) t.rng) _
        (λ r. refl)

  on_book_update-Kept :
      (update : BookUpdateMsg) (step : ℕ) (t : InformedTrader F S)
      → Kept t (on_book_update update step t)
  unfolding on_book_update
  on_book_update-Kept update step t =
      let edge = edge_of t.true_price update in
      either (Kept t) (leb_ℤ update.best_bid (pos 0) || leb_ℤ update.best_ask (pos 0)) refl (
        either (Kept t) (leb_ℤ t.true_price (pos 0)) refl (
          either (Kept t) (ltb_ℤ (abs edge) t.threshold) refl (
            either (Kept t) (lt t.aggression (g.random t.rng).0) refl
              (trade-Kept edge (record t { rng = (g.random t.rng).1 })))))

  module _ (laws : IsRng g) where
    trade-Sends :
        (edge : ℤ) (t t' : InformedTrader F S) (orders : List AgentOrder)
        → t.threshold ≤ℤ abs edge
        → trade edge t ≡ some (orders, t')
        → Sends (IsInformedOrder t.min_qty t.max_qty t.threshold edge) t.base orders t'.base
    unfolding trade
    trade-Sends edge t t' orders h e =
        elim (Option-cases (g.integers t.min_qty (t.max_qty +ℤ pos 1) t.rng)) [
          | inl e1 ↦ absurd (ground arith)
          | inr ((qty, s), e1) ↦
              let (low, high) = laws.in_range t.min_qty (t.max_qty +ℤ pos 1) qty t.rng s e1 in
              inr (
                order_of (if ltb_ℤ (pos 0) edge then pos 0 else pos 1) (pos 1) (pos 0) qty t.base,
                ground arith,
                record {
                  market = refl;
                  unpriced = refl;
                  min_le = low;
                  le_max = omega int_laws;
                  reached = h;
                  sided = ground arith;
                },
                refl,
                ground arith,
              )
        ]

    on_book_update-Sends :
        (update : BookUpdateMsg) (step : ℕ) (t t' : InformedTrader F S) (orders : List AgentOrder)
        → on_book_update update step t ≡ some (orders, t')
        → let edge = edge_of t.true_price update in
          Sends (IsInformedOrder t.min_qty t.max_qty t.threshold edge) t.base orders t'.base
    unfolding on_book_update
    on_book_update-Sends update step t t' orders e =
        let edge = edge_of t.true_price update in
        let t1 = record t { rng = (g.random t.rng).1 } in
        elim (Bool-cases (leb_ℤ update.best_bid (pos 0) || leb_ℤ update.best_ask (pos 0))) [
          | inl b ↦ inl (ground arith)
          | inr b ↦ elim (Bool-cases (leb_ℤ t.true_price (pos 0))) [
            | inl b1 ↦ inl (ground arith)
            | inr b1 ↦ elim (Bool-cases (ltb_ℤ (abs edge) t.threshold)) [
              | inl b2 ↦ inl (ground arith)
              | inr b2 ↦ elim (Bool-cases (lt t.aggression (g.random t.rng).0)) [
                | inl b3 ↦ inl (ground arith)
                | inr b3 ↦
                    let made : trade edge t1 ≡ some (orders, t') = ground arith in
                    trade-Sends edge t1 t' orders (ground arith) made
              ]
            ]
          ]
        ]

    -- A call of `on_book_update` that raises nothing changes only the base agent and the generator of
    -- random numbers. It sends no order and leaves the base agent as it was, or sends and tracks one
    -- market order of a quantity from `min_qty` to `max_qty`: only if the true price is at least
    -- `threshold` from the mid price, to buy if it is above and to sell if it is not.
    pub on_book_update-IsInformedOrder :
        (update : BookUpdateMsg) (step : ℕ) (t t' : InformedTrader F S) (orders : List AgentOrder)
        → on_book_update update step t ≡ some (orders, t')
        → let edge = edge_of t.true_price update in
          Sends (IsInformedOrder t.min_qty t.max_qty t.threshold edge) t.base orders t'.base
          × KeepsRest t t'
    on_book_update-IsInformedOrder update step t t' orders e = (
      on_book_update-Sends update step t t' orders e,
      Every-some (λ p. KeepsRest t p.1) (on_book_update update step t) (orders, t')
          (on_book_update-Kept update step t) e,
    )

    -- An edge that only equals the threshold is traded on, if the agent's draw lets it act.
    on_book_update-at_threshold :
        (update : BookUpdateMsg) (step : ℕ) (t : InformedTrader F S)
        → pos 0 <ℤ update.best_bid
        → pos 0 <ℤ update.best_ask
        → pos 0 <ℤ t.true_price
        → abs (edge_of t.true_price update) ≡ t.threshold
        → lt t.aggression (g.random t.rng).0 ≡ false
        → negsuc (2 ^ 63 - 1) ≤ℤ t.min_qty
        → t.min_qty ≤ℤ t.max_qty
        → t.max_qty <ℤ pos (2 ^ 63)
        → (o : AgentOrder) × (t' : InformedTrader F S) × (on_book_update update step t
            ≡ some (o ∷ [], t'))
    unfolding on_book_update trade
    on_book_update-at_threshold update step t hb ha hp he hd low hq high =
        let edge = edge_of t.true_price update in
        let (qty, s, e) =
          laws.draws t.min_qty (t.max_qty +ℤ pos 1) (g.random t.rng).1 low (omega int_laws)
            (omega int_laws) in
        let o = order_of (if ltb_ℤ (pos 0) edge then pos 0 else pos 1) (pos 1) (pos 0) qty t.base in
        (o, record t { base = track_order o (next_order_id t.base).1; rng = s }, ground arith)
