-- ===== src/Agents/Momentum/Signals.antt =====
-- The orders of `MomentumTrader` in simulation/agents/momentum_trader.py, and its averages.
use liquidity_arena.Prelude.{
  ℕ, ◌≡◌, refl, sym, ap, subst, ◌∙◌, ◌⊎◌, inl, inr, List, [], some, arith, Option-cases, Bool-cases,
  true, false,
}
use liquidity_arena.Prelude.Int.{ℤ, pos, ◌+ℤ◌, half, ◌≤ℤ◌, ◌<ℤ◌, int_laws}
use liquidity_arena.Prelude.Results.{Every, Every-some, Every-bind, either}
use liquidity_arena.Numeric.{Float, ◌⊕◌, ◌⊖◌, ◌⊗◌, of_int, lt, Rng, IsRng}
use liquidity_arena.Wire.Messages.{BookUpdateMsg}
use liquidity_arena.Agents.Base.{AgentOrder}
use liquidity_arena.Agents.Base.Sending.{Sends, order_of}
use liquidity_arena.Agents.Momentum.{
  MomentumTrader, update_emas, bullish, bearish, trade, on_book_update,
}

module _ {F : Type 0} ⦃fl : Float F⦄ where
  -- A market order of a quantity in range, to buy where the fast average is more than one above the
  -- slow one, and to sell where it is not and is more than one below.
  abbrev pub IsTrend : (min_qty max_qty : ℤ) (fast slow : F) → AgentOrder → Type 0
  IsTrend min_qty max_qty fast slow o =
      (o.order_type ≡ pos 1)
      × (o.price ≡ pos 0)
      × (min_qty ≤ℤ o.quantity)
      × (o.quantity ≤ℤ max_qty)
      × ((o.side ≡ pos 0) × (lt (slow ⊕ of_int (pos 1)) fast ≡ true)
          ⊎ ((o.side ≡ pos 1)
              × (lt (slow ⊕ of_int (pos 1)) fast ≡ false)
              × (lt fast (slow ⊖ of_int (pos 1)) ≡ true)))

  -- One step of an average with a weight towards a price.
  abbrev pub towards : F → F → F → F
  towards weight price average = weight ⊗ price ⊕ (of_int (pos 1) ⊖ weight) ⊗ average

module _ {F S : Type 0} ⦃fl : Float F⦄ ⦃g : Rng F S⦄ where
  -- Only what every agent has and the generator have changed.
  abbrev KeepsRest : MomentumTrader F S → MomentumTrader F S → Type 0
  KeepsRest t t' = t' ≡ record t { base = t'.base; rng = t'.rng }

  trade-Kept : (t : MomentumTrader F S) → Every (λ p. KeepsRest t p.1) (trade t)
  unfolding trade
  trade-Kept t =
      Every-bind (λ p. KeepsRest t p.1) (g.integers t.min_qty (t.max_qty +ℤ pos 1) t.rng) _
        (λ r.
          either (Every (λ p. KeepsRest t p.1)) (bullish t) refl
            (either (Every (λ p. KeepsRest t p.1)) (bearish t) refl refl))

  -- What a call on a book with the mid price does to a trader whose averages are set.
  pub record Trends (mid : F) (t t' : MomentumTrader F S) (orders : List AgentOrder) : Type 0 where
    pub fast : t'.fast_ema ≡ towards t.fast_alpha mid t.fast_ema
    pub slow : t'.slow_ema ≡ towards t.slow_alpha mid t.slow_ema
    pub sends : Sends (IsTrend t.min_qty t.max_qty t'.fast_ema t'.slow_ema) t.base orders t'.base
    pub rest :
        t'
        ≡ record t { base = t'.base; rng = t'.rng; fast_ema = t'.fast_ema; slow_ema = t'.slow_ema }

  -- A call that sends nothing.
  quiet-Trends :
      (mid : F) (t t' : MomentumTrader F S) (orders : List AgentOrder) (s : S)
      → ◌≡◌ {A = List AgentOrder × MomentumTrader F S}
          ([], record (update_emas mid t) { rng = s })
          (orders, t')
      → Trends mid t t' orders
  unfolding update_emas
  quiet-Trends mid t t' orders s e =
      subst (λ p. Trends mid t p.1 p.0) e
        (record { fast = refl; slow = refl; sends = inl (refl, refl); rest = refl })

  module _ (laws : IsRng g) where
    trade-Sends :
        (t t' : MomentumTrader F S) (orders : List AgentOrder)
        → trade t ≡ some (orders, t')
        → Sends (IsTrend t.min_qty t.max_qty t.fast_ema t.slow_ema) t.base orders t'.base
    unfolding trade
    trade-Sends t t' orders e =
        elim (Option-cases (g.integers t.min_qty (t.max_qty +ℤ pos 1) t.rng)) [
          | inl e1 ↦ absurd (ground arith)
          | inr ((qty, s), e1) ↦
              let (low, high) = laws.in_range t.min_qty (t.max_qty +ℤ pos 1) qty t.rng s e1 in
              let top : qty ≤ℤ t.max_qty = omega int_laws in
              elim (Bool-cases (bullish t)) [
                | inl b ↦ inr (
                  order_of (pos 0) (pos 1) (pos 0) qty t.base,
                  ground arith,
                  (refl, refl, low, top, inl (refl, b)),
                  refl,
                  ground arith,
                )
                | inr b ↦ elim (Bool-cases (bearish t)) [
                  | inl b1 ↦ inr (
                    order_of (pos 1) (pos 1) (pos 0) qty t.base,
                    ground arith,
                    (refl, refl, low, top, inr (refl, b, b1)),
                    refl,
                    ground arith,
                  )
                  | inr b1 ↦ inl (ground arith)
                ]
              ]
        ]

    -- A trade on averages that are set.
    trade-Trends :
        (mid : F) (t t' : MomentumTrader F S) (orders : List AgentOrder) (s : S)
        → trade (record (update_emas mid t) { rng = s }) ≡ some (orders, t')
        → Trends mid t t' orders
    unfolding update_emas
    trade-Trends mid t t' orders s e =
        let t2 = record (update_emas mid t) { rng = s } in
        let kept = Every-some (λ p. KeepsRest t2 p.1) (trade t2) (orders, t') (trade-Kept t2) e in
        let fast' = ap (λ x. x.fast_ema) kept in
        let slow' = ap (λ x. x.slow_ema) kept in
        record {
          fast = fast';
          slow = slow';
          sends =
              subst (λ a. Sends (IsTrend t.min_qty t.max_qty t'.fast_ema a) t.base orders t'.base)
                (sym slow')
                (subst
                  (λ a. Sends (IsTrend t.min_qty t.max_qty a t2.slow_ema) t.base orders t'.base)
                  (sym fast') (trade-Sends t2 t' orders e));
          rest =
              kept
              ∙ ap
                  (λ a. record t {
                    base = t'.base;
                    rng = t'.rng;
                    fast_ema = a;
                    slow_ema = t2.slow_ema;
                  })
                  (sym fast')
              ∙ ap
                  (λ a. record t {
                    base = t'.base;
                    rng = t'.rng;
                    fast_ema = t'.fast_ema;
                    slow_ema = a;
                  })
                  (sym slow');
        }

    -- On a book with both sides, a call that raises nothing moves each of the averages of a
    -- trader, if they are set, towards the mid price by its weight, and changes nothing else but
    -- the base agent and the generator of random numbers. It sends no order and leaves the base
    -- agent as it was, or sends and tracks one market order of a quantity from `min_qty` to
    -- `max_qty`, to buy only if the new fast average is more than one above the new slow one, and
    -- to sell only if it is more than one below.
    pub on_book_update-IsTrend :
        (update : BookUpdateMsg) (step : ℕ) (t t' : MomentumTrader F S) (orders : List AgentOrder)
        → pos 0 <ℤ update.best_bid
        → pos 0 <ℤ update.best_ask
        → t.initialized ≡ true
        → on_book_update update step t ≡ some (orders, t')
        → Trends (of_int (half (update.best_bid +ℤ update.best_ask))) t t' orders
    unfolding on_book_update
    on_book_update-IsTrend update step t t' orders hb ha hi e =
        let mid : F = of_int (half (update.best_bid +ℤ update.best_ask)) in
        let t1 = update_emas mid t in
        let s = (g.random t1.rng).1 in
        elim (Bool-cases (lt t.trade_prob (g.random t1.rng).0)) [
          | inl b ↦ quiet-Trends mid t t' orders s (ground arith)
          | inr b ↦
              let made : trade (record t1 { rng = s }) ≡ some (orders, t') = ground arith in
              trade-Trends mid t t' orders s made
        ]

  -- The first book with both sides sets both averages to its mid price, and sends nothing.
  pub on_book_update-first :
      (update : BookUpdateMsg) (step : ℕ) (t : MomentumTrader F S)
      → pos 0 <ℤ update.best_bid
      → pos 0 <ℤ update.best_ask
      → t.initialized ≡ false
      → let mid : F = of_int (half (update.best_bid +ℤ update.best_ask)) in
        on_book_update update step t
        ≡ some ([], record t { fast_ema = mid; slow_ema = mid; initialized = true })
  unfolding on_book_update
  on_book_update-first update step t hb ha hi = ground arith
