-- ===== src/Agents/Noise.antt =====
-- simulation/agents/noise_trader.py: `NoiseTrader`.
pub mod Orders
use liquidity_arena.Prelude.{ℕ, some, List, [], ◌∷◌, ◌||◌, ◌>>=◌, if◌then◌else◌}
use liquidity_arena.Prelude.Int.{ℤ, pos, ◌+ℤ◌, ◌-ℤ◌, half, leb_ℤ, ◌==ℤ◌}
use liquidity_arena.Numeric.{Float, lt, Rng}
use liquidity_arena.Wire.Messages.{BookUpdateMsg}
use liquidity_arena.Agents.Base.{BaseAgent, Reaction, new_agent, place}

pub record NoiseTrader (F S : Type 0) : Type 0 where
  pub base : BaseAgent F
  pub order_prob : F
  pub spread_range : ℤ
  pub min_qty : ℤ
  pub max_qty : ℤ
  pub market_order_prob : F
  pub rng : S

module _ {F S : Type 0} ⦃fl : Float F⦄ where
  -- `__init__`, from the class-level counter of agents, with the state of the generator that is
  -- seeded. The result has the counter's new value.
  unfoldable pub new_noise :
      ℕ
      → F
      → (order_prob : F) (spread_range min_qty max_qty : ℤ) (market_order_prob : F) → S
      → NoiseTrader F S × ℕ
  new_noise agent_counter tick prob spread low high market_prob seeded =
      let (b, agent_counter') = new_agent agent_counter tick in
      (
        record {
          base = b;
          order_prob = prob;
          spread_range = spread;
          min_qty = low;
          max_qty = high;
          market_order_prob = market_prob;
          rng = seeded;
        },
        agent_counter',
      )

module _ {F S : Type 0} ⦃fl : Float F⦄ ⦃g : Rng F S⦄ where
  -- What `on_book_update` returns with no order, and with one that it places.
  abbrev quiet : NoiseTrader F S → Reaction (NoiseTrader F S)
  quiet t = some ([], t)

  abbrev send : ℤ → ℤ → ℤ → ℤ → NoiseTrader F S → Reaction (NoiseTrader F S)
  send side type price qty t =
      let (o, b) = place side type price qty t.base in some (o ∷ [], record t { base = b })

  -- "Limit order: random offset from mid."
  unfoldable pub limit_order : ℤ → ℤ → ℤ → NoiseTrader F S → Reaction (NoiseTrader F S)
  unfolding place
  limit_order mid side qty t = do
    (offset, s) ← g.integers (pos 1) (t.spread_range +ℤ pos 1) t.rng
    send side (pos 0) (if side ==ℤ pos 0 then mid -ℤ offset else mid +ℤ offset) qty
        (record t { rng = s })

  -- From "Random side." on.
  unfoldable pub random_order : ℤ → NoiseTrader F S → Reaction (NoiseTrader F S)
  unfolding place
  random_order mid t = do
    (side, s₁) ← g.integers (pos 0) (pos 2) t.rng
    (qty, s₂) ← g.integers t.min_qty (t.max_qty +ℤ pos 1) s₁
    let (draw, s₃) = g.random s₂
    let t' = record t { rng = s₃ }
    if lt draw t.market_order_prob
        then send side (pos 1) (pos 0) qty t'
        else limit_order mid side qty t'

  unfoldable pub on_book_update : BookUpdateMsg → ℕ → NoiseTrader F S → Reaction (NoiseTrader F S)
  on_book_update update step t =
      if leb_ℤ update.best_bid (pos 0) || leb_ℤ update.best_ask (pos 0)
      then quiet t
      else (let mid = half (update.best_bid +ℤ update.best_ask) in
          let (draw, s) = g.random t.rng in
          let t' = record t { rng = s } in
          if lt t.order_prob draw then quiet t' else random_order mid t')
