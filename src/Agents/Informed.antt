-- ===== src/Agents/Informed.antt =====
-- simulation/agents/informed_trader.py: `InformedTrader`.
pub mod Orders
use liquidity_arena.Prelude.{ℕ, some, List, [], ◌∷◌, ◌||◌, ◌>>=◌, if◌then◌else◌}
use liquidity_arena.Prelude.Int.{ℤ, pos, ◌+ℤ◌, ◌-ℤ◌, half, abs, ltb_ℤ, leb_ℤ}
use liquidity_arena.Numeric.{Float, lt, Rng}
use liquidity_arena.Wire.Messages.{BookUpdateMsg}
use liquidity_arena.Agents.Base.{BaseAgent, Reaction, new_agent, place}

pub record InformedTrader (F S : Type 0) : Type 0 where
  pub base : BaseAgent F
  pub threshold : ℤ
  pub aggression : F
  pub min_qty : ℤ
  pub max_qty : ℤ
  pub rng : S
  pub true_price : ℤ

module _ {F S : Type 0} ⦃fl : Float F⦄ where
  -- `__init__`, from the class-level counter of agents, with the state of the generator that is
  -- seeded. The result has the counter's new value.
  unfoldable pub new_informed :
      ℕ → F → (threshold : ℤ) (aggression : F) (min_qty max_qty : ℤ) → S → InformedTrader F S × ℕ
  new_informed agent_counter tick edge prob low high seeded =
      let (b, agent_counter') = new_agent agent_counter tick in
      (
        record {
          base = b;
          threshold = edge;
          aggression = prob;
          min_qty = low;
          max_qty = high;
          rng = seeded;
          true_price = pos 0;
        },
        agent_counter',
      )

module _ {F S : Type 0} ⦃fl : Float F⦄ ⦃g : Rng F S⦄ where
  unfoldable pub set_true_price : ℤ → InformedTrader F S → InformedTrader F S
  set_true_price price t = record t { true_price = price }

  abbrev quiet : InformedTrader F S → Reaction (InformedTrader F S)
  quiet t = some ([], t)

  -- A market order on the side that the edge points to.
  unfoldable pub trade : ℤ → InformedTrader F S → Reaction (InformedTrader F S)
  unfolding place
  trade edge t = do
    (qty, s) ← g.integers t.min_qty (t.max_qty +ℤ pos 1) t.rng
    let (o, b) = place (if ltb_ℤ (pos 0) edge then pos 0 else pos 1) (pos 1) (pos 0) qty t.base
    some (o ∷ [], record t { base = b; rng = s })

  unfoldable pub on_book_update :
      BookUpdateMsg → ℕ → InformedTrader F S → Reaction (InformedTrader F S)
  on_book_update update step t =
      let mid = half (update.best_bid +ℤ update.best_ask) in
      let edge = t.true_price -ℤ mid in
      let (draw, s) = g.random t.rng in
      let t' = record t { rng = s } in
      if leb_ℤ update.best_bid (pos 0) || leb_ℤ update.best_ask (pos 0)
      then quiet t
      else if leb_ℤ t.true_price (pos 0)
      then quiet t
      else if ltb_ℤ (abs edge) t.threshold
      then quiet t
      else if lt t.aggression draw
      then quiet t'
      else trade edge t'
