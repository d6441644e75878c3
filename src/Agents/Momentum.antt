-- ===== src/Agents/Momentum.antt =====
-- simulation/agents/momentum_trader.py: `MomentumTrader`.
pub mod Signals
use liquidity_arena.Prelude.{
  ℕ, Bool, true, false, Option, some, List, [], ◌∷◌, ◌||◌, ◌>>=◌, if◌then◌else◌,
}
use liquidity_arena.Prelude.Int.{ℤ, pos, ◌+ℤ◌, half, leb_ℤ}
use liquidity_arena.Numeric.{Float, ◌⊕◌, ◌⊖◌, ◌⊗◌, of_int, lt, Rng}
use liquidity_arena.Wire.Messages.{BookUpdateMsg}
use liquidity_arena.Agents.Base.{BaseAgent, Reaction, new_agent, place}

pub record MomentumTrader (F S : Type 0) : Type 0 where
  pub base : BaseAgent F
  pub fast_alpha : F
  pub slow_alpha : F
  pub trade_prob : F
  pub min_qty : ℤ
  pub max_qty : ℤ
  pub rng : S
  pub fast_ema : F
  pub slow_ema : F
  pub initialized : Bool

module _ {F : Type 0} ⦃fl : Float F⦄ where
  -- `2.0 / (period + 1)`
  abbrev alpha_of : ℤ → Option F
  alpha_of period = fl.div (of_int (pos 2)) (of_int (period +ℤ pos 1))

  -- `alpha * mid + (1 - alpha) * ema`
  abbrev pub ema_step : F → F → F → F
  ema_step alpha mid ema = alpha ⊗ mid ⊕ (of_int (pos 1) ⊖ alpha) ⊗ ema

module _ {F S : Type 0} ⦃fl : Float F⦄ where
  -- `__init__`, from the class-level counter of agents, with the state of the generator that is
  -- seeded. The result has the counter's new value.
  unfoldable pub new_momentum :
      ℕ
      → F
      → (fast_period slow_period : ℤ) → F
      → (min_qty max_qty : ℤ) → S
      → Option (MomentumTrader F S × ℕ)
  new_momentum agent_counter tick fast_period slow_period prob low high seeded = do
    let (b, agent_counter') = new_agent agent_counter tick
    fast ← alpha_of fast_period
    slow ← alpha_of slow_period
    let trader : MomentumTrader F S = record {
      base = b;
      fast_alpha = fast;
      slow_alpha = slow;
      trade_prob = prob;
      min_qty = low;
      max_qty = high;
      rng = seeded;
      fast_ema = of_int (pos 0);
      slow_ema = of_int (pos 0);
      initialized = false;
    }
    some (trader, agent_counter')

module _ {F S : Type 0} ⦃fl : Float F⦄ ⦃g : Rng F S⦄ where
  abbrev quiet : MomentumTrader F S → Reaction (MomentumTrader F S)
  quiet t = some ([], t)

  abbrev send : ℤ → ℤ → MomentumTrader F S → Reaction (MomentumTrader F S)
  send side qty t =
      let (o, b) = place side (pos 1) (pos 0) qty t.base in some (o ∷ [], record t { base = b })

  unfoldable pub update_emas : F → MomentumTrader F S → MomentumTrader F S
  update_emas mid t = record t {
    fast_ema = ema_step t.fast_alpha mid t.fast_ema;
    slow_ema = ema_step t.slow_alpha mid t.slow_ema;
  }

  -- `self._fast_ema > self._slow_ema + 1` and `self._fast_ema < self._slow_ema - 1`
  abbrev pub bullish : MomentumTrader F S → Bool
  bullish t = lt (t.slow_ema ⊕ of_int (pos 1)) t.fast_ema

  abbrev pub bearish : MomentumTrader F S → Bool
  bearish t = lt t.fast_ema (t.slow_ema ⊖ of_int (pos 1))

  -- From `qty = …` on.
  unfoldable pub trade : MomentumTrader F S → Reaction (MomentumTrader F S)
  unfolding place
  trade t = do
    (qty, s) ← g.integers t.min_qty (t.max_qty +ℤ pos 1) t.rng
    let t' = record t { rng = s }
    if bullish t then send (pos 0) qty t' else if bearish t then send (pos 1) qty t' else quiet t'

  unfoldable pub on_book_update :
      BookUpdateMsg → ℕ → MomentumTrader F S → Reaction (MomentumTrader F S)
  on_book_update update step t =
      let mid = of_int (half (update.best_bid +ℤ update.best_ask)) in
      let t' = update_emas mid t in
      let (draw, s) = g.random t'.rng in
      let t'' = record t' { rng = s } in
      if leb_ℤ update.best_bid (pos 0) || leb_ℤ update.best_ask (pos 0)
      then quiet t
      else if t.initialized
      then (if lt t.trade_prob draw then quiet t'' else trade t'')
      else quiet (record t { fast_ema = mid; slow_ema = mid; initialized = true })
