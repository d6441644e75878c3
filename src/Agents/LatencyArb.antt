-- ===== src/Agents/LatencyArb.antt =====
-- simulation/agents/latency_arb.py: `LatencyArb`.
pub mod Kept
pub mod Position
use liquidity_arena.Prelude.{
  ℕ, Bool, true, false, some, List, [], ◌∷◌, ◌||◌, ◌&&◌, ◌>>=◌, if◌then◌else◌,
}
use liquidity_arena.Prelude.Int.{ℤ, pos, ◌+ℤ◌, ◌-ℤ◌, neg, half, abs, min, ltb_ℤ, leb_ℤ}
use liquidity_arena.Numeric.{Float, lt, literal, Rng}
use liquidity_arena.Wire.Messages.{BookUpdateMsg}
use liquidity_arena.Agents.Base.{BaseAgent, Reaction, new_agent, place}

pub record LatencyArb (F S : Type 0) : Type 0 where
  pub base : BaseAgent F
  pub threshold : ℤ
  pub max_position : ℤ
  pub trade_prob : F
  pub min_qty : ℤ
  pub max_qty : ℤ
  pub rng : S
  pub true_price : ℤ

module _ {F S : Type 0} ⦃fl : Float F⦄ where
  -- `__init__`, from the class-level counter of agents, with the state of the generator that is
  -- seeded. The result has the counter's new value.
  unfoldable pub new_arb :
      ℕ
      → F
      → (threshold max_position : ℤ) (trade_prob : F) (min_qty max_qty : ℤ) → S
      → LatencyArb F S × ℕ
  new_arb agent_counter tick edge limit prob low high seeded =
      let (b, agent_counter') = new_agent agent_counter tick in
      (
        record {
          base = b;
          threshold = edge;
          max_position = limit;
          trade_prob = prob;
          min_qty = low;
          max_qty = high;
          rng = seeded;
          true_price = pos 0;
        },
        agent_counter',
      )

module _ {F S : Type 0} ⦃fl : Float F⦄ ⦃g : Rng F S⦄ where
  unfoldable pub set_true_price : ℤ → LatencyArb F S → LatencyArb F S
  set_true_price price t = record t { true_price = price }

  abbrev quiet : LatencyArb F S → Reaction (LatencyArb F S)
  quiet t = some ([], t)

  abbrev send : ℤ → ℤ → ℤ → ℤ → LatencyArb F S → Reaction (LatencyArb F S)
  send side type price qty t =
      let (o, b) = place side type price qty t.base in some (o ∷ [], record t { base = b })

  -- A test whose last part is `self.rng.random() < p`, which draws only if the others hold.
  abbrev draws_below : Bool → F → LatencyArb F S → Bool × LatencyArb F S
  draws_below signal p t =
      let (draw, s) = g.random t.rng in
      if signal then (lt draw p, record t { rng = s }) else (false, t)

  -- A market order of a random quantity, cut down to the room that the position limit leaves.
  unfoldable pub pick_off : ℤ → ℤ → LatencyArb F S → Reaction (LatencyArb F S)
  unfolding place
  pick_off side room t = do
    (drawn, s) ← g.integers t.min_qty (t.max_qty +ℤ pos 1) t.rng
    let qty = min drawn room
    let t' = record t { rng = s }
    if ltb_ℤ (pos 0) qty then send side (pos 1) (pos 0) qty t' else quiet t'

  -- A limit order one tick from the mid price against the position.
  unfoldable pub flatten : ℤ → LatencyArb F S → Reaction (LatencyArb F S)
  unfolding place
  flatten mid t =
      let inventory = t.base.stats.inventory in
      if ltb_ℤ (pos 0) inventory
      then send (pos 1) (pos 0) (mid +ℤ pos 1) (min inventory t.max_qty) t
      else send (pos 0) (pos 0) (mid -ℤ pos 1) (min (neg inventory) t.max_qty) t

  -- The three branches of the chain of `if` and `elif`, the last first.
  unfoldable pub try_flatten : ℤ → LatencyArb F S → Reaction (LatencyArb F S)
  try_flatten mid t =
      let far = ltb_ℤ (half t.max_position) (abs t.base.stats.inventory) in
      let (act, t') = draws_below far (literal 3 1) t in if act then flatten mid t' else quiet t'

  unfoldable pub try_sell : BookUpdateMsg → ℤ → LatencyArb F S → Reaction (LatencyArb F S)
  try_sell update mid t =
      let inventory = t.base.stats.inventory in
      let signal =
        ltb_ℤ t.threshold (update.best_bid -ℤ t.true_price)
        && ltb_ℤ (neg t.max_position) inventory in
      let (act, t') = draws_below signal t.trade_prob t in
      if act then pick_off (pos 1) (t.max_position +ℤ inventory) t' else try_flatten mid t'

  unfoldable pub try_buy : BookUpdateMsg → ℤ → LatencyArb F S → Reaction (LatencyArb F S)
  try_buy update mid t =
      let inventory = t.base.stats.inventory in
      let signal =
        ltb_ℤ t.threshold (t.true_price -ℤ update.best_ask) && ltb_ℤ inventory t.max_position in
      let (act, t') = draws_below signal t.trade_prob t in
      if act then pick_off (pos 0) (t.max_position -ℤ inventory) t' else try_sell update mid t'

  unfoldable pub on_book_update : BookUpdateMsg → ℕ → LatencyArb F S → Reaction (LatencyArb F S)
  on_book_update update step t =
      if leb_ℤ update.best_bid (pos 0) || leb_ℤ update.best_ask (pos 0)
      then quiet t
      else if leb_ℤ t.true_price (pos 0)
      then quiet t
      else try_buy update (half (update.best_bid +ℤ update.best_ask)) t
