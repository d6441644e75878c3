-- ===== src/Agents/LatencyArb/Kept.antt =====
-- What `on_book_update` of simulation/agents/latency_arb.py leaves as it is.
use liquidity_arena.Prelude.{ℕ, ◌≡◌, refl, inl, inr, Bool-cases, ◌||◌, ◌&&◌}
use liquidity_arena.Prelude.Int.{ℤ, pos, ◌+ℤ◌, ◌-ℤ◌, neg, half, abs, min, leb_ℤ, ltb_ℤ}
use liquidity_arena.Prelude.Results.{Every, Every-bind, either}
use liquidity_arena.Numeric.{Float, lt, literal, Rng}
use liquidity_arena.Wire.Messages.{BookUpdateMsg}
use liquidity_arena.Agents.Base.{Reaction}
use liquidity_arena.Agents.LatencyArb.{
  LatencyArb, pick_off, flatten, try_flatten, try_sell, try_buy, on_book_update,
}

module _ {F S : Type 0} ⦃fl : Float F⦄ ⦃g : Rng F S⦄ where
  -- Only what every agent has and the generator have changed.
  abbrev pub KeepsRest : LatencyArb F S → LatencyArb F S → Type 0
  KeepsRest t t' = t' ≡ record t { base = t'.base; rng = t'.rng }

  abbrev pub Kept : LatencyArb F S → Reaction (LatencyArb F S) → Type 0
  Kept t r = Every (λ p. KeepsRest t p.1) r

  pick_off-Kept : (side room : ℤ) (t : LatencyArb F S) → Kept t (pick_off side room t)
  unfolding pick_off
  pick_off-Kept side room t =
      Every-bind (λ p. KeepsRest t p.1) (g.integers t.min_qty (t.max_qty +ℤ pos 1) t.rng) _
        (λ (drawn, s). either (Kept t) (ltb_ℤ (pos 0) (min drawn room)) refl refl)

  flatten-Kept : (mid : ℤ) (t : LatencyArb F S) → Kept t (flatten mid t)
  unfolding flatten
  flatten-Kept mid t = either (Kept t) (ltb_ℤ (pos 0) t.base.stats.inventory) refl refl

  try_flatten-Kept : (mid : ℤ) (t : LatencyArb F S) → Kept t (try_flatten mid t)
  unfolding try_flatten
  try_flatten-Kept mid t =
      let far = ltb_ℤ (half t.max_position) (abs t.base.stats.inventory) in
      let t1 = record t { rng = (g.random t.rng).1 } in
      elim (Bool-cases far) [
        | inr b ↦ rw b refl
        | inl b ↦
            rw b (either (Kept t) (lt (g.random t.rng).0 (literal 3 1)) (flatten-Kept mid t1) refl)
      ]

  try_sell-Kept :
      (update : BookUpdateMsg) (mid : ℤ) (t : LatencyArb F S) → Kept t (try_sell update mid t)
  unfolding try_sell
  try_sell-Kept update mid t =
      let inventory = t.base.stats.inventory in
      let signal =
        ltb_ℤ t.threshold (update.best_bid -ℤ t.true_price)
        && ltb_ℤ (neg t.max_position) inventory in
      let t1 = record t { rng = (g.random t.rng).1 } in
      elim (Bool-cases signal) [
        | inr b ↦ rw b (try_flatten-Kept mid t)
        | inl b ↦ rw b (
            either (Kept t) (lt (g.random t.rng).0 t.trade_prob)
              (pick_off-Kept (pos 1) (t.max_position +ℤ inventory) t1) (try_flatten-Kept mid t1))
      ]

  try_buy-Kept :
      (update : BookUpdateMsg) (mid : ℤ) (t : LatencyArb F S) → Kept t (try_buy update mid t)
  unfolding try_buy
  try_buy-Kept update mid t =
      let inventory = t.base.stats.inventory in
      let signal =
        ltb_ℤ t.threshold (t.true_price -ℤ update.best_ask) && ltb_ℤ inventory t.max_position in
      let t1 = record t { rng = (g.random t.rng).1 } in
      elim (Bool-cases signal) [
        | inr b ↦ rw b (try_sell-Kept update mid t)
        | inl b ↦ rw b (
            either (Kept t) (lt (g.random t.rng).0 t.trade_prob)
              (pick_off-Kept (pos 0) (t.max_position -ℤ inventory) t1)
              (try_sell-Kept update mid t1))
      ]

  pub on_book_update-Kept :
      (update : BookUpdateMsg) (step : ℕ) (t : LatencyArb F S)
      → Kept t (on_book_update update step t)
  unfolding on_book_update
  on_book_update-Kept update step t =
      either (Kept t) (leb_ℤ update.best_bid (pos 0) || leb_ℤ update.best_ask (pos 0)) refl (
        either (Kept t) (leb_ℤ t.true_price (pos 0)) refl
          (try_buy-Kept update (half (update.best_bid +ℤ update.best_ask)) t))
