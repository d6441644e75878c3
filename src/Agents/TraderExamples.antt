-- ===== src/Agents/TraderExamples.antt =====
-- Runs of the traders on one book.
use liquidity_arena.Prelude.{ℕ, ◌≡◌, ◌≢◌, refl, none, some, List, [], ◌∷◌, arith, true, false}
use liquidity_arena.Prelude.Int.{ℤ, pos, ◌+ℤ◌, ◌-ℤ◌, ◌*ℤ◌, half, abs, neg, min}
use liquidity_arena.Agents.Base.{AgentOrder, BaseAgent, next_order_id, track_order}
use liquidity_arena.Agents.Base.Sending.{Sends}
use liquidity_arena.Agents.Human
use liquidity_arena.Agents.Human.Queue.{
  Click, market, limit, cancel, clicks, asked, on_book_update-asked,
}
use liquidity_arena.Agents.Noise
use liquidity_arena.Agents.Noise.{NoiseTrader}
use liquidity_arena.Agents.Noise.Orders.{
  IsNoiseOrder, on_book_update-IsNoiseOrder, on_book_update-ne-none,
}
use liquidity_arena.Agents.Informed
use liquidity_arena.Agents.Informed.{InformedTrader}
use liquidity_arena.Agents.Informed.Orders.{
  IsInformedOrder, edge_of, on_book_update-IsInformedOrder,
}
use liquidity_arena.Agents.LatencyArb
use liquidity_arena.Agents.LatencyArb.{LatencyArb}
use liquidity_arena.Agents.LatencyArb.Position.{IsArbOrder, on_book_update-IsArbOrder}
use liquidity_arena.Agents.Momentum
use liquidity_arena.Agents.Momentum.{MomentumTrader, update_emas, ema_step}
use liquidity_arena.Agents.Momentum.Signals.{Trends, on_book_update-IsTrend, on_book_update-first}
use liquidity_arena.Numeric.Whole.{whole}
use liquidity_arena.Agents.Samples.{
  counter, counter-IsRng, book, agent, noise, informed, arb, momentum, human,
}

abbrev sent : ℤ → ℤ → ℤ → ℤ → AgentOrder
sent side' type price' qty = record {
  order_id = 2;
  side = side';
  order_type = type;
  price = price';
  quantity = qty;
}

abbrev after : AgentOrder → BaseAgent ℤ
after o = track_order o (next_order_id agent).1

abbrev noise_bid : AgentOrder
noise_bid = sent (pos 0) (pos 0) (pos 9999) (pos 10)

abbrev noise_after : NoiseTrader ℤ ℕ
noise_after = record noise { base = after noise_bid; rng = 5 }

on_book_update-IsNoiseOrder_example :
    Sends
      (IsNoiseOrder (pos 10) (pos 100) (pos 20) (half (pos 9995 +ℤ pos 10005)))
      agent
      (noise_bid ∷ [])
      (after noise_bid)
    × (noise_after ≡ record noise { base = noise_after.base; rng = noise_after.rng })
unfolding Noise.on_book_update Noise.random_order Noise.limit_order half ◌+ℤ◌ ◌-ℤ◌
on_book_update-IsNoiseOrder_example =
    on_book_update-IsNoiseOrder counter-IsRng book 7 noise noise_after (noise_bid ∷ []) refl

on_book_update-ne-none_example : Noise.on_book_update book 7 noise ≢ none
on_book_update-ne-none_example =
    on_book_update-ne-none counter-IsRng book 7 noise (omega arith) (omega arith) (omega arith)
      (omega arith) (omega arith)

abbrev informed_buy : AgentOrder
informed_buy = sent (pos 0) (pos 1) (pos 0) (pos 50)

abbrev informed_after : InformedTrader ℤ ℕ
informed_after = record informed { base = after informed_buy; rng = 2 }

on_book_update-IsInformedOrder_example :
    Sends
      (IsInformedOrder (pos 50) (pos 200) (pos 15) (edge_of (pos 10015) book))
      agent
      (informed_buy ∷ [])
      (after informed_buy)
    × (informed_after ≡ record informed { base = informed_after.base; rng = informed_after.rng })
unfolding Informed.on_book_update Informed.trade half ◌+ℤ◌ ◌-ℤ◌ abs
on_book_update-IsInformedOrder_example =
    on_book_update-IsInformedOrder counter-IsRng book 7 informed informed_after (informed_buy ∷ [])
      refl

abbrev arb_buy : AgentOrder
arb_buy = sent (pos 0) (pos 1) (pos 0) (pos 10)

abbrev arb_after : LatencyArb ℤ ℕ
arb_after = record arb { base = after arb_buy; rng = 2 }

on_book_update-IsArbOrder_example :
    Sends (IsArbOrder book arb) agent (arb_buy ∷ []) (after arb_buy)
    × (arb_after ≡ record arb { base = arb_after.base; rng = arb_after.rng })
unfolding LatencyArb.on_book_update LatencyArb.try_buy LatencyArb.pick_off half min neg ◌+ℤ◌ ◌-ℤ◌
on_book_update-IsArbOrder_example =
    on_book_update-IsArbOrder book 7 arb arb_after (arb_buy ∷ []) refl

abbrev trend_buy : AgentOrder
trend_buy = sent (pos 0) (pos 1) (pos 0) (pos 20)

on_book_update-IsTrend_example :
    Trends
      (pos 10000)
      momentum
      (record momentum { base = after trend_buy; rng = 2; fast_ema = pos 10000 })
      (trend_buy ∷ [])
unfolding Momentum.on_book_update Momentum.trade half ◌+ℤ◌ ◌-ℤ◌ ◌*ℤ◌ update_emas
on_book_update-IsTrend_example =
    on_book_update-IsTrend counter-IsRng book 7 momentum
      (record momentum { base = after trend_buy; rng = 2; fast_ema = pos 10000 }) (trend_buy ∷ [])
      (omega arith) (omega arith) refl refl

abbrev fresh : MomentumTrader ℤ ℕ
fresh = record momentum { initialized = false }

on_book_update-first_example :
    Momentum.on_book_update book 7 fresh
    ≡ some ([], record fresh { fast_ema = pos 10000; slow_ema = pos 10000; initialized = true })
unfolding half ◌+ℤ◌
on_book_update-first_example = on_book_update-first book 7 fresh (omega arith) (omega arith) refl

-- The second limit order has the price -5, and is refused.
abbrev session : List Click
session =
    limit (pos 0) (pos 5) (pos 100)
    ∷ limit (pos 0) (pos 10000) (pos 100)
    ∷ cancel
    ∷ market (pos 1) (pos 30)
    ∷ []

on_book_update-asked_example :
    let (orders, h) = Human.on_book_update book 7 (clicks session human) in
    (orders ≡ asked (some book) 2 session) × (h.pending_orders ≡ []) × (h.last_book ≡ some book)
on_book_update-asked_example = on_book_update-asked session human book 7 refl
