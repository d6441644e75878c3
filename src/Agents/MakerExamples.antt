-- ===== src/Agents/MakerExamples.antt =====
-- A run of the market maker on one book.
use liquidity_arena.Prelude.{ℕ, ◌≡◌, false, arith, refl, some, List, [], ◌∷◌}
use liquidity_arena.Prelude.Int.{
  ℤ, pos, negsuc, ltb_ℤ, +ℤ_parts, -ℤ_parts, ◌+ℤ◌, ◌-ℤ◌, ◌*ℤ◌, abs, neg, max, floor_div,
}
use liquidity_arena.Agents.Base.{
  AgentOrder, place, next_order_id, track_order, cancel_all, update_unrealized_pnl,
}
use liquidity_arena.Agents.MarketMaker.{
  MarketMaker, QuoteEntry, ladder, estimate_sigma_sq, prepare, optimal_quotes, scaled_quantity,
  quote, on_book_update,
}
use liquidity_arena.Agents.MarketMaker.Ladder.{entries}
use liquidity_arena.Agents.MarketMaker.Requote.{Reacts, on_book_update-Requotes}
use liquidity_arena.Numeric.Whole.{whole, whole_numpy, whole-IsOrder, quotient}
use liquidity_arena.Agents.MarketMaker.Uncrossed.{IsMonotone, Uncrossed, on_book_update-Uncrossed}
use liquidity_arena.Agents.Samples.{book, agent, maker}

abbrev quoted : ℕ → ℤ → ℤ → ℤ → AgentOrder
quoted oid side' price' qty = record {
  order_id = oid;
  side = side';
  order_type = pos 0;
  price = price';
  quantity = qty;
}

abbrev quotes : List AgentOrder
quotes =
    quoted 2 (pos 0) (pos 9998) (pos 10)
    ∷ quoted 3 (pos 1) (pos 10002) (pos 10)
    ∷ quoted 4 (pos 0) (pos 9997) (pos 5)
    ∷ quoted 5 (pos 1) (pos 10003) (pos 5)
    ∷ []

abbrev entry : QuoteEntry ℤ
entry = record {
  step = 7;
  mid = pos 10000;
  reservation = pos 10000;
  spread = pos 5;
  bid = pos 9998;
  ask = pos 10002;
  inventory = pos 0;
  sigma_sq = pos 1;
  pnl = pos 0;
}

abbrev requoted : MarketMaker ℤ
requoted = record maker {
  base = record agent {
    stats = record agent.stats { total_orders_sent = 4 };
    next_id = 6;
    active_orders = entries quotes;
    mid_price = pos 10000;
  };
  mid_history = pos 10000 ∷ [];
  quote_history = entry ∷ [];
  pending_cancels = some (1 ∷ []);
}

run : on_book_update book 7 maker ≡ some (quotes, requoted)
unfolding on_book_update prepare cancel_all update_unrealized_pnl estimate_sigma_sq optimal_quotes
    scaled_quantity quote ladder place next_order_id track_order ◌+ℤ◌ ◌-ℤ◌ ◌*ℤ◌ abs max floor_div
    neg
run = refl

on_book_update-Requotes_example : Reacts book maker (quotes, requoted)
on_book_update-Requotes_example = on_book_update-Requotes book 7 maker requoted quotes run

half_nonneg_lem :
    (a h : ℤ) → ltb_ℤ a (pos 2) ≡ false → quotient a (pos 2) ≡ some h → ltb_ℤ h (pos 0) ≡ false
unfolding floor_div
half_nonneg_lem (pos n) h wide e = ground arith
half_nonneg_lem (negsuc n) h wide e = absurd (ground arith)

sub_le_add_lem : (a h : ℤ) → ltb_ℤ h (pos 0) ≡ false → ltb_ℤ (a +ℤ h) (a -ℤ h) ≡ false
sub_le_add_lem a h e = ground (arith, +ℤ_parts a h, -ℤ_parts a h)

whole-IsMonotone : IsMonotone whole
whole-IsMonotone = record {
  half_nonneg = half_nonneg_lem;
  sub_le_add = sub_le_add_lem;
  round_mono = λ a b m n h em en. ground arith;
}

on_book_update-Uncrossed_example : Uncrossed maker (quotes, requoted)
on_book_update-Uncrossed_example =
    on_book_update-Uncrossed whole-IsOrder whole-IsMonotone book 7 maker requoted quotes run
