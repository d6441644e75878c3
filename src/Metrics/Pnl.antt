-- ===== src/Metrics/Pnl.antt =====
-- simulation/metrics.py: `pnl_decomposition` and `compute_report`.
use liquidity_arena.Prelude.{
  ℕ, Option, none, some, List, [], ◌∷◌, ◌&&◌, leb, length, if◌then◌else◌, ◌>>=◌,
}
use liquidity_arena.Prelude.Int.{ℤ, pos, ◌-ℤ◌, ◌*ℤ◌, ◌==ℤ◌}
use liquidity_arena.Numeric.{Float, ◌⊕◌, of_int, Numpy}
use liquidity_arena.Metrics.{FillRecord, MetricsEngine}
use liquidity_arena.Metrics.Ratios.{
  sharpe_ratio, inventory_variance, fill_ratio, adverse_selection, quote_lifetime_avg,
  order_to_trade_ratio,
}

-- What `pnl_decomposition` returns.
pub record Decomposition (F : Type 0) : Type 0 where
  pub spread_capture : F
  pub inventory_pnl : F
  pub adverse_selection : F
  pub maker_fees : F
  pub taker_fees : F
  pub net_fees : F

-- What `compute_report` returns.
pub record Report (F : Type 0) : Type 0 where
  pub total_fills : ℕ
  pub total_orders : ℕ
  pub total_cancels : ℕ
  pub sharpe_ratio : F
  pub inventory_variance : F
  pub fill_ratio : F
  pub adverse_selection : F
  pub quote_lifetime_avg : F
  pub order_to_trade_ratio : F
  pub decomposition : Decomposition F

-- The four sums of the loop over the fills.
pub record Sums (F : Type 0) : Type 0 where
  pub spread_capture : F
  pub adverse_sel : F
  pub total_maker_fees : F
  pub total_taker_fees : F

module _ {F : Type 0} ⦃fl : Float F⦄ where
  -- A fill's distance from the mid price.
  abbrev pub capture : FillRecord F → ℤ
  capture fill =
      if fill.side ==ℤ pos 0 then fill.mid_at_fill -ℤ fill.price else fill.price -ℤ fill.mid_at_fill

  abbrev add_adverse : FillRecord F → Option ℤ → F → F
  add_adverse fill none sum = sum
  add_adverse fill (some after) sum =
      if fill.side ==ℤ pos 0
      then sum ⊕ of_int (fill.mid_at_fill -ℤ after)
      else sum ⊕ of_int (after -ℤ fill.mid_at_fill)

  abbrev pub add_fill : FillRecord F → Sums F → Sums F
  add_fill fill s =
      if fill.is_maker
      then record {
        spread_capture = s.spread_capture ⊕ of_int (capture fill);
        adverse_sel = add_adverse fill fill.mid_after_fill s.adverse_sel;
        total_maker_fees = s.total_maker_fees ⊕ fill.maker_fee;
        total_taker_fees = s.total_taker_fees ⊕ of_int (pos 0);
      }
      else record s { total_taker_fees = s.total_taker_fees ⊕ fill.taker_fee }

  unfoldable pub sum_fills : List (FillRecord F) → Sums F → Sums F
  sum_fills [] s = s
  sum_fills (fill ∷ fills) s = sum_fills fills (add_fill fill s)

  -- The loop over the steps, from one step on.
  unfoldable pub walk : List ℤ → List ℤ → F → F
  walk (mid ∷ mid' ∷ mids) (inventory ∷ inventory' ∷ inventories) sum =
      walk (mid' ∷ mids) (inventory' ∷ inventories) (sum ⊕ of_int (inventory *ℤ (mid' -ℤ mid)))
  walk [] inventories sum = sum
  walk (mid ∷ []) inventories sum = sum
  walk (mid ∷ mid' ∷ mids) [] sum = sum
  walk (mid ∷ mid' ∷ mids) (inventory ∷ []) sum = sum

  unfoldable pub pnl_decomposition : MetricsEngine F → Decomposition F
  pnl_decomposition e =
      let zero_sum = of_int (pos 0) in
      let s = sum_fills e.fills (record {
        spread_capture = zero_sum;
        adverse_sel = zero_sum;
        total_maker_fees = zero_sum;
        total_taker_fees = zero_sum;
      }) in
      record {
        spread_capture = s.spread_capture;
        inventory_pnl =
            if leb 2 (length e.mid_history) && leb 2 (length e.inventory_history)
            then walk e.mid_history e.inventory_history zero_sum
            else zero_sum;
        adverse_selection = s.adverse_sel;
        maker_fees = s.total_maker_fees;
        taker_fees = s.total_taker_fees;
        net_fees = s.total_maker_fees ⊕ s.total_taker_fees;
      }

module _ {F : Type 0} ⦃fl : Float F⦄ ⦃np : Numpy F⦄ where
  unfoldable pub compute_report : MetricsEngine F → Option (Report F)
  compute_report e = do
    filled ← fill_ratio e
    sent_per_fill ← order_to_trade_ratio e
    some (record {
      total_fills = e.total_fills;
      total_orders = e.total_orders_sent;
      total_cancels = e.total_cancels;
      sharpe_ratio = sharpe_ratio e;
      inventory_variance = inventory_variance e;
      fill_ratio = filled;
      adverse_selection = adverse_selection e;
      quote_lifetime_avg = quote_lifetime_avg e;
      order_to_trade_ratio = sent_per_fill;
      decomposition = pnl_decomposition e;
    })
