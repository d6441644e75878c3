-- ===== src/Metrics/Ratios.antt =====
-- simulation/metrics.py: the averages and ratios of `MetricsEngine`. `none` is an exception of a
-- division.
use liquidity_arena.Prelude.{
  Option, none, some, List, [], ◌∷◌, ◌++◌, ◌==◌, ltb, map, length, if◌then◌else◌,
}
use liquidity_arena.Prelude.Int.{ℤ, pos, ◌-ℤ◌, ◌*ℤ◌, ◌==ℤ◌}
use liquidity_arena.Numeric.{Float, ◌⊖◌, ◌⊗◌, of_int, literal, lt, Numpy}
use liquidity_arena.Metrics.{FillRecord, QuoteRecord, MetricsEngine}

module _ {F : Type 0} where
  -- The cost of a fill if the mid price after it is known.
  abbrev pub cost : FillRecord F → ℤ → ℤ
  cost fill after =
      if fill.side ==ℤ pos 0 then fill.mid_at_fill -ℤ after else after -ℤ fill.mid_at_fill

  abbrev pub costs_of : FillRecord F → List ℤ
  costs_of fill =
      if fill.is_maker
      then elim fill.mid_after_fill [ none ↦ [] | some after ↦ cost fill after ∷ [] ]
      else []

  -- The loop of `adverse_selection`.
  unfoldable pub costs : List (FillRecord F) → List ℤ
  costs [] = []
  costs (fill ∷ fills) = costs_of fill ++ costs fills

module _ {F : Type 0} ⦃fl : Float F⦄ ⦃np : Numpy F⦄ where
  abbrev pub zero_float : F
  zero_float = of_int (pos 0)

  abbrev mean_or_zero : List F → F
  mean_or_zero [] = zero_float
  mean_or_zero (x ∷ xs) = np.mean (x ∷ xs)

  unfoldable pub sharpe_ratio : MetricsEngine F → F
  sharpe_ratio e =
      let returns = np.diff e.pnl_history in
      let annualization = np.sqrt (of_int (pos 252 *ℤ pos 6500)) in
      if ltb (length e.pnl_history) 2
      then zero_float
      else (if lt (np.std returns) (literal 1 10)
          then zero_float
          else np.quotient (np.mean returns) (np.std returns) ⊗ annualization)

  unfoldable pub inventory_variance : MetricsEngine F → F
  inventory_variance e =
      if ltb (length e.inventory_history) 2
      then zero_float
      else np.var (map (λ n. of_int n) e.inventory_history)

  unfoldable pub fill_ratio : MetricsEngine F → Option F
  fill_ratio e =
      if e.total_orders_sent == 0
      then some zero_float
      else fl.div (of_int (pos e.total_fills)) (of_int (pos e.total_orders_sent))

  unfoldable pub adverse_selection : MetricsEngine F → F
  adverse_selection e = mean_or_zero (map (λ n. of_int n) (costs e.fills))

  -- The lifetimes of one quote: none if it is neither cancelled nor filled, and 0.0 if it is only
  -- filled.
  abbrev lifetimes_of : QuoteRecord F → List F
  lifetimes_of q = elim q.cancel_timestamp [
    | some time ↦ (time ⊖ q.timestamp) ∷ []
    | none ↦ if q.was_filled then zero_float ∷ [] else []
  ]

  abbrev lifetimes : List (QuoteRecord F) → List F
  lifetimes [] = []
  lifetimes (q ∷ qs) = lifetimes_of q ++ lifetimes qs

  unfoldable pub quote_lifetime_avg : MetricsEngine F → F
  quote_lifetime_avg e = mean_or_zero (lifetimes e.quotes)

  unfoldable pub order_to_trade_ratio : MetricsEngine F → Option F
  order_to_trade_ratio e =
      if e.total_fills == 0
      then some fl.infinity
      else fl.div (of_int (pos e.total_orders_sent)) (of_int (pos e.total_fills))
