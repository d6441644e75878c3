-- ===== src/Metrics/Examples.antt =====
-- An engine that records two quotes, a cancel, a fill and two states.
use liquidity_arena.Prelude.{ℕ, ◌+◌, ◌≡◌, refl, none, some, List, [], ◌∷◌, true, false}
use liquidity_arena.Prelude.Int.{ℤ, pos, ◌-ℤ◌}
use liquidity_arena.Prelude.Results.{Returns}
use liquidity_arena.Numeric.Whole.{whole, whole_numpy, quotient-ne-none}
use liquidity_arena.Metrics.{FillRecord, QuoteRecord, MetricsEngine, new_engine, record_cancel}
use liquidity_arena.Metrics.Ratios.{costs, adverse_selection}
use liquidity_arena.Metrics.Pnl.{pnl_decomposition, compute_report}
use liquidity_arena.Metrics.Log.{Call, fill, quote, cancel, state, run, log, logs_of}
use liquidity_arena.Metrics.History.{IsCounted, run-log-new_engine}
use liquidity_arena.Metrics.Cancels.{CancelsLast, record_cancel-CancelsLast}
use liquidity_arena.Metrics.Totals.{
  total, average, Charges, pnl_decomposition-costs, compute_report-Returns,
}

abbrev placed : ℕ → QuoteRecord ℤ
placed oid = record {
  order_id = oid;
  timestamp = pos 1;
  cancel_timestamp = none;
  was_filled = false;
}

abbrev bought : FillRecord ℤ
bought = record {
  timestamp = pos 2;
  price = pos 9990;
  quantity = pos 10;
  side = pos 0;
  is_maker = true;
  mid_at_fill = pos 10000;
  mid_after_fill = some (pos 9997);
  maker_fee = pos 0;
  taker_fee = pos 0;
}

abbrev calls : List (Call ℤ)
calls =
    quote (placed 4)
    ∷ quote (placed 5)
    ∷ state 1 (pos 0) (pos 0) (pos 10000)
    ∷ fill bought
    ∷ cancel 4 (pos 3)
    ∷ state 2 (pos 70) (pos 10) (pos 9997)
    ∷ []

abbrev engine : MetricsEngine ℤ
engine = run calls (new_engine (pos 100))

run-log-new_engine_example : (log engine ≡ logs_of calls) × IsCounted engine
run-log-new_engine_example = run-log-new_engine calls (pos 100)

record_cancel-CancelsLast_example :
    CancelsLast 5 (pos 6) engine.quotes (record_cancel 5 (pos 6) engine).quotes
    × (record_cancel 5 (pos 6) engine ≡ record engine {
      quotes = (record_cancel 5 (pos 6) engine).quotes;
      total_cancels = engine.total_cancels + 1;
    })
record_cancel-CancelsLast_example = record_cancel-CancelsLast 5 (pos 6) engine

costs_example : costs (bought ∷ []) ≡ pos 3 ∷ []
unfolding costs ◌-ℤ◌
costs_example = refl

pnl_decomposition-costs_example :
    (cs : List ℤ) × Charges engine.fills cs
    × ((pnl_decomposition engine).adverse_selection ≡ total (pos 0) cs)
    × (adverse_selection engine ≡ average cs)
pnl_decomposition-costs_example = pnl_decomposition-costs engine

compute_report-Returns_example : Returns (compute_report engine)
compute_report-Returns_example = compute_report-Returns engine quotient-ne-none
