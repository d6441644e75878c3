-- ===== src/Metrics/Log.antt =====
-- The calls that `MetricsEngine` of simulation/metrics.py receives, and the log of what they record.
use liquidity_arena.Prelude.{ℕ, ◌+◌, Bool, List, [], ◌∷◌, ◌++◌, map}
use liquidity_arena.Prelude.Int.{ℤ}
use liquidity_arena.Metrics.{
  FillRecord, QuoteRecord, MetricsEngine, record_fill, record_quote, record_cancel, record_state,
}

-- The calls that an engine receives.
pub data Call (F : Type 0) : Type 0 where
  fill : FillRecord F → Call F
  quote : QuoteRecord F → Call F
  cancel : ℕ → F → Call F
  state : ℕ → F → ℤ → ℤ → Call F

-- Everything recorded, in order, and the number of cancels.
pub record Log (F : Type 0) : Type 0 where
  pub fills : List (FillRecord F)
  pub placements : List (ℕ × F × Bool)
  pub inventories : List ℤ
  pub pnls : List F
  pub mids : List ℤ
  pub cancels : ℕ

module _ {F : Type 0} where
  abbrev pub call : Call F → MetricsEngine F → MetricsEngine F
  call (fill f) e = record_fill f e
  call (quote q) e = record_quote q e
  call (cancel oid time) e = record_cancel oid time e
  call (state step pnl inventory mid) e = record_state step pnl inventory mid e

  abbrev pub run : List (Call F) → MetricsEngine F → MetricsEngine F
  run [] e = e
  run (c ∷ cs) e = run cs (call c e)

  -- What a quote keeps when it is cancelled.
  abbrev pub placement : QuoteRecord F → ℕ × F × Bool
  placement q = (q.order_id, q.timestamp, q.was_filled)

  abbrev pub empty : Log F
  empty = record {
    fills = [];
    placements = [];
    inventories = [];
    pnls = [];
    mids = [];
    cancels = 0;
  }

  abbrev pub log_of : Call F → Log F
  log_of (fill f) = record empty { fills = f ∷ [] }
  log_of (quote q) = record empty { placements = placement q ∷ [] }
  log_of (cancel oid time) = record empty { cancels = 1 }
  log_of (state step pnl inventory mid) = record empty {
    inventories = inventory ∷ [];
    pnls = pnl ∷ [];
    mids = mid ∷ [];
  }

  abbrev pub append : Log F → Log F → Log F
  append a b = record {
    fills = a.fills ++ b.fills;
    placements = a.placements ++ b.placements;
    inventories = a.inventories ++ b.inventories;
    pnls = a.pnls ++ b.pnls;
    mids = a.mids ++ b.mids;
    cancels = a.cancels + b.cancels;
  }

  abbrev pub logs_of : List (Call F) → Log F
  logs_of [] = empty
  logs_of (c ∷ cs) = append (log_of c) (logs_of cs)

  -- What the engine's lists hold.
  abbrev pub log : MetricsEngine F → Log F
  log e = record {
    fills = e.fills;
    placements = map placement e.quotes;
    inventories = e.inventory_history;
    pnls = e.pnl_history;
    mids = e.mid_history;
    cancels = e.total_cancels;
  }
