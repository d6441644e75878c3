-- ===== src/Metrics.antt =====
-- simulation/metrics.py: the records, and the methods of `MetricsEngine` that record.
pub mod Ratios
pub mod Pnl
pub mod Log
pub mod History
pub mod Cancels
pub mod Totals
mod Examples
use mathlib.Core.List.{reverse}
use liquidity_arena.Prelude.{
  ℕ, ◌+◌, Bool, true, false, Option, none, some, List, [], ◌∷◌, ◌++◌, ◌&&◌, ◌==◌, ltb, leb, map,
  length, if◌then◌else◌, ◌>>=◌,
}
use liquidity_arena.Prelude.Int.{ℤ, pos, ◌-ℤ◌, ◌*ℤ◌, ◌==ℤ◌}
use liquidity_arena.Numeric.{Float, ◌⊕◌, ◌⊖◌, ◌⊗◌, of_int, literal, lt, Numpy}

pub record FillRecord (F : Type 0) : Type 0 where
  pub timestamp : F
  pub price : ℤ
  pub quantity : ℤ
  pub side : ℤ
  pub is_maker : Bool
  pub mid_at_fill : ℤ
  pub mid_after_fill : Option ℤ
  pub maker_fee : F
  pub taker_fee : F

pub record QuoteRecord (F : Type 0) : Type 0 where
  pub order_id : ℕ
  pub timestamp : F
  pub cancel_timestamp : Option F
  pub was_filled : Bool

pub record MetricsEngine (F : Type 0) : Type 0 where
  pub lookback : ℤ
  pub fills : List (FillRecord F)
  pub quotes : List (QuoteRecord F)
  pub inventory_history : List ℤ
  pub pnl_history : List F
  pub mid_history : List ℤ
  pub total_orders_sent : ℕ
  pub total_fills : ℕ
  pub total_cancels : ℕ

abbrev is_none : {A : Type 0} → Option A → Bool
is_none none = true
is_none (some a) = false

module _ {F : Type 0} where
  abbrev pub new_engine : ℤ → MetricsEngine F
  new_engine lookback_window = record {
    lookback = lookback_window;
    fills = [];
    quotes = [];
    inventory_history = [];
    pnl_history = [];
    mid_history = [];
    total_orders_sent = 0;
    total_fills = 0;
    total_cancels = 0;
  }

  unfoldable pub record_fill : FillRecord F → MetricsEngine F → MetricsEngine F
  record_fill fill e = record e { fills = e.fills ++ fill ∷ []; total_fills = e.total_fills + 1 }

  unfoldable pub record_quote : QuoteRecord F → MetricsEngine F → MetricsEngine F
  record_quote quote e = record e {
    quotes = e.quotes ++ quote ∷ [];
    total_orders_sent = e.total_orders_sent + 1;
  }

  -- A quote of this id that is not cancelled yet.
  abbrev pub is_live : ℕ → QuoteRecord F → Bool
  is_live oid q = q.order_id == oid && is_none q.cancel_timestamp

  abbrev pub cancelled : F → QuoteRecord F → QuoteRecord F
  cancelled time q = record q { cancel_timestamp = some time }

  -- The loop of `record_cancel`, which ends at the first live quote.
  abbrev pub cancel_first : ℕ → F → List (QuoteRecord F) → List (QuoteRecord F)
  cancel_first oid time [] = []
  cancel_first oid time (q ∷ qs) =
      let rest = cancel_first oid time qs in
      if is_live oid q then cancelled time q ∷ qs else q ∷ rest

  unfoldable pub record_cancel : ℕ → F → MetricsEngine F → MetricsEngine F
  record_cancel oid time e = record e {
    total_cancels = e.total_cancels + 1;
    quotes = reverse (cancel_first oid time (reverse e.quotes));
  }

  unfoldable pub record_state : ℕ → F → ℤ → ℤ → MetricsEngine F → MetricsEngine F
  record_state step pnl inventory mid e = record e {
    pnl_history = e.pnl_history ++ pnl ∷ [];
    inventory_history = e.inventory_history ++ inventory ∷ [];
    mid_history = e.mid_history ++ mid ∷ [];
  }
