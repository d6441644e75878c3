-- ===== src/Metrics/History.antt =====
-- `MetricsEngine` of simulation/metrics.py as a log that only grows.
use mathlib.Core.List.{map-append}
use liquidity_arena.Prelude.{
  ℕ, suc, ◌≡◌, refl, sym, ap, ◌∙◌, inl, inr, List, [], ◌∷◌, ◌++◌, map, length, length-append,
  append-nil, append_assoc, arith,
}
use liquidity_arena.Prelude.Int.{ℤ}
use liquidity_arena.Metrics.{
  QuoteRecord, MetricsEngine, new_engine, cancelled, record_fill, record_quote, record_cancel,
  record_state,
}
use liquidity_arena.Metrics.Cancels.{CancelsLast, record_cancel-CancelsLast}
use liquidity_arena.Metrics.Log.{
  Call, Log, fill, quote, cancel, state, call, run, placement, empty, log_of, append, logs_of, log,
}

unchanged {ℓ} : {A : Type ℓ} (xs : List A) → xs ≡ xs ++ []
unchanged xs = sym (append-nil xs)

module _ {F : Type 0} where
  -- The counters are the lengths of the lists, and the three histories are of one length.
  pub record IsCounted (e : MetricsEngine F) : Type 0 where
    pub total_fills : e.total_fills ≡ length e.fills
    pub total_orders_sent : e.total_orders_sent ≡ length e.quotes
    pub pnls : length e.pnl_history ≡ length e.mid_history
    pub inventories : length e.inventory_history ≡ length e.mid_history

  log_ext :
      (a b : Log F)
      → a.fills ≡ b.fills
      → a.placements ≡ b.placements
      → a.inventories ≡ b.inventories
      → a.pnls ≡ b.pnls
      → a.mids ≡ b.mids
      → a.cancels ≡ b.cancels
      → a ≡ b
  log_ext a b hf hq hi hp hm hc = λ i. record {
    fills = hf i;
    placements = hq i;
    inventories = hi i;
    pnls = hp i;
    mids = hm i;
    cancels = hc i;
  }

  append_log_assoc : (a b c : Log F) → append (append a b) c ≡ append a (append b c)
  append_log_assoc a b c =
      log_ext (append (append a b) c) (append a (append b c)) (append_assoc a.fills b.fills c.fills)
        (append_assoc a.placements b.placements c.placements)
        (append_assoc a.inventories b.inventories c.inventories) (append_assoc a.pnls b.pnls c.pnls)
        (append_assoc a.mids b.mids c.mids) (omega arith)

  append_log-empty : (a : Log F) → a ≡ append a empty
  append_log-empty a =
      log_ext a (append a empty) (unchanged a.fills) (unchanged a.placements)
        (unchanged a.inventories) (unchanged a.pnls) (unchanged a.mids) (omega arith)

  CancelsLast-placement :
      (oid : ℕ) (time : F) (qs qs' : List (QuoteRecord F))
      → CancelsLast oid time qs qs'
      → map placement qs' ≡ map placement qs
  CancelsLast-placement oid time qs qs' (inl (none_live, same)) = ap (λ t. map placement t) same
  CancelsLast-placement oid time qs qs' (inr (before, q, behind, split, live, none_live, new)) =
      ap (λ t. map placement t) new
      ∙ map-append placement before (cancelled time q ∷ behind)
      ∙ sym (map-append placement before (q ∷ behind))
      ∙ ap (λ t. map placement t) (sym split)

  record_cancel-placement :
      (oid : ℕ) (time : F) (e : MetricsEngine F)
      → map placement (record_cancel oid time e).quotes ≡ map placement e.quotes
  record_cancel-placement oid time e =
      CancelsLast-placement oid time e.quotes (record_cancel oid time e).quotes
        (record_cancel-CancelsLast oid time e).0

  call-log : (c : Call F) (e : MetricsEngine F) → log (call c e) ≡ append (log e) (log_of c)
  unfolding record_fill record_quote record_state record_cancel
  call-log (fill f) e =
      log_ext _ _ refl (unchanged _) (unchanged _) (unchanged _) (unchanged _) (omega arith)
  call-log (quote q) e =
      log_ext _ _ (unchanged _) (map-append placement e.quotes (q ∷ [])) (unchanged _) (unchanged _)
        (unchanged _) (omega arith)
  call-log (cancel oid time) e =
      log_ext _ _ (unchanged _) (record_cancel-placement oid time e ∙ unchanged _) (unchanged _)
        (unchanged _) (unchanged _) refl
  call-log (state step pnl inventory mid) e =
      log_ext _ _ (unchanged _) (unchanged _) refl refl refl (omega arith)

  run-log :
      (cs : List (Call F)) (e : MetricsEngine F) → log (run cs e) ≡ append (log e) (logs_of cs)
  run-log [] e = append_log-empty (log e)
  run-log (c ∷ cs) e =
      run-log cs (call c e)
      ∙ ap (λ l. append l (logs_of cs)) (call-log c e)
      ∙ append_log_assoc (log e) (log_of c) (logs_of cs)

  length-placements : (qs : List (QuoteRecord F)) → length (map placement qs) ≡ length qs
  length-placements [] = refl
  length-placements (q ∷ qs) = ap (λ n. suc n) (length-placements qs)

  -- The counters follow from the log.
  call-IsCounted : (c : Call F) (e : MetricsEngine F) → IsCounted e → IsCounted (call c e)
  unfolding record_fill record_quote record_state record_cancel
  call-IsCounted (fill f) e h = record {
    total_fills = omega (arith, h.total_fills, length-append e.fills (f ∷ []));
    total_orders_sent = h.total_orders_sent;
    pnls = h.pnls;
    inventories = h.inventories;
  }
  call-IsCounted (quote q) e h = record {
    total_fills = h.total_fills;
    total_orders_sent = omega (arith, h.total_orders_sent, length-append e.quotes (q ∷ []));
    pnls = h.pnls;
    inventories = h.inventories;
  }
  call-IsCounted (cancel oid time) e h = record {
    total_fills = h.total_fills;
    total_orders_sent =
        h.total_orders_sent
        ∙ sym (length-placements e.quotes)
        ∙ ap (λ ps. length ps) (sym (record_cancel-placement oid time e))
        ∙ length-placements (record_cancel oid time e).quotes;
    pnls = h.pnls;
    inventories = h.inventories;
  }
  call-IsCounted (state step pnl inventory mid) e h =
      let m = length-append e.mid_history (mid ∷ []) in
      record {
        total_fills = h.total_fills;
        total_orders_sent = h.total_orders_sent;
        pnls = omega (arith, h.pnls, length-append e.pnl_history (pnl ∷ []), m);
        inventories =
            omega (arith, h.inventories, length-append e.inventory_history (inventory ∷ []), m);
      }

  run-IsCounted : (cs : List (Call F)) (e : MetricsEngine F) → IsCounted e → IsCounted (run cs e)
  run-IsCounted [] e h = h
  run-IsCounted (c ∷ cs) e h = run-IsCounted cs (call c e) (call-IsCounted c e h)

  -- Whatever calls an engine has received since it was made, its lists hold every fill, quote and
  -- state recorded, in order and once (a cancel changes only the cancel time of a quote), its
  -- counters are the numbers of fills, quotes and cancels, and its three histories are of one
  -- length.
  pub run-log-new_engine :
      (cs : List (Call F)) (lookback : ℤ)
      → (log (run cs (new_engine lookback)) ≡ logs_of cs) × IsCounted (run cs (new_engine lookback))
  run-log-new_engine cs lookback = (
    run-log cs (new_engine lookback)
        ∙ log_ext _ (logs_of cs) refl refl refl refl refl (omega arith),
    run-IsCounted cs (new_engine lookback)
        (record { total_fills = refl; total_orders_sent = refl; pnls = refl; inventories = refl }),
  )
