-- ===== src/Metrics/Totals.antt =====
-- `compute_report` of simulation/metrics.py: its two adverse selections, and that it returns.
use liquidity_arena.Prelude.{
  ℕ, ◌≡◌, ◌≢◌, refl, sym, ap, subst, ◌∙◌, Bool-cases, Option-cases, inl, inr, none, some, List, [],
  ◌∷◌, ◌++◌, arith, ◌==◌, if◌then◌else◌, ◌⊎◌, true, false, map,
}
use liquidity_arena.Prelude.Results.{Returns, Returns-bind}
use liquidity_arena.Prelude.Int.{ℤ, pos, ◌-ℤ◌, ◌==ℤ◌}
use liquidity_arena.Numeric.{Float, Numpy, ◌⊕◌, of_int}
use liquidity_arena.Metrics.{FillRecord, MetricsEngine}
use liquidity_arena.Metrics.Ratios.{
  costs, costs_of, adverse_selection, fill_ratio, order_to_trade_ratio,
}
use liquidity_arena.Metrics.Pnl.{Sums, add_fill, sum_fills, pnl_decomposition, compute_report}

module _ {F : Type 0} ⦃fl : Float F⦄ where
  -- The sum of integers, added from the left as floats.
  abbrev pub total : F → List ℤ → F
  total sum [] = sum
  total sum (n ∷ ns) = total (sum ⊕ of_int n) ns

  total-append : (sum : F) (ms ns : List ℤ) → total sum (ms ++ ns) ≡ total (total sum ms) ns
  total-append sum [] ns = refl
  total-append sum (m ∷ ms) ns = total-append (sum ⊕ of_int m) ms ns

  add_fill-adverse :
      (fill : FillRecord F) (s : Sums F)
      → (add_fill fill s).adverse_sel ≡ total s.adverse_sel (costs_of fill)
  add_fill-adverse fill s = ground arith

  sum_fills-adverse :
      (fills : List (FillRecord F)) (s : Sums F)
      → (sum_fills fills s).adverse_sel ≡ total s.adverse_sel (costs fills)
  unfolding sum_fills costs
  sum_fills-adverse [] s = refl
  sum_fills-adverse (fill ∷ fills) s =
      sum_fills-adverse fills (add_fill fill s)
      ∙ ap (λ x. total x (costs fills)) (add_fill-adverse fill s)
      ∙ sym (total-append s.adverse_sel (costs_of fill) (costs fills))

  -- What the fills cost, in order: a fill as a maker with a known mid price after it costs the drop
  -- of the mid price if it bought, and the rise of it if it sold; any other fill is left out.
  pub data Charges : List (FillRecord F) → List ℤ → Type 0 where
    nothing : Charges [] []
    bought :
        {f : FillRecord F} {fs : List (FillRecord F)} {after : ℤ} {cs : List ℤ}
        → f.is_maker ≡ true
        → f.mid_after_fill ≡ some after
        → f.side ≡ pos 0
        → Charges fs cs
        → Charges (f ∷ fs) ((f.mid_at_fill -ℤ after) ∷ cs)
    sold :
        {f : FillRecord F} {fs : List (FillRecord F)} {after : ℤ} {cs : List ℤ}
        → f.is_maker ≡ true
        → f.mid_after_fill ≡ some after
        → f.side ≢ pos 0
        → Charges fs cs
        → Charges (f ∷ fs) ((after -ℤ f.mid_at_fill) ∷ cs)
    left_out :
        {f : FillRecord F} {fs : List (FillRecord F)} {cs : List ℤ}
        → (f.is_maker ≡ false) ⊎ (f.mid_after_fill ≡ none)
        → Charges fs cs
        → Charges (f ∷ fs) cs

  costs_of-Charges :
      (f : FillRecord F) (fs : List (FillRecord F)) (cs : List ℤ)
      → Charges fs cs
      → Charges (f ∷ fs) (costs_of f ++ cs)
  costs_of-Charges f fs cs c =
      let become = λ (xs : List ℤ) (e : costs_of f ≡ xs) (h : Charges (f ∷ fs) (xs ++ cs)).
        subst (λ ys. Charges (f ∷ fs) (ys ++ cs)) (sym e) h in
      elim (Bool-cases f.is_maker) [
        | inr e ↦ become [] (rw e refl) (left_out (inl e) c)
        | inl e ↦ elim (Option-cases f.mid_after_fill) [
          | inl e1 ↦ become [] (rw (e, e1) refl) (left_out (inr e1) c)
          | inr (after, e1) ↦ elim (Bool-cases (f.side ==ℤ pos 0)) [
            | inl e2 ↦
                become ((f.mid_at_fill -ℤ after) ∷ []) (rw (e, e1, e2) refl)
                  (bought e e1 (ground arith) c)
            | inr e2 ↦
                become ((after -ℤ f.mid_at_fill) ∷ []) (rw (e, e1, e2) refl)
                  (sold e e1 (ground arith) c)
          ]
        ]
      ]

  costs-Charges : (fs : List (FillRecord F)) → Charges fs (costs fs)
  unfolding costs
  costs-Charges [] = nothing
  costs-Charges (f ∷ fs) = costs_of-Charges f fs (costs fs) (costs-Charges fs)

module _ {F : Type 0} ⦃fl : Float F⦄ ⦃np : Numpy F⦄ where
  -- The mean of integers, and 0 of none.
  abbrev pub average : List ℤ → F
  average [] = of_int (pos 0)
  average (n ∷ ns) = np.mean (of_int n ∷ map (λ k. of_int k) ns)

  costs-average :
      (e : MetricsEngine F) (cs : List ℤ) → costs e.fills ≡ cs → adverse_selection e ≡ average cs
  unfolding adverse_selection
  costs-average e [] h = rw h refl
  costs-average e (c ∷ cs) h = rw h refl

  -- The two adverse selections are of the same costs, one for each fill as a maker with a known mid
  -- price after it, in order: the drop of the mid price if it bought, and the rise of it if it sold.
  -- `pnl_decomposition` gives their sum, added from 0 on, and `adverse_selection` their mean, or 0
  -- if there are none.
  pub pnl_decomposition-costs :
      (e : MetricsEngine F)
      → (cs : List ℤ) × Charges e.fills cs
        × ((pnl_decomposition e).adverse_selection ≡ total (of_int (pos 0)) cs)
        × (adverse_selection e ≡ average cs)
  unfolding pnl_decomposition
  pnl_decomposition-costs e = (
    costs e.fills,
    costs-Charges e.fills,
    sum_fills-adverse e.fills _,
    costs-average e (costs e.fills) refl,
  )

  -- A guarded division of two counts returns.
  guarded-Returns :
      (a b : ℕ) (x : F)
      → ((a b : ℕ) → b ≢ 0 → fl.div (of_int (pos a)) (of_int (pos b)) ≢ none)
      → Returns (if b == 0 then some x else fl.div (of_int (pos a)) (of_int (pos b)))
  guarded-Returns a b x h = elim (Bool-cases (b == 0)) [
    | inl e ↦ (x, rw e refl)
    | inr e ↦ elim (Option-cases (fl.div (of_int (pos a)) (of_int (pos b)))) [
      | inl raised ↦ absurd (h a b (ground arith) raised)
      | inr (y, some_y) ↦ (y, rw e some_y)
    ]
  ]

  -- Where the division of two integers raises only for a divisor of zero, every engine has a report,
  -- also one that has recorded nothing.
  pub compute_report-Returns :
      (e : MetricsEngine F)
      → ((a b : ℕ) → b ≢ 0 → fl.div (of_int (pos a)) (of_int (pos b)) ≢ none)
      → Returns (compute_report e)
  unfolding compute_report fill_ratio order_to_trade_ratio
  compute_report-Returns e h =
      Returns-bind (fill_ratio e) _
        (guarded-Returns e.total_fills e.total_orders_sent (of_int (pos 0)) h)
        (λ filled.
          Returns-bind (order_to_trade_ratio e) _
            (guarded-Returns e.total_orders_sent e.total_fills fl.infinity h)
            (λ sent_per_fill. (_, refl)))
