-- ===== src/Agents/MarketMaker/Uncrossed.antt =====
-- The quote of `on_book_update` in simulation/agents/market_maker.py is not crossed.
use liquidity_arena.Prelude.{
  ℕ, ◌≡◌, refl, ◌⊎◌, inl, inr, List, [], ◌∷◌, ◌++◌, ◌||◌, some, ap, ◌∙◌, false,
}
use liquidity_arena.Prelude.Int.{ℤ, pos, leb_ℤ, ◌≤ℤ◌}
use liquidity_arena.Prelude.Results.{Every, Every-bind, Every-bind_of, Every-some, by_case}
use liquidity_arena.Numeric.{Float, Numpy, ◌⊕◌, ◌⊖◌, of_int, lt, fmax, IsOrder}
use liquidity_arena.Wire.Messages.{BookUpdateMsg}
use liquidity_arena.Agents.Base.{AgentOrder}
use liquidity_arena.Agents.MarketMaker.{
  MarketMaker, QuoteEntry, prepare, optimal_quotes, scaled_quantity, quote, on_book_update,
}
use liquidity_arena.Agents.MarketMaker.Requote.{Prepared, prepare-Prepared}

-- What holds of floats since their operations round monotonically.
pub record IsMonotone {F : Type 0} (fl : Float F) : Type 0 where
  -- Half of a number that is not below 2 is not negative.
  pub half_nonneg :
      (a h : F)
      → fl.lt a (fl.of_int (pos 2)) ≡ false
      → fl.div a (fl.of_int (pos 2)) ≡ some h
      → fl.lt h (fl.of_int (pos 0)) ≡ false
  pub sub_le_add :
      (a h : F) → fl.lt h (fl.of_int (pos 0)) ≡ false → fl.lt (fl.add a h) (fl.sub a h) ≡ false
  pub round_mono :
      (a b : F) (m n : ℤ) → fl.lt b a ≡ false → fl.round a ≡ some m → fl.round b ≡ some n → m ≤ℤ n

module _ {F : Type 0} ⦃fl : Float F⦄ ⦃np : Numpy F⦄ where
  -- The call left the market maker as it was, or recorded one quote more, whose bid is not above
  -- its ask.
  abbrev pub Uncrossed : MarketMaker F → List AgentOrder × MarketMaker F → Type 0
  Uncrossed t r =
      (r ≡ ([], t))
      ⊎ ((e : QuoteEntry F) × (r.1.quote_history ≡ t.quote_history ++ e ∷ []) × (e.bid ≤ℤ e.ask))

  -- A spread of at least 2.
  abbrev Wide : F × F → Type 0
  Wide r = lt r.1 (of_int (pos 2)) ≡ false

  module _ (order : IsOrder fl) (mono : IsMonotone fl) where
    fmax-ge : (a b : F) → lt (fmax a b) b ≡ false
    fmax-ge a b = by_case (λ x. lt x b ≡ false) (lt a b) (λ e. order.irrefl b) (λ e. e)

    optimal_quotes-Wide :
        (mid sigma : F) (step : ℕ) (q : ℤ) (t : MarketMaker F)
        → Every Wide (optimal_quotes mid sigma step q t)
    unfolding optimal_quotes
    optimal_quotes-Wide mid sigma step q t =
        Every-bind Wide (fl.div (of_int (pos step)) (of_int t.total_steps)) _ (λ elapsed.
          Every-bind Wide (fl.div (of_int (pos 2)) t.gamma) _ (λ scale.
            Every-bind Wide (fl.div t.gamma t.kappa) _ (λ ratio. fmax-ge _ (of_int (pos 2)))))

    recorded-Uncrossed :
        (t₀ t t' : MarketMaker F) (e : QuoteEntry F) (orders : List AgentOrder)
        → Prepared t₀ t
        → t'.quote_history ≡ t.quote_history ++ e ∷ []
        → e.bid ≤ℤ e.ask
        → Uncrossed t₀ (orders, t')
    recorded-Uncrossed t₀ t t' e orders h recorded apart =
        inr (e, recorded ∙ ap (λ es. es ++ e ∷ []) h.history, apart)

    quote-Uncrossed :
        (mid sigma reservation delta : F) (step : ℕ) (t₀ t : MarketMaker F)
        → Prepared t₀ t
        → lt delta (of_int (pos 2)) ≡ false
        → Every (Uncrossed t₀) (quote mid sigma reservation delta step t)
    unfolding quote
    quote-Uncrossed mid sigma reservation delta step t₀ t h wide =
        Every-bind_of (Uncrossed t₀) (fl.div delta (of_int (pos 2))) _ (λ half half_eq.
          Every-bind_of (Uncrossed t₀) (fl.round (reservation ⊖ half)) _ (λ bid bid_eq.
            Every-bind_of (Uncrossed t₀) (fl.round (reservation ⊕ half)) _ (λ ask ask_eq.
              Every-bind (Uncrossed t₀) (scaled_quantity t.base.stats.inventory t) _ (λ qty.
                let apart =
                  mono.sub_le_add reservation half (mono.half_nonneg delta half wide half_eq) in
                recorded-Uncrossed t₀ t _ _ _ h refl (
                  mono.round_mono (reservation ⊖ half) (reservation ⊕ half) bid ask apart bid_eq
                    ask_eq)))))

    on_book_update-Every :
        (update : BookUpdateMsg) (step : ℕ) (t : MarketMaker F)
        → Every (Uncrossed t) (on_book_update update step t)
    unfolding on_book_update
    on_book_update-Every update step t =
        by_case (Every (Uncrossed t))
          (leb_ℤ update.best_bid (pos 0) || leb_ℤ update.best_ask (pos 0)) (λ e. inl refl)
          (λ e. Every-bind (Uncrossed t) _ _ (λ mid.
            Every-bind (Uncrossed t) (fl.trunc mid) _ (λ ticks.
              let (sigma, t') = prepare mid ticks t in
              Every-bind_of (Uncrossed t) (optimal_quotes mid sigma step t'.base.stats.inventory t')
                _
                (λ (reservation, delta) e.
                  quote-Uncrossed mid sigma reservation delta step t t'
                    (prepare-Prepared mid ticks t)
                    (Every-some Wide (optimal_quotes mid sigma step t'.base.stats.inventory t')
                      (reservation, delta)
                      (optimal_quotes-Wide mid sigma step t'.base.stats.inventory t') e)))))

    -- Where the floats' order is irreflexive and asymmetric and their operations round
    -- monotonically, a call that raises nothing leaves the market maker as it was and sends nothing,
    -- or adds one entry to the quote history, whose bid is not above its ask.
    pub on_book_update-Uncrossed :
        (update : BookUpdateMsg) (step : ℕ) (t t' : MarketMaker F) (orders : List AgentOrder)
        → on_book_update update step t ≡ some (orders, t')
        → Uncrossed t (orders, t')
    on_book_update-Uncrossed update step t t' orders e =
        Every-some (Uncrossed t) (on_book_update update step t) (orders, t')
          (on_book_update-Every update step t) e
