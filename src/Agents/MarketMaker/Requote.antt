-- ===== src/Agents/MarketMaker/Requote.antt =====
-- `on_book_update` of simulation/agents/market_maker.py: the old quotes go, the new ones are
-- numbered, tracked and one-sided at the inventory limits.
use liquidity_arena.Prelude.{
  ℕ, ◌+◌, ◌*◌, ◌++◌, ◌||◌, ◌≡◌, ltb, refl, sym, ap, ◌∙◌, ◌⊎◌, inl, inr, List, [], ◌∷◌, arith,
  length, All, subst, some, if◌then◌else◌,
}
use liquidity_arena.Prelude.Int.{ℤ, pos, neg, ltb_ℤ, leb_ℤ, ◌≤ℤ◌, ◌<ℤ◌, ◌+ℤ◌, ◌-ℤ◌, ◌*ℤ◌, pos_part}
use liquidity_arena.Prelude.Dict.{keys}
use liquidity_arena.Prelude.Results.{Every, Every-bind, Every-some, Every-mono, either, by_case}
use liquidity_arena.Numeric.{Float, Numpy, ◌⊕◌, ◌⊖◌, of_int}
use liquidity_arena.Wire.Messages.{BookUpdateMsg}
use liquidity_arena.Agents.Base.{AgentOrder, cancel_all, update_unrealized_pnl}
use liquidity_arena.Agents.MarketMaker.{
  MarketMaker, QuoteEntry, Quoting, ladder, estimate_sigma_sq, prepare, scaled_quantity, quote,
  on_book_update,
}
use liquidity_arena.Agents.MarketMaker.Ladder.{entries, IsNumbered, IsBelow, ladder-Tracks}
use liquidity_arena.Agents.MarketMaker.Quotes.{IsQuote, ladder-IsQuote, sides, length-ladder}
use liquidity_arena.Agents.MarketMaker.Offers.{
  IsOffer, ladder-IsOffer, prices_of, at_levels, prices_of-ladder,
}

module _ {F : Type 0} ⦃fl : Float F⦄ ⦃np : Numpy F⦄ where
  -- The market maker t has answered with these orders, as t', and e is its record of the quote.
  pub record Requotes (t : MarketMaker F) (orders : List AgentOrder) (t' : MarketMaker F)
      : Type 0 where
    -- The ids of all the orders that were active are left to be cancelled.
    pub cancels : t'.pending_cancels ≡ some (keys t.base.active_orders)
    pub active : t'.base.active_orders ≡ entries orders
    pub next : t'.base.next_id ≡ t.base.next_id + length orders
    pub numbered : IsNumbered t.base.next_id orders
    pub position : t'.base.stats.inventory ≡ t.base.stats.inventory
    pub entry : QuoteEntry F
    pub history : t'.quote_history ≡ t.quote_history ++ entry ∷ []
    pub quoting : Quoting
    pub bid : quoting.bid_price ≡ entry.bid
    pub ask : quoting.ask_price ≡ entry.ask
    pub can_buy : quoting.can_buy ≡ ltb_ℤ t.base.stats.inventory t.max_inventory
    pub can_sell : quoting.can_sell ≡ ltb_ℤ (neg t.max_inventory) t.base.stats.inventory
    pub bids : prices_of (pos 0) orders ≡ (
        if ltb_ℤ t.base.stats.inventory t.max_inventory
        then at_levels (pos_part t.num_levels) 0 (λ i. entry.bid -ℤ pos i *ℤ t.level_spacing)
        else [])
    pub asks : prices_of (pos 1) orders ≡ (
        if ltb_ℤ (neg t.max_inventory) t.base.stats.inventory
        then at_levels (pos_part t.num_levels) 0 (λ i. entry.ask +ℤ pos i *ℤ t.level_spacing)
        else [])
    pub offers : All (IsOffer quoting) orders
    pub count : length orders ≡ pos_part t.num_levels * sides quoting
    pub quotes : pos 0 ≤ℤ t.level_spacing → All (IsQuote quoting) orders

  -- What the estimate of the variance leaves alone.
  abbrev Keeps : MarketMaker F → MarketMaker F → Type 0
  Keeps t t' =
      (t'.base ≡ t.base)
      × (t'.pending_cancels ≡ t.pending_cancels)
      × (t'.max_inventory ≡ t.max_inventory)
      × (t'.level_spacing ≡ t.level_spacing)
      × (t'.num_levels ≡ t.num_levels)
      × (t'.quote_history ≡ t.quote_history)

  estimate_sigma_sq-Keeps : (mid : F) (t : MarketMaker F) → Keeps t (estimate_sigma_sq mid t).1
  unfolding estimate_sigma_sq
  estimate_sigma_sq-Keeps mid t =
      either (λ (r : F × MarketMaker F). Keeps t r.1) (ltb (length (t.mid_history ++ mid ∷ [])) 3)
        (refl, refl, refl, refl, refl, refl) (refl, refl, refl, refl, refl, refl)

  -- The market maker t after its preparation for a new quote, as t'.
  pub record Prepared (t t' : MarketMaker F) : Type 0 where
    pub cancels : t'.pending_cancels ≡ some (keys t.base.active_orders)
    pub active : t'.base.active_orders ≡ []
    pub next : t'.base.next_id ≡ t.base.next_id
    pub position : t'.base.stats.inventory ≡ t.base.stats.inventory
    pub history : t'.quote_history ≡ t.quote_history
    pub limit : t'.max_inventory ≡ t.max_inventory
    pub spacing : t'.level_spacing ≡ t.level_spacing
    pub levels : t'.num_levels ≡ t.num_levels

  pub prepare-Prepared :
      (mid : F) (ticks : ℤ) (t : MarketMaker F) → Prepared t (prepare mid ticks t).1
  unfolding prepare cancel_all update_unrealized_pnl
  prepare-Prepared mid ticks t =
      let (ids, b) = cancel_all (update_unrealized_pnl ticks t.base) in
      let t₁ = record t { base = b; pending_cancels = some ids } in
      let (base, cancels', limit', spacing', levels', history') = estimate_sigma_sq-Keeps mid t₁ in
      record {
        cancels = cancels';
        active = ap (λ b. b.active_orders) base;
        next = ap (λ b. b.next_id) base;
        position = ap (λ b. b.stats.inventory) base;
        history = history';
        limit = limit';
        spacing = spacing';
        levels = levels';
      }

  -- The loop on a prepared market maker, with the sides that its inventory lets it quote.
  ladder-Requotes :
      (t₀ t : MarketMaker F) (p : Quoting) (e : QuoteEntry F)
      → Prepared t₀ t
      → p.can_buy ≡ ltb_ℤ t.base.stats.inventory t.max_inventory
      → p.can_sell ≡ ltb_ℤ (neg t.max_inventory) t.base.stats.inventory
      → p.spacing ≡ t.level_spacing
      → p.bid_price ≡ e.bid
      → p.ask_price ≡ e.ask
      → let (orders, b) = ladder (pos_part t.num_levels) 0 p t.base in
        Requotes t₀ orders (record t { base = b; quote_history = t.quote_history ++ e ∷ [] })
  ladder-Requotes t₀ t p e h hb hs hp hbid hask =
      let levels = pos_part t.num_levels in
      let orders = (ladder levels 0 p t.base).0 in
      let tracks =
        ladder-Tracks levels 0 p t.base (subst (IsBelow t.base.next_id) (sym h.active) tt) in
      let q = t₀.base.stats.inventory in
      let top = t.max_inventory in
      let buy = hb ∙ ap (λ x. ltb_ℤ x top) h.position ∙ ap (λ x. ltb_ℤ q x) h.limit in
      let sell = hs ∙ ap (λ x. ltb_ℤ (neg top) x) h.position ∙ ap (λ x. ltb_ℤ (neg x) q) h.limit in
      let gap = hp ∙ h.spacing in
      let (bids', asks') = prices_of-ladder levels 0 p t.base in
      record {
        cancels = h.cancels;
        active = tracks.active ∙ ap (λ d. d ++ entries orders) h.active;
        next = tracks.next ∙ ap (λ n. n + length orders) h.next;
        numbered = subst (λ n. IsNumbered n orders) h.next tracks.numbered;
        position = tracks.position ∙ h.position;
        entry = e;
        history = ap (λ es. es ++ e ∷ []) h.history;
        quoting = p;
        bid = hbid;
        ask = hask;
        can_buy = buy;
        can_sell = sell;
        bids = bids' ∙ (λ i.
            if buy i
            then at_levels (pos_part (h.levels i)) 0 (λ k. hbid i -ℤ pos k *ℤ gap i)
            else []);
        asks = asks' ∙ (λ i.
            if sell i
            then at_levels (pos_part (h.levels i)) 0 (λ k. hask i +ℤ pos k *ℤ gap i)
            else []);
        offers = ladder-IsOffer levels 0 p t.base;
        count = length-ladder levels 0 p t.base ∙ ap (λ n. pos_part n * sides p) h.levels;
        quotes = λ s.
            ladder-IsQuote levels 0 p t.base (subst (λ x. pos 0 ≤ℤ x) (sym (hp ∙ h.spacing)) s);
      }

  abbrev Answer : MarketMaker F → List AgentOrder × MarketMaker F → Type 0
  Answer t r = Requotes t r.0 r.1

  quote-Requotes :
      (mid sigma reservation delta : F) (step : ℕ) (t₀ t : MarketMaker F)
      → Prepared t₀ t
      → Every (Answer t₀) (quote mid sigma reservation delta step t)
  unfolding quote
  quote-Requotes mid sigma reservation delta step t₀ t h =
      Every-bind (Answer t₀) (fl.div delta (of_int (pos 2))) _ (λ half_spread.
        Every-bind (Answer t₀) (fl.round (reservation ⊖ half_spread)) _ (λ bid_price.
          Every-bind (Answer t₀) (fl.round (reservation ⊕ half_spread)) _ (λ ask_price.
            Every-bind (Answer t₀) (scaled_quantity t.base.stats.inventory t) _
              (λ qty. ladder-Requotes t₀ t _ _ h refl refl refl refl refl))))

  -- No book to quote around and nothing done, or a new quote.
  abbrev pub Reacts : BookUpdateMsg → MarketMaker F → List AgentOrder × MarketMaker F → Type 0
  Reacts update t r =
      ((update.best_bid ≤ℤ pos 0) ⊎ (update.best_ask ≤ℤ pos 0)) × (r ≡ ([], t))
      ⊎ ((pos 0 <ℤ update.best_bid) × (pos 0 <ℤ update.best_ask) × Requotes t r.0 r.1)

  on_book_update-Every :
      (update : BookUpdateMsg) (step : ℕ) (t : MarketMaker F)
      → Every (Reacts update t) (on_book_update update step t)
  unfolding on_book_update
  on_book_update-Every update step t =
      by_case (Every (Reacts update t))
        (leb_ℤ update.best_bid (pos 0) || leb_ℤ update.best_ask (pos 0))
        (λ e. inl (ground arith, refl))
        (λ e. Every-bind (Reacts update t) _ _ (λ mid.
          Every-bind (Reacts update t) (fl.trunc mid) _ (λ ticks.
            Every-bind (Reacts update t) _ _ (λ (reservation, delta).
              Every-mono (Answer t) (Reacts update t) _ (λ r h. inr (ground arith, ground arith, h))
                (quote-Requotes mid _ reservation delta step t _ (prepare-Prepared mid ticks t))))))

  -- Unless it raises, `on_book_update` does nothing if a best price is not positive, and otherwise
  -- (1) leaves the ids of all the active orders to be cancelled, (2) has exactly the orders that
  -- it returns as active orders, with consecutive ids from the next id on, (3) makes
  -- limit orders for one or more, (4) bids, at each level and only if the inventory is below the
  -- maximal one, at the bid that the quote history records less the level times the spacing, and
  -- asks, at each level and only if the inventory is above the negative of the maximal one, at the
  -- ask plus the level times the spacing, and makes no other order, and (5) if the spacing is not
  -- negative, has no bid above the recorded bid and no ask below the recorded ask.
  pub on_book_update-Requotes :
      (update : BookUpdateMsg) (step : ℕ) (t t' : MarketMaker F) (orders : List AgentOrder)
      → on_book_update update step t ≡ some (orders, t')
      → Reacts update t (orders, t')
  on_book_update-Requotes update step t t' orders e =
      Every-some (Reacts update t) (on_book_update update step t) (orders, t')
        (on_book_update-Every update step t) e
