-- ===== src/Agents/MarketMaker.antt =====
-- simulation/agents/market_maker.py: `AvellanedaStoikovMM`. The window of the variance is a natural
-- number. `none` is an exception of a division or of a conversion to an integer.
pub mod Ladder
pub mod Quotes
pub mod Offers
pub mod Requote
pub mod Uncrossed
use liquidity_arena.Prelude.{
  ℕ, zero, suc, ◌+◌, ◌-◌, Bool, true, false, Option, none, some, List, [], ◌∷◌, ◌++◌, ◌||◌, ◌==◌,
  ltb, ◌>>=◌, length, drop, if◌then◌else◌,
}
use Prim.Native.Nat.{min}
use liquidity_arena.Prelude.Int.{
  ℤ, pos, pos_part, ◌+ℤ◌, ◌-ℤ◌, ◌*ℤ◌, neg, abs, max, floor_div, ltb_ℤ, leb_ℤ,
}
use liquidity_arena.Numeric.{Float, ◌⊕◌, ◌⊖◌, ◌⊗◌, of_int, literal, fmax, Numpy}
use liquidity_arena.Wire.Messages.{BookUpdateMsg}
use liquidity_arena.Agents.Base.{
  AgentOrder, BaseAgent, Reaction, new_agent, place, cancel_all, update_unrealized_pnl,
}

-- An entry of `quote_history`.
pub record QuoteEntry (F : Type 0) : Type 0 where
  pub step : ℕ
  pub mid : F
  pub reservation : F
  pub spread : F
  pub bid : ℤ
  pub ask : ℤ
  pub inventory : ℤ
  pub sigma_sq : F
  pub pnl : F

-- `pending_cancels` is `none` until the attribute is first set.
pub record MarketMaker (F : Type 0) : Type 0 where
  pub base : BaseAgent F
  pub gamma : F
  pub kappa : F
  pub max_inventory : ℤ
  pub num_levels : ℤ
  pub level_spacing : ℤ
  pub base_quantity : ℤ
  pub sigma_window : ℕ
  pub total_steps : ℤ
  pub mid_history : List F
  pub sigma_sq : F
  pub quote_history : List (QuoteEntry F)
  pub pending_cancels : Option (List ℕ)

-- The arguments of `__init__` beside the names and the seed.
pub record Settings (F : Type 0) : Type 0 where
  pub gamma : F
  pub kappa : F
  pub max_inventory : ℤ
  pub num_levels : ℤ
  pub level_spacing : ℤ
  pub base_quantity : ℤ
  pub sigma_window : ℕ
  pub total_steps : ℤ

-- `xs[-n:]`, which is the whole list if n is 0.
abbrev pub last_of : {A : Type 0} → ℕ → List A → List A
last_of n xs = if n == 0 then xs else drop (length xs - n) xs

-- What the loop over the levels reads.
pub record Quoting : Type 0 where
  pub can_buy : Bool
  pub can_sell : Bool
  pub bid_price : ℤ
  pub ask_price : ℤ
  pub spacing : ℤ
  pub quantity : ℤ

-- `max(1, qty // (level + 1))`
abbrev pub level_qty : ℕ → ℤ → ℤ
level_qty level qty = max (pos 1) (floor_div qty (level + 1))

module _ {F : Type 0} ⦃fl : Float F⦄ where
  -- A limit order, if the side may be quoted.
  abbrev pub quote_if : Bool → ℤ → ℤ → ℤ → BaseAgent F → List AgentOrder × BaseAgent F
  quote_if false side price qty b = ([], b)
  quote_if true side price qty b = let (o, b') = place side (pos 0) price qty b in (o ∷ [], b')

  -- "Step 8: Place multi-level quotes", from a level on for a number of levels.
  unfoldable pub ladder : ℕ → ℕ → Quoting → BaseAgent F → List AgentOrder × BaseAgent F
  ladder zero level p b = ([], b)
  ladder (suc levels) level p b =
      let offset = pos level *ℤ p.spacing in
      let qty = level_qty level p.quantity in
      let (bids, b₁) = quote_if p.can_buy (pos 0) (p.bid_price -ℤ offset) qty b in
      let (asks, b₂) = quote_if p.can_sell (pos 1) (p.ask_price +ℤ offset) qty b₁ in
      let (rest, b₃) = ladder levels (level + 1) p b₂ in (bids ++ (asks ++ rest), b₃)

module _ {F : Type 0} ⦃fl : Float F⦄ where
  -- `__init__`, from the class-level counter of agents and with the counter's new value.
  unfoldable pub new_maker : ℕ → F → Settings F → MarketMaker F × ℕ
  new_maker agent_counter tick s =
      let (b, agent_counter') = new_agent agent_counter tick in
      (
        record {
          base = b;
          gamma = s.gamma;
          kappa = s.kappa;
          max_inventory = s.max_inventory;
          num_levels = s.num_levels;
          level_spacing = s.level_spacing;
          base_quantity = s.base_quantity;
          sigma_window = s.sigma_window;
          total_steps = s.total_steps;
          mid_history = [];
          sigma_sq = of_int (pos 1);
          quote_history = [];
          pending_cancels = none;
        },
        agent_counter',
      )

module _ {F : Type 0} ⦃fl : Float F⦄ ⦃np : Numpy F⦄ where
  -- The estimate from a list of mid prices, or the last one.
  abbrev variance : List F → F → F
  variance changes old = if ltb 1 (length changes) then np.var changes ⊕ literal 1 6 else old

  unfoldable pub estimate_sigma_sq : F → MarketMaker F → F × MarketMaker F
  estimate_sigma_sq mid t =
      let history = t.mid_history ++ mid ∷ [] in
      let kept =
        if ltb t.sigma_window (length history) then last_of t.sigma_window history else history in
      let sigma = variance (np.diff (last_of (min (length kept) t.sigma_window) kept)) t.sigma_sq in
      if ltb (length history) 3
      then (t.sigma_sq, record t { mid_history = history })
      else (sigma, record t { mid_history = kept; sigma_sq = sigma })

  -- "Step 2" to "Step 4": the reservation price and the spread, which is at least 2.
  unfoldable pub optimal_quotes : F → F → ℕ → ℤ → MarketMaker F → Option (F × F)
  optimal_quotes mid sigma step q t = do
    elapsed ← fl.div (of_int (pos step)) (of_int t.total_steps)
    let left = fmax (literal 1 3) (of_int (pos 1) ⊖ elapsed)
    let reservation = mid ⊖ of_int q ⊗ t.gamma ⊗ sigma ⊗ left
    scale ← fl.div (of_int (pos 2)) t.gamma
    ratio ← fl.div t.gamma t.kappa
    let delta = t.gamma ⊗ sigma ⊗ left ⊕ scale ⊗ np.log (of_int (pos 1) ⊕ ratio)
    some (reservation, fmax delta (of_int (pos 2)))

  -- "Step 7": the quantity of the first level, smaller near the inventory limits.
  unfoldable pub scaled_quantity : ℤ → MarketMaker F → Option ℤ
  scaled_quantity q t = do
    ratio ←
        if ltb_ℤ (pos 0) t.max_inventory
        then fl.div (of_int (abs q)) (of_int t.max_inventory)
        else some (of_int (pos 0))
    let scale = fmax (literal 1 1) (of_int (pos 1) ⊖ ratio ⊗ literal 8 1)
    scaled ← fl.trunc (of_int t.base_quantity ⊗ scale)
    some (max (pos 1) scaled)

  -- From "Step 5" on, with the prices as floats.
  unfoldable pub quote : F → F → F → F → ℕ → MarketMaker F → Reaction (MarketMaker F)
  quote mid sigma reservation delta step t = do
    let q = t.base.stats.inventory
    half_spread ← fl.div delta (of_int (pos 2))
    bid_price ← fl.round (reservation ⊖ half_spread)
    ask_price ← fl.round (reservation ⊕ half_spread)
    qty ← scaled_quantity q t
    let quoting : Quoting = record {
      can_buy = ltb_ℤ q t.max_inventory;
      can_sell = ltb_ℤ (neg t.max_inventory) q;
      bid_price = bid_price;
      ask_price = ask_price;
      spacing = t.level_spacing;
      quantity = qty;
    }
    let (orders, b) = ladder (pos_part t.num_levels) 0 quoting t.base
    let entry : QuoteEntry F = record {
      step = step;
      mid = mid;
      reservation = reservation;
      spread = delta;
      bid = bid_price;
      ask = ask_price;
      inventory = q;
      sigma_sq = sigma;
      pnl = b.stats.total_pnl;
    }
    some (orders, record t { base = b; quote_history = t.quote_history ++ entry ∷ [] })

  -- Marks to market, cancels every active order, and estimates the variance.
  unfoldable pub prepare : F → ℤ → MarketMaker F → F × MarketMaker F
  prepare mid ticks t =
      let (ids, b) = cancel_all (update_unrealized_pnl ticks t.base) in
      estimate_sigma_sq mid (record t { base = b; pending_cancels = some ids })

  unfoldable pub on_book_update : BookUpdateMsg → ℕ → MarketMaker F → Reaction (MarketMaker F)
  on_book_update update step t =
      if leb_ℤ update.best_bid (pos 0) || leb_ℤ update.best_ask (pos 0) then some ([], t) else (do
        mid ← fl.div (of_int (update.best_bid +ℤ update.best_ask)) (of_int (pos 2))
        ticks ← fl.trunc mid
        let (sigma, t') = prepare mid ticks t
        (reservation, delta) ← optimal_quotes mid sigma step t'.base.stats.inventory t'
        quote mid sigma reservation delta step t')
