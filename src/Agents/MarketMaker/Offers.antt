-- ===== src/Agents/MarketMaker/Offers.antt =====
-- The sides and the prices of the orders of the loop over the levels
-- (simulation/agents/market_maker.py).
use liquidity_arena.Prelude.{
  ℕ, zero, suc, ◌+◌, ◌≡◌, refl, ◌⊎◌, inl, inr, ◌++◌, arith, All, All-append, ap, ◌∙◌, List, [], ◌∷◌,
  Bool, true, false, if◌then◌else◌,
}
use liquidity_arena.Prelude.Int.{ℤ, pos, ◌+ℤ◌, ◌-ℤ◌, ◌*ℤ◌, ◌≤ℤ◌, ◌==ℤ◌}
use liquidity_arena.Numeric.{Float}
use liquidity_arena.Agents.Base.{AgentOrder, BaseAgent, place}
use liquidity_arena.Agents.MarketMaker.{Quoting, quote_if, level_qty, ladder}
use liquidity_arena.Agents.MarketMaker.Quotes.{level_qty-pos}

-- An offer of a side that may be quoted: a limit order for one or more.
pub record IsOffer (p : Quoting) (o : AgentOrder) : Type 0 where
  pub limited : o.order_type ≡ pos 0
  pub positive : pos 1 ≤ℤ o.quantity
  pub sided : (o.side ≡ pos 0) × (p.can_buy ≡ true) ⊎ ((o.side ≡ pos 1) × (p.can_sell ≡ true))

-- The prices of the orders of a side, in order.
abbrev pub prices_of : ℤ → List AgentOrder → List ℤ
prices_of side [] = []
prices_of side (o ∷ os) =
    let rest = prices_of side os in if o.side ==ℤ side then o.price ∷ rest else rest

-- One price for each of the levels from a level on.
abbrev pub at_levels : (levels level : ℕ) → (ℕ → ℤ) → List ℤ
at_levels zero level price = []
at_levels (suc levels) level price = price level ∷ at_levels levels (level + 1) price

one_more :
    (can : Bool) (x : ℤ) (xs ys : List ℤ)
    → xs ≡ (if can then ys else [])
    → (if can then x ∷ xs else xs) ≡ (if can then x ∷ ys else [])
one_more true x xs ys e = ap (λ zs. x ∷ zs) e
one_more false x xs ys e = e

module _ {F : Type 0} ⦃fl : Float F⦄ where
  quote_if-IsOffer :
      (p : Quoting) (can : Bool) (side price qty : ℤ) (b : BaseAgent F)
      → (can ≡ true → (side ≡ pos 0) × (p.can_buy ≡ true) ⊎ ((side ≡ pos 1) × (p.can_sell ≡ true)))
      → pos 1 ≤ℤ qty
      → All (IsOffer p) (quote_if can side price qty b).0
  unfolding place
  quote_if-IsOffer p false side price qty b h q = tt
  quote_if-IsOffer p true side price qty b h q =
      (record { limited = refl; positive = q; sided = h refl }, tt)

  pub ladder-IsOffer :
      (levels level : ℕ) (p : Quoting) (b : BaseAgent F)
      → All (IsOffer p) (ladder levels level p b).0
  unfolding ladder
  ladder-IsOffer zero level p b = tt
  ladder-IsOffer (suc levels) level p b =
      let offset = pos level *ℤ p.spacing in
      let qty = level_qty level p.quantity in
      let (bids, b₁) = quote_if p.can_buy (pos 0) (p.bid_price -ℤ offset) qty b in
      let (asks, b₂) = quote_if p.can_sell (pos 1) (p.ask_price +ℤ offset) qty b₁ in
      let rest = (ladder levels (level + 1) p b₂).0 in
      let some_qty = level_qty-pos level p.quantity in
      All-append (IsOffer p) bids (asks ++ rest)
        (quote_if-IsOffer p p.can_buy (pos 0) _ qty b (λ e. inl (refl, e)) some_qty)
        (All-append (IsOffer p) asks rest
          (quote_if-IsOffer p p.can_sell (pos 1) _ qty b₁ (λ e. inr (refl, e)) some_qty)
          (ladder-IsOffer levels (level + 1) p b₂))

  prices_of-bid :
      (can : Bool) (price qty : ℤ) (b : BaseAgent F) (os : List AgentOrder)
      → let bids = (quote_if can (pos 0) price qty b).0 in
        (prices_of (pos 0) (bids ++ os)
          ≡ (if can then price ∷ prices_of (pos 0) os else prices_of (pos 0) os))
        × (prices_of (pos 1) (bids ++ os) ≡ prices_of (pos 1) os)
  unfolding place
  prices_of-bid false price qty b os = (refl, refl)
  prices_of-bid true price qty b os = (refl, refl)

  prices_of-ask :
      (can : Bool) (price qty : ℤ) (b : BaseAgent F) (os : List AgentOrder)
      → let asks = (quote_if can (pos 1) price qty b).0 in
        (prices_of (pos 1) (asks ++ os)
          ≡ (if can then price ∷ prices_of (pos 1) os else prices_of (pos 1) os))
        × (prices_of (pos 0) (asks ++ os) ≡ prices_of (pos 0) os)
  unfolding place
  prices_of-ask false price qty b os = (refl, refl)
  prices_of-ask true price qty b os = (refl, refl)

  -- The bids and the asks of the loop, one at each level if their side may be quoted.
  pub prices_of-ladder :
      (levels level : ℕ) (p : Quoting) (b : BaseAgent F)
      → let orders = (ladder levels level p b).0 in
        (prices_of (pos 0) orders ≡ (
          if p.can_buy
          then at_levels levels level (λ i. p.bid_price -ℤ pos i *ℤ p.spacing)
          else []))
        × (prices_of (pos 1) orders ≡ (
            if p.can_sell
            then at_levels levels level (λ i. p.ask_price +ℤ pos i *ℤ p.spacing)
            else []))
  unfolding ladder
  prices_of-ladder zero level p b = (ground arith, ground arith)
  prices_of-ladder (suc levels) level p b =
      let offset = pos level *ℤ p.spacing in
      let qty = level_qty level p.quantity in
      let bid = p.bid_price -ℤ offset in
      let ask = p.ask_price +ℤ offset in
      let (bids, b₁) = quote_if p.can_buy (pos 0) bid qty b in
      let (asks, b₂) = quote_if p.can_sell (pos 1) ask qty b₁ in
      let rest = (ladder levels (level + 1) p b₂).0 in
      let (bid_first, bid_rest) = prices_of-bid p.can_buy bid qty b (asks ++ rest) in
      let (ask_first, ask_rest) = prices_of-ask p.can_sell ask qty b₁ rest in
      let (more_bids, more_asks) = prices_of-ladder levels (level + 1) p b₂ in
      (
        bid_first
            ∙ ap (λ os. if p.can_buy then bid ∷ os else os) ask_rest
            ∙ one_more p.can_buy bid (prices_of (pos 0) rest) _ more_bids,
        bid_rest ∙ ask_first ∙ one_more p.can_sell ask (prices_of (pos 1) rest) _ more_asks,
      )
