-- ===== src/Agents/MarketMaker/Quotes.antt =====
-- What each order of the loop over the levels is, and how many there are
-- (simulation/agents/market_maker.py).
use liquidity_arena.Prelude.{
  ℕ, zero, suc, ◌+◌, ◌*◌, ◌≡◌, refl, ◌⊎◌, inl, inr, ◌++◌, arith, length, length-append, All,
  All-append, Bool, true, false, if◌then◌else◌,
}
use liquidity_arena.Prelude.Int.{ℤ, pos, ◌+ℤ◌, ◌-ℤ◌, ◌*ℤ◌, max, ◌≤ℤ◌, int_laws}
use liquidity_arena.Numeric.{Float}
use liquidity_arena.Agents.Base.{AgentOrder, BaseAgent, place}
use liquidity_arena.Agents.MarketMaker.{Quoting, quote_if, level_qty, ladder}

-- A quote of one side: a limit order for one or more, made only if its side may be quoted, and
-- priced at the side's best price or, with a spacing that is not negative, further from the mid.
pub record IsQuote (p : Quoting) (o : AgentOrder) : Type 0 where
  pub limited : o.order_type ≡ pos 0
  pub positive : pos 1 ≤ℤ o.quantity
  pub sided :
      (o.side ≡ pos 0) × (p.can_buy ≡ true) × (o.price ≤ℤ p.bid_price)
      ⊎ ((o.side ≡ pos 1) × (p.can_sell ≡ true) × (p.ask_price ≤ℤ o.price))

pub level_qty-pos : (level : ℕ) (qty : ℤ) → pos 1 ≤ℤ level_qty level qty
unfolding max
level_qty-pos level qty = ground arith

below_price : (a offset : ℤ) → pos 0 ≤ℤ offset → a -ℤ offset ≤ℤ a
below_price a offset h = omega int_laws

above_price : (a offset : ℤ) → pos 0 ≤ℤ offset → a ≤ℤ a +ℤ offset
above_price a offset h = omega int_laws

offset_nonneg : (level : ℕ) (spacing : ℤ) → pos 0 ≤ℤ spacing → pos 0 ≤ℤ pos level *ℤ spacing
unfolding ◌*ℤ◌
offset_nonneg level (pos n) h = ground arith
offset_nonneg level spacing h = absurd (omega arith)

module _ {F : Type 0} ⦃fl : Float F⦄ where
  bids-IsQuote :
      (p : Quoting) (can : Bool) (offset qty : ℤ) (b : BaseAgent F)
      → p.can_buy ≡ can
      → pos 0 ≤ℤ offset
      → pos 1 ≤ℤ qty
      → All (IsQuote p) (quote_if can (pos 0) (p.bid_price -ℤ offset) qty b).0
  unfolding place
  bids-IsQuote p false offset qty b e h q = tt
  bids-IsQuote p true offset qty b e h q = (
    record {
      limited = refl;
      positive = q;
      sided = inl (refl, e, below_price p.bid_price offset h);
    },
    tt,
  )

  asks-IsQuote :
      (p : Quoting) (can : Bool) (offset qty : ℤ) (b : BaseAgent F)
      → p.can_sell ≡ can
      → pos 0 ≤ℤ offset
      → pos 1 ≤ℤ qty
      → All (IsQuote p) (quote_if can (pos 1) (p.ask_price +ℤ offset) qty b).0
  unfolding place
  asks-IsQuote p false offset qty b e h q = tt
  asks-IsQuote p true offset qty b e h q = (
    record {
      limited = refl;
      positive = q;
      sided = inr (refl, e, above_price p.ask_price offset h);
    },
    tt,
  )

  pub ladder-IsQuote :
      (levels level : ℕ) (p : Quoting) (b : BaseAgent F)
      → pos 0 ≤ℤ p.spacing
      → All (IsQuote p) (ladder levels level p b).0
  unfolding ladder
  ladder-IsQuote zero level p b h = tt
  ladder-IsQuote (suc levels) level p b h =
      let offset = pos level *ℤ p.spacing in
      let qty = level_qty level p.quantity in
      let (bids, b₁) = quote_if p.can_buy (pos 0) (p.bid_price -ℤ offset) qty b in
      let (asks, b₂) = quote_if p.can_sell (pos 1) (p.ask_price +ℤ offset) qty b₁ in
      let rest = (ladder levels (level + 1) p b₂).0 in
      let far = offset_nonneg level p.spacing h in
      let some_qty = level_qty-pos level p.quantity in
      All-append (IsQuote p) bids (asks ++ rest)
        (bids-IsQuote p p.can_buy offset qty b refl far some_qty)
        (All-append (IsQuote p) asks rest
          (asks-IsQuote p p.can_sell offset qty b₁ refl far some_qty)
          (ladder-IsQuote levels (level + 1) p b₂ h))

-- The number of sides that are quoted.
abbrev pub sides : Quoting → ℕ
sides p = (if p.can_buy then 1 else 0) + (if p.can_sell then 1 else 0)

module _ {F : Type 0} ⦃fl : Float F⦄ where
  length-quote_if :
      (can : Bool) (side price qty : ℤ) (b : BaseAgent F)
      → length (quote_if can side price qty b).0 ≡ (if can then 1 else 0)
  length-quote_if false side price qty b = refl
  length-quote_if true side price qty b = refl

  pub length-ladder :
      (levels level : ℕ) (p : Quoting) (b : BaseAgent F)
      → length (ladder levels level p b).0 ≡ levels * sides p
  unfolding ladder
  length-ladder zero level p b = omega arith
  length-ladder (suc levels) level p b =
      let offset = pos level *ℤ p.spacing in
      let qty = level_qty level p.quantity in
      let (bids, b₁) = quote_if p.can_buy (pos 0) (p.bid_price -ℤ offset) qty b in
      let (asks, b₂) = quote_if p.can_sell (pos 1) (p.ask_price +ℤ offset) qty b₁ in
      let rest = (ladder levels (level + 1) p b₂).0 in
      omega (
        arith,
        length-append bids (asks ++ rest),
        length-append asks rest,
        length-quote_if p.can_buy (pos 0) (p.bid_price -ℤ offset) qty b,
        length-quote_if p.can_sell (pos 1) (p.ask_price +ℤ offset) qty b₁,
        length-ladder levels (level + 1) p b₂,
      )
