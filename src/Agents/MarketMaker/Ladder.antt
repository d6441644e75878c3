-- ===== src/Agents/MarketMaker/Ladder.antt =====
-- The loop over the levels in `on_book_update` of simulation/agents/market_maker.py.
use liquidity_arena.Prelude.{
  ℕ, zero, suc, ◌+◌, ◌<◌, ◌≡◌, refl, sym, ap, ◌∙◌, List, [], ◌∷◌, ◌++◌, arith, length,
  length-append, All, All-append, append_assoc, append-nil, subst, Bool, true, false,
}
use liquidity_arena.Prelude.Int.{ℤ, pos, ◌+ℤ◌, ◌-ℤ◌, ◌*ℤ◌}
use liquidity_arena.Prelude.Dict.{Dict, insert}
use liquidity_arena.Numeric.{Float}
use liquidity_arena.Agents.Base.{AgentOrder, BaseAgent, track_order, place}
use liquidity_arena.Agents.Base.Sending.{order_of}
use liquidity_arena.Agents.MarketMaker.{Quoting, quote_if, level_qty, ladder}

abbrev pub entries : List AgentOrder → Dict AgentOrder
entries [] = []
entries (o ∷ os) = (o.order_id, o) ∷ entries os

entries-append : (xs ys : List AgentOrder) → entries (xs ++ ys) ≡ entries xs ++ entries ys
entries-append [] ys = refl
entries-append (x ∷ xs) ys = ap (λ t. (x.order_id, x) ∷ t) (entries-append xs ys)

-- Orders that are numbered upwards from n.
abbrev pub IsNumbered : ℕ → List AgentOrder → Type 0
IsNumbered n [] = Unit
IsNumbered n (o ∷ os) = (o.order_id ≡ n) × IsNumbered (suc n) os

IsNumbered-append :
    (n : ℕ) (xs ys : List AgentOrder)
    → IsNumbered n xs
    → IsNumbered (n + length xs) ys
    → IsNumbered n (xs ++ ys)
IsNumbered-append n [] ys hx hy = subst (λ k. IsNumbered k ys) (omega arith) hy
IsNumbered-append n (x ∷ xs) ys hx hy =
    (hx.0, IsNumbered-append (suc n) xs ys hx.1 (subst (λ k. IsNumbered k ys) (omega arith) hy))

-- Every key of the dictionary is below n.
abbrev pub IsBelow : ℕ → Dict AgentOrder → Type 0
IsBelow n d = All (λ e. e.0 < n) d

IsBelow-suc : (n : ℕ) (d : Dict AgentOrder) → IsBelow n d → IsBelow (n + 1) d
IsBelow-suc n [] h = tt
IsBelow-suc n (e ∷ d) h = (omega arith, IsBelow-suc n d h.1)

insert-IsBelow :
    (k : ℕ) (o : AgentOrder) (d : Dict AgentOrder) → IsBelow k d → insert k o d ≡ d ++ (k, o) ∷ []
insert-IsBelow k o [] h = refl
insert-IsBelow k o ((j, p) ∷ d) h = ground (arith, insert-IsBelow k o d h.1)

module _ {F : Type 0} ⦃fl : Float F⦄ where
  -- From the first agent to the second exactly the orders were made and tracked, behind the active
  -- ones and with the next ids.
  pub record Tracks (b : BaseAgent F) (orders : List AgentOrder) (b' : BaseAgent F) : Type 0 where
    pub active : b'.active_orders ≡ b.active_orders ++ entries orders
    pub next : b'.next_id ≡ b.next_id + length orders
    pub numbered : IsNumbered b.next_id orders
    pub below : IsBelow b'.next_id b'.active_orders
    pub position : b'.stats.inventory ≡ b.stats.inventory

  Tracks-nil : (b : BaseAgent F) → IsBelow b.next_id b.active_orders → Tracks b [] b
  Tracks-nil b h = record {
    active = sym (append-nil b.active_orders);
    next = omega arith;
    numbered = tt;
    below = h;
    position = refl;
  }

  Tracks-append :
      (b b₁ b₂ : BaseAgent F) (xs ys : List AgentOrder)
      → Tracks b xs b₁
      → Tracks b₁ ys b₂
      → Tracks b (xs ++ ys) b₂
  Tracks-append b b₁ b₂ xs ys p q = record {
    active =
        q.active
        ∙ ap (λ d. d ++ entries ys) p.active
        ∙ append_assoc b.active_orders (entries xs) (entries ys)
        ∙ ap (λ d. b.active_orders ++ d) (sym (entries-append xs ys));
    next = omega (arith, p.next, q.next, length-append xs ys);
    numbered =
        IsNumbered-append b.next_id xs ys p.numbered
          (subst (λ k. IsNumbered k ys) p.next q.numbered);
    below = q.below;
    position = q.position ∙ p.position;
  }

  place-Tracks :
      (side type price qty : ℤ) (b : BaseAgent F)
      → IsBelow b.next_id b.active_orders
      → let (o, b') = place side type price qty b in Tracks b (o ∷ []) b'
  unfolding place track_order
  place-Tracks side type price qty b h =
      let o = order_of side type price qty b in
      let e = insert-IsBelow b.next_id o b.active_orders h in
      record {
        active = e;
        next = refl;
        numbered = (refl, tt);
        below = subst (IsBelow (b.next_id + 1)) (sym e) (
            All-append (λ e. e.0 < b.next_id + 1) b.active_orders ((b.next_id, o) ∷ [])
              (IsBelow-suc b.next_id b.active_orders h) (omega arith, tt));
        position = refl;
      }

  quote_if-Tracks :
      (can : Bool) (side price qty : ℤ) (b : BaseAgent F)
      → IsBelow b.next_id b.active_orders
      → let (os, b') = quote_if can side price qty b in Tracks b os b'
  quote_if-Tracks false side price qty b h = Tracks-nil b h
  quote_if-Tracks true side price qty b h = place-Tracks side (pos 0) price qty b h

  pub ladder-Tracks :
      (levels level : ℕ) (p : Quoting) (b : BaseAgent F)
      → IsBelow b.next_id b.active_orders
      → let (os, b') = ladder levels level p b in Tracks b os b'
  unfolding ladder
  ladder-Tracks zero level p b h = Tracks-nil b h
  ladder-Tracks (suc levels) level p b h =
      let offset = pos level *ℤ p.spacing in
      let qty = level_qty level p.quantity in
      let (bids, b₁) = quote_if p.can_buy (pos 0) (p.bid_price -ℤ offset) qty b in
      let (asks, b₂) = quote_if p.can_sell (pos 1) (p.ask_price +ℤ offset) qty b₁ in
      let (rest, b₃) = ladder levels (level + 1) p b₂ in
      let t₁ = quote_if-Tracks p.can_buy (pos 0) (p.bid_price -ℤ offset) qty b h in
      let t₂ = quote_if-Tracks p.can_sell (pos 1) (p.ask_price +ℤ offset) qty b₁ t₁.below in
      let t₃ = ladder-Tracks levels (level + 1) p b₂ t₂.below in
      Tracks-append b b₁ b₃ bids (asks ++ rest) t₁ (Tracks-append b₁ b₂ b₃ asks rest t₂ t₃)
