-- ===== src/Agents/Base/Fills.antt =====
-- `on_fill` of simulation/agents/base_agent.py: which order a fill is taken for, and when that
-- order is dropped.
use liquidity_arena.Prelude.{
  ℕ, ◌+◌, ◌≡◌, ◌≢◌, refl, ◌∙◌, sym, ap, ◌*◌, none, some, List, [], ◌∷◌, arith, if◌then◌else◌,
  Option-cases, Bool-cases, inl, inr, All, ◌⊎◌,
}
use liquidity_arena.Prelude.Int.{
  ℤ, pos, neg, ◌+ℤ◌, ◌-ℤ◌, ◌*ℤ◌, ◌==ℤ◌, ◌<ℤ◌, leb_ℤ, pos_part, neg_part, sub_ℕ, int_laws,
}
use liquidity_arena.Prelude.Dict.{Dict, lookup, keys, erase}
use liquidity_arena.Numeric.{Float, of_int, ◌⊕◌, ◌⊗◌}
use liquidity_arena.Wire.Messages.{FillMsg}
use liquidity_arena.Agents.Base.{
  AgentOrder, BaseAgent, find_order, find_active, apply_fill, on_fill,
}

find_order-nil : (f : FillMsg) (k : ℕ) → find_order f [] ≢ some k
unfolding find_order
find_order-nil f k e = cc

-- A key that `find_order` gives is in the dictionary, and is the fill's maker or its taker.
find_order-some :
    (f : FillMsg) (d : Dict AgentOrder) (k : ℕ)
    → find_order f (keys d) ≡ some k
    → (lookup k d ≢ none) × ((k ≡ f.maker_id) ⊎ (k ≡ f.taker_id))
unfolding find_order
find_order-some f [] k e = cc
find_order-some f ((j, o) ∷ d) k e = ground (arith, find_order-some f d k)

-- If it gives none, no key is the fill's maker or its taker.
find_order-none :
    (f : FillMsg) (d : Dict AgentOrder) (k : ℕ)
    → find_order f (keys d) ≡ none
    → (k ≡ f.maker_id) ⊎ (k ≡ f.taker_id)
    → lookup k d ≡ none
unfolding find_order
find_order-none f [] k e h = refl
find_order-none f ((j, o) ∷ d) k e h = ground (arith, find_order-none f d k)

find_active-some :
    (f : FillMsg) (d : Dict AgentOrder) (k : ℕ) (o : AgentOrder)
    → find_active f d ≡ some (k, o)
    → (find_order f (keys d) ≡ some k) × (lookup k d ≡ some o)
unfolding find_active
find_active-some f d k o e = elim (Option-cases (find_order f (keys d))) [
  | inl e1 ↦ absurd (ground arith)
  | inr (k', e1) ↦ elim (Option-cases (lookup k' d)) [
    | inl e2 ↦ absurd (ground arith)
    | inr (o', e2) ↦ ground arith
  ]
]

-- The search skips an order whose key is not there: it finds one exactly when there is one.
find_active-of_lookup :
    (f : FillMsg) (d : Dict AgentOrder) (k : ℕ) (o : AgentOrder)
    → find_order f (keys d) ≡ some k
    → lookup k d ≡ some o
    → find_active f d ≡ some (k, o)
unfolding find_active
find_active-of_lookup f d k o e e' = ground arith

add_comm : (a b : ℕ) → a + b ≡ b + a
add_comm a b = omega arith

parts-neg : (a : ℤ) → (pos_part (neg a) ≡ neg_part a) × (neg_part (neg a) ≡ pos_part a)
unfolding neg
parts-neg a = ground arith

neg-sub_ℕ : (a b : ℕ) → neg (sub_ℕ a b) ≡ sub_ℕ b a
unfolding neg
neg-sub_ℕ a b = ground arith

add_neg : (a b : ℤ) → a +ℤ neg b ≡ a -ℤ b
add_neg a b = omega int_laws

neg-mul : (a b : ℤ) → neg a *ℤ b ≡ neg (a *ℤ b)
unfolding ◌*ℤ◌
neg-mul a b =
    let (p, q) = parts-neg a in
    rw (p, q)
      (λ i.
        sub_ℕ (add_comm (neg_part a * pos_part b) (pos_part a * neg_part b) i)
          (add_comm (neg_part a * neg_part b) (pos_part a * pos_part b) i))
    ∙ sym (neg-sub_ℕ _ _)

neg-mul_neg : (a b : ℤ) → neg a *ℤ neg b ≡ a *ℤ b
unfolding ◌*ℤ◌
neg-mul_neg a b =
    let (p, q) = parts-neg a in
    let (r, s) = parts-neg b in
    rw (p, q, r, s)
      (λ i.
        sub_ℕ (add_comm (neg_part a * neg_part b) (pos_part a * pos_part b) i)
          (add_comm (neg_part a * pos_part b) (pos_part a * neg_part b) i))

module _ {F : Type 0} ⦃fl : Float F⦄ where
  -- A fill that names no active order, as maker or as taker, changes nothing of the agent.
  on_fill-other :
      (f : FillMsg) (b : BaseAgent F)
      → lookup f.maker_id b.active_orders ≡ none
      → lookup f.taker_id b.active_orders ≡ none
      → on_fill f b ≡ b
  unfolding on_fill
  on_fill-other f b hm ht = elim (Option-cases (find_active f b.active_orders)) [
    | inl e ↦ rw e
    | inr ((k, o), e) ↦
        let (ek, eo) = find_active-some f b.active_orders k o e in
        let (_, which) = find_order-some f b.active_orders k ek in absurd (ground arith)
  ]

  -- The inventory and the realized PnL that a fill of a price and a quantity leaves: of an ASK (side
  -- 1) the quantity goes out and its price comes in, and of any other the other way round.
  abbrev pub Booked : (side price quantity : ℤ) → BaseAgent F → BaseAgent F → Type 0
  Booked side price quantity b b' =
      (side ≡ pos 1)
        × (b'.stats.inventory ≡ b.stats.inventory -ℤ quantity)
        × (b'.stats.realized_pnl ≡ b.stats.realized_pnl ⊕ of_int (price *ℤ quantity) ⊗ b.tick_size)
      ⊎ ((side ≢ pos 1)
          × (b'.stats.inventory ≡ b.stats.inventory +ℤ quantity)
          × (b'.stats.realized_pnl
              ≡ b.stats.realized_pnl ⊕ of_int (neg (price *ℤ quantity)) ⊗ b.tick_size))

  apply_fill-Booked :
      (k : ℕ) (o : AgentOrder) (f : FillMsg) (b : BaseAgent F)
      → Booked o.side f.price f.quantity b (apply_fill k o f b)
  unfolding apply_fill
  apply_fill-Booked k o f b = elim (Bool-cases (o.side ==ℤ pos 1)) [
    | inl e ↦ rw e (
        inl (
          ground arith,
          add_neg _ _,
          ap (λ n. b.stats.realized_pnl ⊕ of_int n ⊗ b.tick_size) (neg-mul_neg f.price f.quantity),
        ))
    | inr e ↦ rw e (
        inr (
          ground arith,
          refl,
          ap (λ n. b.stats.realized_pnl ⊕ of_int n ⊗ b.tick_size) (neg-mul f.price f.quantity),
        ))
  ]

  -- A fill that names an active order, as maker or as taker, is booked once, for one active order
  -- that it names: if its side is 1, the quantity leaves the inventory and the realized PnL grows
  -- by the price times the quantity, times the tick size; otherwise the quantity enters the
  -- inventory and the realized PnL falls by as much. The order is dropped if the fill is of its
  -- quantity at least, and otherwise all active orders stay.
  pub on_fill-ours :
      (f : FillMsg) (b : BaseAgent F) (j : ℕ) (p : AgentOrder)
      → lookup j b.active_orders ≡ some p
      → (j ≡ f.maker_id) ⊎ (j ≡ f.taker_id)
      → (k : ℕ) × (o : AgentOrder) × (lookup k b.active_orders ≡ some o)
        × ((k ≡ f.maker_id) ⊎ (k ≡ f.taker_id))
        × Booked o.side f.price f.quantity b (on_fill f b)
        × ((on_fill f b).stats.total_fills ≡ b.stats.total_fills + 1)
        × ((on_fill f b).active_orders
            ≡ (if leb_ℤ o.quantity f.quantity then erase k b.active_orders else b.active_orders))
  unfolding on_fill apply_fill
  on_fill-ours f b j p e h = elim (Option-cases (find_order f (keys b.active_orders))) [
    | inl e1 ↦ absurd (ground (arith, find_order-none f b.active_orders j e1 h))
    | inr (k, e1) ↦
        let (present, which) = find_order-some f b.active_orders k e1 in
        elim (Option-cases (lookup k b.active_orders)) [
          | inl e2 ↦ absurd (present e2)
          | inr (o, e2) ↦
              let found = find_active-of_lookup f b.active_orders k o e1 e2 in
              rw found (k, o, e2, which, apply_fill-Booked k o f b, refl, refl)
        ]
  ]

  abbrev pub on_fills : List FillMsg → BaseAgent F → BaseAgent F
  on_fills [] b = b
  on_fills (f ∷ fs) b = on_fills fs (on_fill f b)

  on_fill-partial :
      (f : FillMsg) (b : BaseAgent F) (k : ℕ) (o : AgentOrder)
      → find_active f b.active_orders ≡ some (k, o)
      → f.quantity <ℤ o.quantity
      → (on_fill f b).active_orders ≡ b.active_orders
  unfolding on_fill apply_fill
  on_fill-partial f b k o e h = ground arith

  -- An order is not dropped by fills that are each smaller than its quantity, whatever they sum to:
  -- the quantity of an active order is never reduced. So an order that is filled in two parts or
  -- more stays active, with its whole quantity.
  pub on_fills-keep :
      (fs : List FillMsg) (b : BaseAgent F) (k : ℕ) (o : AgentOrder)
      → All (λ f. (find_active f b.active_orders ≡ some (k, o)) × (f.quantity <ℤ o.quantity)) fs
      → (on_fills fs b).active_orders ≡ b.active_orders
  on_fills-keep [] b k o h = refl
  on_fills-keep (f ∷ fs) b k o h =
      let same = on_fill-partial f b k o h.0.0 h.0.1 in
      on_fills-keep fs (on_fill f b) k o (rw same h.1) ∙ same
