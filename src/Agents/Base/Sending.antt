-- ===== src/Agents/Base/Sending.antt =====
-- What a trader of simulation/agents does to its `BaseAgent` (base_agent.py) in one call of
-- `on_book_update`: nothing, or one new order that is sent and tracked.
use liquidity_arena.Prelude.{◌≡◌, refl, ◌⊎◌, inl, inr, List, [], ◌∷◌}
use liquidity_arena.Prelude.Int.{ℤ}
use liquidity_arena.Numeric.{Float}
use liquidity_arena.Agents.Base.{AgentOrder, BaseAgent, next_order_id, track_order, place}

module _ {F : Type 0} ⦃fl : Float F⦄ where
  -- No order and the same agent, or one order that satisfies P, has the agent's next id, and is the
  -- only change of the agent beside the counters of that id.
  abbrev pub Sends : (AgentOrder → Type 0) → BaseAgent F → List AgentOrder → BaseAgent F → Type 0
  Sends P b orders b' =
      (orders ≡ []) × (b' ≡ b)
      ⊎ ((o : AgentOrder) × (orders ≡ o ∷ [])
          × P o
          × (o.order_id ≡ b.next_id)
          × (b' ≡ track_order o (next_order_id b).1))

  abbrev pub order_of : ℤ → ℤ → ℤ → ℤ → BaseAgent F → AgentOrder
  order_of side' type price' qty b = record {
    order_id = b.next_id;
    side = side';
    order_type = type;
    price = price';
    quantity = qty;
  }

  pub place_lem :
      (side type price qty : ℤ) (b : BaseAgent F)
      → let o = order_of side type price qty b in
        place side type price qty b ≡ (o, track_order o (next_order_id b).1)
  unfolding place
  place_lem side type price qty b = refl

  pub Sends-mono :
      (P Q : AgentOrder → Type 0) (b b' : BaseAgent F) (orders : List AgentOrder)
      → ((o : AgentOrder) → P o → Q o)
      → Sends P b orders b'
      → Sends Q b orders b'
  Sends-mono P Q b b' orders h (inl quiet) = inl quiet
  Sends-mono P Q b b' orders h (inr (o, e, p, i, s)) = inr (o, e, h o p, i, s)
