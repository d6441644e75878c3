-- ===== src/Agents/Base/Ids.antt =====
-- The order ids of simulation/agents/base_agent.py: each agent counts up from the start of its own
-- million.
use liquidity_arena.Prelude.{ℕ, zero, suc, ◌+◌, ◌*◌, ◌<◌, ◌≡◌, arith}
use liquidity_arena.Numeric.{Float}
use liquidity_arena.Agents.Base.{BaseAgent, ids_per_agent, new_agent, next_order_id}

module _ {F : Type 0} ⦃fl : Float F⦄ where
  -- The agent that has drawn k ids.
  pub drawn : ℕ → BaseAgent F → BaseAgent F
  drawn zero b = b
  drawn (suc k) b = (next_order_id (drawn k b)).1

  -- The id that the i-th agent draws after k others.
  pub id_after : F → ℕ → ℕ → ℕ
  id_after tick i k = (next_order_id (drawn k (new_agent i tick).0)).0

  drawn-next_id : (k : ℕ) (b : BaseAgent F) → (drawn k b).next_id ≡ b.next_id + k
  unfolding drawn next_order_id
  drawn-next_id zero b = omega arith
  drawn-next_id (suc k) b = omega (arith, drawn-next_id k b)

  id_after-eq : (tick : F) (i k : ℕ) → id_after tick i k ≡ i * ids_per_agent + 1 + k
  unfolding id_after next_order_id new_agent
  id_after-eq tick i k = drawn-next_id k (new_agent i tick).0

  -- Among the first million ids of each agent no two are equal, of one agent or of two.
  pub id_after-injective :
      (tick : F) (i j k l : ℕ)
      → k < ids_per_agent
      → l < ids_per_agent
      → id_after tick i k ≡ id_after tick j l
      → (i ≡ j) × (k ≡ l)
  id_after-injective tick i j k l hk hl e =
      omega (arith, id_after-eq tick i k, id_after-eq tick j l)

  -- The million-and-first id of an agent is the first id of the next agent.
  pub id_after-overflow :
      (tick : F) (i : ℕ) → id_after tick i ids_per_agent ≡ id_after tick (suc i) 0
  id_after-overflow tick i =
      omega (arith, id_after-eq tick i ids_per_agent, id_after-eq tick (suc i) 0)
