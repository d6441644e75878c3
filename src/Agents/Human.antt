-- ===== src/Agents/Human.antt =====
-- simulation/agents/human_agent.py: `HumanAgent`, which queues the player's orders until the
-- simulator calls it.
pub mod Queue
use liquidity_arena.Prelude.{ℕ, Option, none, some, List, [], ◌∷◌, ◌++◌, if◌then◌else◌}
use liquidity_arena.Prelude.Int.{ℤ, pos, ◌+ℤ◌, ◌-ℤ◌, leb_ℤ, ◌==ℤ◌}
use liquidity_arena.Numeric.{Float}
use liquidity_arena.Wire.Messages.{BookUpdateMsg}
use liquidity_arena.Agents.Base.{
  AgentOrder, BaseAgent, new_agent, next_order_id, track_order, cancel_all,
}

pub record HumanAgent (F : Type 0) : Type 0 where
  pub base : BaseAgent F
  pub pending_orders : List AgentOrder
  pub pending_cancels : List ℕ
  pub last_book : Option BookUpdateMsg

-- `self.last_book.best_bid - offset if side == 0 else self.last_book.best_ask + offset`
abbrev pub limit_price : ℤ → ℤ → BookUpdateMsg → ℤ
limit_price side offset book =
    if side ==ℤ pos 0 then book.best_bid -ℤ offset else book.best_ask +ℤ offset

module _ {F : Type 0} ⦃fl : Float F⦄ where
  unfoldable pub new_human : ℕ → F → HumanAgent F × ℕ
  new_human agent_counter tick =
      let (b, counter) = new_agent agent_counter tick in
      (record { base = b; pending_orders = []; pending_cancels = []; last_book = none }, counter)

  -- `for order in orders: self.track_order(order)`
  unfoldable pub track_all : List AgentOrder → BaseAgent F → BaseAgent F
  track_all [] b = b
  track_all (o ∷ orders) b = track_all orders (track_order o b)

  unfoldable pub on_book_update : BookUpdateMsg → ℕ → HumanAgent F → List AgentOrder × HumanAgent F
  on_book_update update step h = (
    h.pending_orders,
    record h {
      base = track_all h.pending_orders h.base;
      pending_orders = [];
      last_book = some update;
    },
  )

  -- Draws an id and appends the order to the queue.
  unfoldable pub enqueue : ℤ → ℤ → ℤ → ℤ → HumanAgent F → HumanAgent F
  unfolding next_order_id
  enqueue order_side type price' qty h =
      let (oid, b) = next_order_id h.base in
      record h {
        base = b;
        pending_orders =
            h.pending_orders
            ++ (record {
              order_id = oid;
              side = order_side;
              order_type = type;
              price = price';
              quantity = qty;
            })
              ∷ [];
      }

  unfoldable pub place_market_order : ℤ → ℤ → HumanAgent F → HumanAgent F
  unfolding enqueue
  place_market_order side qty h = enqueue side (pos 1) (pos 0) qty h

  abbrev pub limit_order : ℤ → ℤ → ℤ → Option BookUpdateMsg → HumanAgent F → HumanAgent F
  limit_order side offset qty none h = h
  limit_order side offset qty (some book) h =
      let price = limit_price side offset book in
      if leb_ℤ price (pos 0) then h else enqueue side (pos 0) price qty h

  unfoldable pub place_limit_order : ℤ → ℤ → ℤ → HumanAgent F → HumanAgent F
  unfolding enqueue
  place_limit_order side offset qty h = limit_order side offset qty h.last_book h

  unfoldable pub cancel_all_quotes : HumanAgent F → HumanAgent F
  unfolding cancel_all
  cancel_all_quotes h =
      let (ids, b) = cancel_all h.base in
      record h { base = b; pending_cancels = h.pending_cancels ++ ids }
