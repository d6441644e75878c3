-- ===== src/Agents/Base.antt =====
-- simulation/agents/base_agent.py: the orders, the statistics and the methods that every agent
-- inherits from `BaseAgent`. A method returns the agent with its attributes changed. Sides and
-- order types are Python integers (0 is BID or LIMIT, 1 is ASK or MARKET).
pub mod Ids
pub mod Fills
pub mod Ledger
pub mod Sending
use liquidity_arena.Prelude.{
  ℕ, suc, ◌+◌, ◌*◌, Bool, Option, none, some, List, [], ◌∷◌, ◌++◌, ◌||◌, ◌==◌, if◌then◌else◌, ◌>>=◌,
}
use liquidity_arena.Prelude.Int.{ℤ, pos, ◌+ℤ◌, ◌*ℤ◌, neg, abs, leb_ℤ, ◌==ℤ◌}
use liquidity_arena.Prelude.Dict.{Dict, lookup, insert, erase, keys}
use liquidity_arena.Numeric.{Float, ◌⊕◌, ◌⊗◌, of_int}
use liquidity_arena.Wire.Messages.{FillMsg}

pub record AgentOrder : Type 0 where
  pub order_id : ℕ
  pub side : ℤ
  pub order_type : ℤ
  pub price : ℤ
  pub quantity : ℤ

pub record AgentStats (F : Type 0) : Type 0 where
  pub total_pnl : F
  pub realized_pnl : F
  pub unrealized_pnl : F
  pub inventory : ℤ
  pub total_fills : ℕ
  pub total_orders_sent : ℕ
  pub total_volume : ℤ
  pub avg_fill_price : F
  pub spread_pnl : F
  pub inventory_pnl : F

pub record BaseAgent (F : Type 0) : Type 0 where
  pub tick_size : F
  pub stats : AgentStats F
  pub id_offset : ℕ
  pub next_id : ℕ
  pub active_orders : Dict AgentOrder
  pub fill_prices : List (ℤ × ℤ)
  pub mid_price : ℤ

-- What `on_book_update` gives: the orders to send and the agent afterwards, or an exception, which
-- numpy raises for a draw from an empty range.
abbrev pub Reaction : Type 0 → Type 0
Reaction T = Option (List AgentOrder × T)

abbrev pub ids_per_agent : ℕ
ids_per_agent = 1_000_000

-- The first active order that the fill names as its maker or its taker.
unfoldable pub find_order : FillMsg → List ℕ → Option ℕ
find_order f [] = none
find_order f (oid ∷ oids) =
    if oid == f.maker_id || oid == f.taker_id then some oid else find_order f oids

-- The order that a fill is taken for, with its key.
unfoldable pub find_active : FillMsg → Dict AgentOrder → Option (ℕ × AgentOrder)
find_active f active = do
  my_order_id ← find_order f (keys active)
  o ← lookup my_order_id active
  some (my_order_id, o)

-- `qty`: the fill's quantity, negated for an ASK.
abbrev pub signed_qty : AgentOrder → FillMsg → ℤ
signed_qty o f = if o.side ==ℤ pos 1 then neg f.quantity else f.quantity

module _ {F : Type 0} ⦃fl : Float F⦄ where
  abbrev pub new_stats : AgentStats F
  new_stats = record {
    total_pnl = of_int (pos 0);
    realized_pnl = of_int (pos 0);
    unrealized_pnl = of_int (pos 0);
    inventory = pos 0;
    total_fills = 0;
    total_orders_sent = 0;
    total_volume = pos 0;
    avg_fill_price = of_int (pos 0);
    spread_pnl = of_int (pos 0);
    inventory_pnl = of_int (pos 0);
  }

  -- `__init__`, from the class-level counter of agents and with the counter's new value.
  unfoldable pub new_agent : ℕ → F → BaseAgent F × ℕ
  new_agent agent_counter tick = (
    record {
      tick_size = tick;
      stats = new_stats;
      id_offset = agent_counter * ids_per_agent;
      next_id = agent_counter * ids_per_agent + 1;
      active_orders = [];
      fill_prices = [];
      mid_price = pos 0;
    },
    agent_counter + 1,
  )

  unfoldable pub next_order_id : BaseAgent F → ℕ × BaseAgent F
  next_order_id b = (
    b.next_id,
    record b {
      next_id = b.next_id + 1;
      stats = record b.stats { total_orders_sent = b.stats.total_orders_sent + 1 };
    },
  )

  unfoldable pub track_order : AgentOrder → BaseAgent F → BaseAgent F
  track_order o b = record b { active_orders = insert o.order_id o b.active_orders }

  -- `cash_flow * self.tick_size`, where `cash_flow` is `-price * qty`.
  abbrev pub cash : F → ℤ → ℤ → F
  cash tick price qty = of_int (neg price *ℤ qty) ⊗ tick

  -- `on_fill` behind its search, for the agent's order `o`.
  unfoldable pub apply_fill : ℕ → AgentOrder → FillMsg → BaseAgent F → BaseAgent F
  apply_fill my_order_id o f b =
      let qty = signed_qty o f in
      record b {
        stats = record b.stats {
          inventory = b.stats.inventory +ℤ qty;
          total_fills = b.stats.total_fills + 1;
          total_volume = b.stats.total_volume +ℤ abs f.quantity;
          realized_pnl = b.stats.realized_pnl ⊕ cash b.tick_size f.price qty;
        };
        fill_prices = b.fill_prices ++ (f.price, qty) ∷ [];
        active_orders =
            if leb_ℤ o.quantity f.quantity
            then erase my_order_id b.active_orders
            else b.active_orders;
      }

  -- `none`: the fill is not ours.
  abbrev pub filled : FillMsg → BaseAgent F → Option (ℕ × AgentOrder) → BaseAgent F
  filled f b none = b
  filled f b (some (my_order_id, o)) = apply_fill my_order_id o f b

  unfoldable pub on_fill : FillMsg → BaseAgent F → BaseAgent F
  on_fill f b = filled f b (find_active f b.active_orders)

  unfoldable pub update_unrealized_pnl : ℤ → BaseAgent F → BaseAgent F
  update_unrealized_pnl mid b =
      let unrealized = of_int (b.stats.inventory *ℤ mid) ⊗ b.tick_size in
      record b {
        mid_price = mid;
        stats = record b.stats {
          unrealized_pnl = unrealized;
          total_pnl = b.stats.realized_pnl ⊕ unrealized;
        };
      }

  unfoldable pub cancel_all : BaseAgent F → List ℕ × BaseAgent F
  cancel_all b = (keys b.active_orders, record b { active_orders = [] })

  -- What the agents do with a new order: its id is drawn as it is made, and then it is tracked.
  unfoldable pub place : ℤ → ℤ → ℤ → ℤ → BaseAgent F → AgentOrder × BaseAgent F
  unfolding next_order_id track_order
  place order_side type price' qty b =
      let (oid, b') = next_order_id b in
      let o : AgentOrder = record {
        order_id = oid;
        side = order_side;
        order_type = type;
        price = price';
        quantity = qty;
      } in
      (o, track_order o b')
