-- ===== src/Wire/Messages.antt =====
-- The message classes of simulation/market/tcp_client.py: MsgType, NewOrderMsg, CancelOrderMsg,
-- FillMsg and BookUpdateMsg, with their formats. A field that is packed as unsigned and names an
-- order is a natural number; every other field is a Python integer. `none` is an exception: a
-- `struct.error`, or the `ValueError` of an unknown message type.
use liquidity_arena.Prelude.{
  ℕ, Option, none, some, List, [], ◌∷◌, ◌++◌, ◌==◌, ◌>>=◌, take, drop, replicate, if◌then◌else◌,
}
use liquidity_arena.Prelude.Int.{ℤ, pos, pos_part}
use liquidity_arena.Wire.Struct.{Code, calcsize, pack, unpack}

pub data MsgType : Type 0 where
  new_order cancel_order fill book_update reject heartbeat : MsgType

abbrev pub msg_code : MsgType → ℕ
msg_code MsgType.new_order = 1
msg_code MsgType.cancel_order = 2
msg_code MsgType.fill = 3
msg_code MsgType.book_update = 4
msg_code MsgType.reject = 5
msg_code MsgType.heartbeat = 255

-- `MsgType(code)`
unfoldable pub msg_type : ℕ → Option MsgType
msg_type c =
    if c == 1
    then some MsgType.new_order
    else if c == 2
    then some MsgType.cancel_order
    else if c == 3
    then some MsgType.fill
    else if c == 4
    then some MsgType.book_update
    else if c == 5
    then some MsgType.reject
    else if c == 255
    then some MsgType.heartbeat
    else none

pub record NewOrderMsg : Type 0 where
  pub id : ℕ
  pub side : ℤ
  pub order_type : ℤ
  pub price : ℤ
  pub quantity : ℤ
  pub display_qty : ℤ

-- "<QBBqii"
abbrev pub new_order_format : List Code
new_order_format = Code.u64 ∷ Code.u8 ∷ Code.u8 ∷ Code.i64 ∷ Code.i32 ∷ Code.i32 ∷ []

abbrev pub new_order_values : NewOrderMsg → List ℤ
new_order_values m = pos m.id ∷ m.side ∷ m.order_type ∷ m.price ∷ m.quantity ∷ m.display_qty ∷ []

unfoldable pub pack_new_order : NewOrderMsg → Option (List ℕ)
pack_new_order m = pack new_order_format (new_order_values m)

pub record CancelOrderMsg : Type 0 where
  pub id : ℕ

-- "<Q"
abbrev pub cancel_order_format : List Code
cancel_order_format = Code.u64 ∷ []

unfoldable pub pack_cancel_order : CancelOrderMsg → Option (List ℕ)
pack_cancel_order m = pack cancel_order_format (pos m.id ∷ [])

pub record FillMsg : Type 0 where
  pub maker_id : ℕ
  pub taker_id : ℕ
  pub price : ℤ
  pub quantity : ℤ

-- "<QQqi"
abbrev pub fill_format : List Code
fill_format = Code.u64 ∷ Code.u64 ∷ Code.i64 ∷ Code.i32 ∷ []

abbrev pub fill_values : FillMsg → List ℤ
fill_values f = pos f.maker_id ∷ pos f.taker_id ∷ f.price ∷ f.quantity ∷ []

-- `maker_id, taker_id, price, qty = values`
abbrev pub fill_of : List ℤ → Option FillMsg
fill_of (maker ∷ taker ∷ p ∷ q ∷ []) =
    some (record { maker_id = pos_part maker; taker_id = pos_part taker; price = p; quantity = q })
fill_of _ = none

-- `FillMsg.unpack`
unfoldable pub unpack_fill : List ℕ → Option FillMsg
unpack_fill bytes = do fill_of (← unpack fill_format (take (calcsize fill_format) bytes))

abbrev pub max_depth_levels : ℕ
max_depth_levels = 10

pub record BookUpdateMsg : Type 0 where
  pub best_bid : ℤ
  pub best_ask : ℤ
  pub num_bid_levels : ℤ
  pub num_ask_levels : ℤ
  pub bid_prices : List ℤ
  pub bid_quantities : List ℤ
  pub ask_prices : List ℤ
  pub ask_quantities : List ℤ

-- "<qqii" + "q" * 10 + "i" * 10 + "q" * 10 + "i" * 10
abbrev pub book_update_format : List Code
book_update_format =
    (Code.i64 ∷ Code.i64 ∷ Code.i32 ∷ Code.i32 ∷ [])
    ++ (replicate max_depth_levels Code.i64
        ++ (replicate max_depth_levels Code.i32
            ++ (replicate max_depth_levels Code.i64 ++ replicate max_depth_levels Code.i32)))

abbrev pub book_update_values : BookUpdateMsg → List ℤ
book_update_values u =
    u.best_bid
    ∷ u.best_ask
    ∷ u.num_bid_levels
    ∷ u.num_ask_levels
    ∷ (u.bid_prices ++ (u.bid_quantities ++ (u.ask_prices ++ u.ask_quantities)))

-- `values[4:14]` is the first ten of what follows the first four values, and so on.
abbrev pub book_update_of : List ℤ → Option BookUpdateMsg
book_update_of (bid ∷ ask ∷ bids ∷ asks ∷ levels) = some (record {
  best_bid = bid;
  best_ask = ask;
  num_bid_levels = bids;
  num_ask_levels = asks;
  bid_prices = take 10 levels;
  bid_quantities = take 10 (drop 10 levels);
  ask_prices = take 10 (drop 20 levels);
  ask_quantities = take 10 (drop 30 levels);
})
book_update_of _ = none

-- `BookUpdateMsg.unpack`
unfoldable pub unpack_book_update : List ℕ → Option BookUpdateMsg
unpack_book_update bytes = do
  book_update_of (← unpack book_update_format (take (calcsize book_update_format) bytes))

-- "<BI"
abbrev pub header_format : List Code
header_format = Code.u8 ∷ Code.u32 ∷ []

abbrev pub header_size : ℕ
header_size = calcsize header_format
