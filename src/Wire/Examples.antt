-- ===== src/Wire/Examples.antt =====
-- Runs of the client's protocol on concrete bytes.
use liquidity_arena.Prelude.{
  ℕ, ◌≡◌, ◌^◌, refl, true, false, none, some, List, [], ◌∷◌, ◌++◌, arith, replicate,
}
use liquidity_arena.Prelude.Int.{pos, negsuc}
use liquidity_arena.Wire.Struct.{pack, unpack}
use liquidity_arena.Wire.Messages.{
  MsgType, NewOrderMsg, new_order_format, new_order_values, cancel_order_format, FillMsg,
  unpack_fill, msg_type,
}
use liquidity_arena.Wire.Client.{
  Client, Socket, fill, returned, raised, struct_error, value_error, framed, send_new_order,
  send_cancel, header, split_frame, decode, drain, drain_all, received, process, poll,
}
use liquidity_arena.Wire.Client.Chunks.{feed, feed-eq-drain_all}
use liquidity_arena.Wire.Client.Replies.{IsStream, end, more, IsFrame, drain_all-IsStream}
use liquidity_arena.Wire.Client.Requests.{
  IsRequest, AllFit, send_new_order-IsRequest, send_new_order-refused, send_cancel-IsRequest,
}
use liquidity_arena.Wire.Client.Faults.{poll-raised}

program : Unit {0}
unfolding poll process drain split_frame header decode unpack_fill msg_type pack unpack framed
program = tt

abbrev socket : Socket
socket = record { connected = true; sent = [] }

abbrev client : Client
client = record { sock = some socket; recv_buffer = []; on_fill = true; on_book_update = false }

abbrev trade : FillMsg
trade = record { maker_id = 7; taker_id = 1000001; price = pos 9995; quantity = pos 40 }

abbrev trade_body : List ℕ
trade_body =
    (7 ∷ replicate 7 0)
    ++ ((65 ∷ 66 ∷ 15 ∷ replicate 5 0) ++ ((11 ∷ 39 ∷ replicate 6 0) ++ (40 ∷ replicate 3 0)))

-- The engine's two fees, of eight bytes each.
abbrev fees : List ℕ
fees = (255 ∷ replicate 7 255) ++ (3 ∷ replicate 7 0)

abbrev trade_frame : List ℕ
trade_frame = (3 ∷ 44 ∷ replicate 3 0) ++ (trade_body ++ fees)

trade_frame-IsFrame : IsFrame (fill trade) trade_frame
unfolding program
trade_frame-IsFrame = record {
  body = trade_body;
  extra = fees;
  full = tt;
  packed = refl;
  whole = refl;
}

trades : IsStream (fill trade ∷ fill trade ∷ []) (trade_frame ++ (trade_frame ++ []))
trades = more trade_frame-IsFrame (more trade_frame-IsFrame end)

drain_all-IsStream_example :
    drain_all (trade_frame ++ (trade_frame ++ []))
    ≡ record { messages = fill trade ∷ fill trade ∷ []; buffer = []; fault = none }
drain_all-IsStream_example =
    drain_all-IsStream (fill trade ∷ fill trade ∷ []) (trade_frame ++ (trade_frame ++ [])) trades

-- A trade in three pieces, cut inside the header and inside the payload, and the start of another.
abbrev pieces : List (List ℕ)
pieces =
    (3 ∷ 44 ∷ [])
    ∷ (0 ∷ 0 ∷ 0 ∷ 7 ∷ [])
    ∷ (replicate 7 0
        ++ ((65 ∷ 66 ∷ 15 ∷ replicate 5 0)
            ++ ((11 ∷ 39 ∷ replicate 6 0) ++ ((40 ∷ replicate 3 0) ++ fees))))
    ∷ (3 ∷ 44 ∷ [])
    ∷ []

feed-eq-drain_all_example :
    feed pieces client ≡ (returned (fill trade ∷ []), record client { recv_buffer = 3 ∷ 44 ∷ [] })
unfolding program
feed-eq-drain_all_example = feed-eq-drain_all pieces client socket refl refl refl

abbrev bid : NewOrderMsg
bid = record {
  id = 7;
  side = pos 0;
  order_type = pos 0;
  price = negsuc 0;
  quantity = pos 100;
  display_qty = pos 0;
}

send_new_order-IsRequest_example :
    (frame : List ℕ) × (send_new_order 31 bid client
      ≡ (returned tt, record client { sock = some (record socket { sent = frame }) }))
    × IsRequest MsgType.new_order new_order_format
        (pos bid.id ∷ bid.side ∷ bid.order_type ∷ bid.price ∷ bid.quantity ∷ bid.display_qty ∷ [])
        frame
send_new_order-IsRequest_example =
    send_new_order-IsRequest 31 bid client socket refl refl (omega arith) (omega arith)

abbrev too_large : NewOrderMsg
too_large = record bid { quantity = pos (2 ^ 31) }

not_fits : ¬ AllFit new_order_format (new_order_values too_large)
not_fits h = omega arith

send_new_order-refused_example : send_new_order 31 too_large client ≡ (raised struct_error, client)
send_new_order-refused_example = send_new_order-refused 31 too_large client not_fits

send_cancel-IsRequest_example :
    (frame : List ℕ) × (send_cancel 13 999999 client
      ≡ (returned tt, record client { sock = some (record socket { sent = frame }) }))
    × IsRequest MsgType.cancel_order cancel_order_format (pos 999999 ∷ []) frame
send_cancel-IsRequest_example =
    send_cancel-IsRequest 13 999999 client socket refl refl (omega arith) (omega arith)

-- A message of type 6, which `MsgType` does not have.
abbrev modify : List ℕ
modify = 6 ∷ replicate 4 0

poll-raised_example : poll (received (trade_frame ++ (modify ++ (3 ∷ [])))) client ≡ record {
  result = raised value_error;
  called = fill trade ∷ [];
  client = record client { recv_buffer = 3 ∷ [] };
}
unfolding program
poll-raised_example =
    poll-raised client socket (fill trade ∷ []) (trade_frame ++ []) (modify ++ (3 ∷ [])) refl refl
      (more trade_frame-IsFrame end) refl refl refl
