-- ===== src/Wire/Client.antt =====
-- `class TcpClient` of simulation/market/tcp_client.py. The operating system's side of a call is an
-- argument: whether a connection is accepted, how many bytes the socket takes, what `recv` gives.
-- A callback is called for its effect; the model returns the messages that it was called with.
pub mod Framing
pub mod Stream
pub mod Chunks
pub mod Replies
pub mod Faults
pub mod Requests
use liquidity_arena.Prelude.{
  ℕ, zero, suc, ◌+◌, Bool, true, false, Option, none, some, List, [], ◌∷◌, ◌++◌, ltb, leb, take,
  drop, length, if◌then◌else◌,
}
use liquidity_arena.Prelude.Int.{ℤ, pos, pos_part}
use liquidity_arena.Wire.Struct.{pack, unpack}
use liquidity_arena.Wire.Messages.{
  MsgType, msg_code, msg_type, NewOrderMsg, pack_new_order, CancelOrderMsg, pack_cancel_order,
  FillMsg, unpack_fill, BookUpdateMsg, unpack_book_update, header_format, header_size,
}

-- The exceptions that a call may raise.
pub data Fault : Type 0 where
  not_connected struct_error value_error os_error : Fault

pub data Outcome (A : Type 0) : Type 0 where
  returned : A → Outcome A
  raised : Fault → Outcome A

pub data Message : Type 0 where
  fill : FillMsg → Message
  book_update : BookUpdateMsg → Message

-- A socket: whether it is connected, and the bytes that it has taken.
pub record Socket : Type 0 where
  pub connected : Bool
  pub sent : List ℕ

-- `on_fill` and `on_book_update` say whether that callback is set.
pub record Client : Type 0 where
  pub sock : Option Socket
  pub recv_buffer : List ℕ
  pub on_fill : Bool
  pub on_book_update : Bool

abbrev pub new_client : Client
new_client = record { sock = none; recv_buffer = []; on_fill = false; on_book_update = false }

-- The socket is stored before it connects, so it stays there if that fails.
unfoldable pub connect : Bool → Client → Outcome (Unit {0}) × Client
connect accepted c = (
  if accepted then returned tt else raised os_error,
  record c { sock = some (record { connected = accepted; sent = [] }) },
)

unfoldable pub disconnect : Client → Client
disconnect c = record c { sock = none }

unfoldable pub set_fill_callback : Client → Client
set_fill_callback c = record c { on_fill = true }

unfoldable pub set_book_update_callback : Client → Client
set_book_update_callback c = record c { on_book_update = true }

-- `sock.sendall` on a socket that does not block and has room for `room` bytes: it takes what
-- fits, and raises if that is not all.
unfoldable pub sendall : ℕ → List ℕ → Client → Outcome (Unit {0}) × Client
sendall room bytes c = elim c.sock [
  | none ↦ (raised not_connected, c)
  | some s ↦
      if s.connected
      then (
        if leb (length bytes) room then returned tt else raised os_error,
        record c { sock = some (record s { sent = s.sent ++ take room bytes }) },
      )
      else (raised os_error, c)
]

-- A payload behind its header, `struct.pack("<BI", type, len(payload)) + payload`.
unfoldable pub framed : MsgType → Option (List ℕ) → Option (List ℕ)
framed t none = none
framed t (some payload) = elim (pack header_format (pos (msg_code t) ∷ pos (length payload) ∷ [])) [
  | none ↦ none
  | some header ↦ some (header ++ payload)
]

abbrev send_frame : ℕ → Option (List ℕ) → Client → Outcome (Unit {0}) × Client
send_frame room none c = (raised struct_error, c)
send_frame room (some bytes) c = sendall room bytes c

unfoldable pub send_new_order : ℕ → NewOrderMsg → Client → Outcome (Unit {0}) × Client
unfolding framed sendall
send_new_order room m c = send_frame room (framed MsgType.new_order (pack_new_order m)) c

unfoldable pub send_cancel : ℕ → ℕ → Client → Outcome (Unit {0}) × Client
unfolding framed sendall
send_cancel room order_id c =
    send_frame room (framed MsgType.cancel_order (pack_cancel_order (record { id = order_id }))) c

-- What `recv(4096)` does: it gives bytes (none at all if the peer has closed), or raises
-- `BlockingIOError`, or another `OSError`.
pub data Recv : Type 0 where
  received : List ℕ → Recv
  would_block failed : Recv

-- `msg_type, payload_len = values`
abbrev header_of : Option (List ℤ) → ℕ × ℕ
header_of (some (t ∷ n ∷ [])) = (pos_part t, pos_part n)
header_of _ = (0, 0)

-- The type and the length in a header of five bytes.
unfoldable pub header : List ℕ → ℕ × ℕ
header buffer = header_of (unpack header_format (take header_size buffer))

-- The type and the payload of the first message, and what follows it; `none` if the buffer does
-- not hold a whole message.
unfoldable pub split_frame : List ℕ → Option (ℕ × List ℕ × List ℕ)
unfolding header
split_frame buffer =
    let (t, n) = header buffer in
    if ltb (length buffer) header_size
    then none
    else if ltb (length buffer) (header_size + n)
    then none
    else some (t, take n (drop header_size buffer), drop (header_size + n) buffer)

abbrev pub unpacked : {A : Type 0} → (A → Message) → Option A → Outcome (Option Message)
unpacked f none = raised struct_error
unpacked f (some a) = returned (some (f a))

abbrev pub decode_as : MsgType → List ℕ → Outcome (Option Message)
decode_as MsgType.fill payload = unpacked fill (unpack_fill payload)
decode_as MsgType.book_update payload = unpacked book_update (unpack_book_update payload)
decode_as _ payload = returned none

-- Messages of the other types are dropped; an unknown type raises.
unfoldable pub decode : ℕ → List ℕ → Outcome (Option Message)
decode t payload = elim (msg_type t) [ none ↦ raised value_error | some mt ↦ decode_as mt payload ]

-- What the loop of `poll` ends with.
pub record Drained : Type 0 where
  pub messages : List Message
  pub buffer : List ℕ
  pub fault : Option Fault

abbrev pub deliver : Option Message → Drained → Drained
deliver none d = d
deliver (some m) d = record d { messages = m ∷ d.messages }

-- The `while` loop of `poll`. Each round takes a header at least, so as many rounds as the buffer
-- has bytes are enough.
unfoldable pub drain : ℕ → List ℕ → Drained
drain zero buffer = record { messages = []; buffer = buffer; fault = none }
drain (suc rounds) buffer = elim (split_frame buffer) [
  | none ↦ record { messages = []; buffer = buffer; fault = none }
  | some (t, payload, rest) ↦ elim (decode t payload) [
    | raised e ↦ record { messages = []; buffer = rest; fault = some e }
    | returned m ↦ deliver m (drain rounds rest)
  ]
]

abbrev pub drain_all : List ℕ → Drained
drain_all buffer = drain (length buffer) buffer

-- The messages that a callback is called with, in order.
abbrev pub called_back : Client → List Message → List Message
called_back c [] = []
called_back c (fill f ∷ ms) = if c.on_fill then fill f ∷ called_back c ms else called_back c ms
called_back c (book_update u ∷ ms) =
    if c.on_book_update then book_update u ∷ called_back c ms else called_back c ms

pub record Polled : Type 0 where
  pub result : Outcome (List Message)
  pub called : List Message
  pub client : Client

-- An exception discards the list of messages, but not the callbacks' effects.
unfoldable pub process : Client → Polled
process c =
    let d = drain_all c.recv_buffer in
    record {
      result = elim d.fault [ none ↦ returned d.messages | some e ↦ raised e ];
      called = called_back c d.messages;
      client = record c { recv_buffer = d.buffer };
    }

abbrev recv_then : Recv → Client → Polled
recv_then (received []) c = record { result = returned []; called = []; client = c }
recv_then (received (b ∷ bs)) c = process (record c { recv_buffer = c.recv_buffer ++ b ∷ bs })
recv_then would_block c = process c
recv_then failed c = record { result = returned []; called = []; client = c }

unfoldable pub poll : Recv → Client → Polled
unfolding process
poll r c = elim c.sock [
  | none ↦ record { result = raised not_connected; called = []; client = c }
  | some s ↦ recv_then r c
]
