-- ===== src/Wire/Client/Replies.antt =====
-- The messages that the engine sends, as `FillMsg.unpack`, `BookUpdateMsg.unpack` and `poll` of
-- simulation/market/tcp_client.py read them. A payload may be longer than the client's format, as
-- that of the engine's fill is: what is behind the format is not read.
use liquidity_arena.Prelude.{
  ℕ, ◌≡◌, refl, sym, ap, ◌∙◌, none, some, List, [], ◌∷◌, ◌++◌, arith, length, take, drop,
  take-append_self, drop-append_self, append_assoc, append-nil, length-append,
}
use liquidity_arena.Prelude.Int.{ℤ}
use liquidity_arena.Wire.Struct.{Code, calcsize, pack, unpack}
use liquidity_arena.Wire.Struct.RoundTrip.{unpack-pack, pack-some}
use liquidity_arena.Wire.Messages.{
  MsgType, msg_code, msg_type, FillMsg, fill_format, fill_values, unpack_fill, BookUpdateMsg,
  book_update_format, book_update_values, book_update_of, unpack_book_update, max_depth_levels,
}
use liquidity_arena.Wire.Client.{
  Message, fill, book_update, returned, decode, framed, split_frame, drain_all,
}
use liquidity_arena.Wire.Client.Framing.{split_frame-framed}
use liquidity_arena.Wire.Client.Stream.{Drains, done, next, drain_all_iff}

abbrev pub type_of : Message → MsgType
type_of (fill f) = MsgType.fill
type_of (book_update u) = MsgType.book_update

abbrev pub format_of : Message → List Code
format_of (fill f) = fill_format
format_of (book_update u) = book_update_format

abbrev pub values_of : Message → List ℤ
values_of (fill f) = fill_values f
values_of (book_update u) = book_update_values u

-- A book update has ten levels in each of its lists.
abbrev pub IsFull : Message → Type 0
IsFull (fill f) = Unit
IsFull (book_update u) =
    (length u.bid_prices ≡ max_depth_levels)
    × (length u.bid_quantities ≡ max_depth_levels)
    × (length u.ask_prices ≡ max_depth_levels)
    × (length u.ask_quantities ≡ max_depth_levels)

-- The bytes of one message: its type, and its packed fields with anything behind them.
pub record IsFrame (m : Message) (frame : List ℕ) : Type 0 where
  pub body : List ℕ
  pub extra : List ℕ
  pub full : IsFull m
  pub packed : pack (format_of m) (values_of m) ≡ some body
  pub whole : framed (type_of m) (some (body ++ extra)) ≡ some frame

-- The frames of some messages, one behind the other.
pub data IsStream : List Message → List ℕ → Type 0 where
  end : IsStream [] []
  more :
      {m : Message} {ms : List Message} {frame bytes : List ℕ}
      → IsFrame m frame
      → IsStream ms bytes
      → IsStream (m ∷ ms) (frame ++ bytes)

take-pack :
    (cs : List Code) (vs : List ℤ) (body extra : List ℕ)
    → pack cs vs ≡ some body
    → take (calcsize cs) (body ++ extra) ≡ body
take-pack cs vs body extra e =
    let (size, _, _) = pack-some cs vs body e in take-append_self (calcsize cs) body extra size

unpack-take :
    (cs : List Code) (vs : List ℤ) (body extra : List ℕ)
    → pack cs vs ≡ some body
    → unpack cs (take (calcsize cs) (body ++ extra)) ≡ some vs
unpack-take cs vs body extra e = rw (take-pack cs vs body extra e) (unpack-pack cs vs body e)

unpack_fill-pack :
    (f : FillMsg) (body extra : List ℕ)
    → pack fill_format (fill_values f) ≡ some body
    → unpack_fill (body ++ extra) ≡ some f
unfolding unpack_fill
unpack_fill-pack f body extra e = rw (unpack-take fill_format (fill_values f) body extra e)

book_update_of-values :
    (u : BookUpdateMsg) → IsFull (book_update u) → book_update_of (book_update_values u) ≡ some u
book_update_of-values u (hb, hbq, ha, haq) =
    let bids = u.bid_prices in
    let bid_qs = u.bid_quantities in
    let asks = u.ask_prices in
    let ask_qs = u.ask_quantities in
    let from_10 = drop-append_self 10 bids (bid_qs ++ (asks ++ ask_qs)) hb in
    let from_20 : drop 20 (bids ++ (bid_qs ++ (asks ++ ask_qs))) ≡ asks ++ ask_qs =
      ap (drop 20) (sym (append_assoc bids bid_qs (asks ++ ask_qs)))
      ∙ drop-append_self 20 (bids ++ bid_qs) (asks ++ ask_qs)
          (omega (arith, length-append bids bid_qs)) in
    let from_30 : drop 30 (bids ++ (bid_qs ++ (asks ++ ask_qs))) ≡ ask_qs =
      ap (λ l. drop 30 (bids ++ l)) (sym (append_assoc bid_qs asks ask_qs))
      ∙ ap (drop 30) (sym (append_assoc bids (bid_qs ++ asks) ask_qs))
      ∙ drop-append_self 30 (bids ++ (bid_qs ++ asks)) ask_qs
          (omega (arith, length-append bids (bid_qs ++ asks), length-append bid_qs asks)) in
    let last : take 10 ask_qs ≡ ask_qs =
      ap (take 10) (sym (append-nil ask_qs)) ∙ take-append_self 10 ask_qs [] haq in
    rw (
      from_10,
      from_20,
      from_30,
      last,
      take-append_self 10 bids _ hb,
      take-append_self 10 bid_qs _ hbq,
      take-append_self 10 asks _ ha,
    )

unpack_book_update-pack :
    (u : BookUpdateMsg) (body extra : List ℕ)
    → IsFull (book_update u)
    → pack book_update_format (book_update_values u) ≡ some body
    → unpack_book_update (body ++ extra) ≡ some u
unfolding unpack_book_update
unpack_book_update-pack u body extra full e =
    rw (unpack-take book_update_format (book_update_values u) body extra e)
      (book_update_of-values u full)

decode-IsFrame :
    (m : Message) {frame : List ℕ} (h : IsFrame m frame)
    → decode (msg_code (type_of m)) (h.body ++ h.extra) ≡ returned (some m)
unfolding decode msg_type
decode-IsFrame (fill f) h = rw (unpack_fill-pack f h.body h.extra h.packed)
decode-IsFrame (book_update u) h = rw (unpack_book_update-pack u h.body h.extra h.full h.packed)

split_frame-nil : split_frame [] ≡ none
unfolding split_frame
split_frame-nil = refl

pub IsStream-Drains :
    {ms : List Message} {bytes : List ℕ}
    → IsStream ms bytes
    → Drains bytes (record { messages = ms; buffer = []; fault = none })
IsStream-Drains end = done split_frame-nil
IsStream-Drains (more {m = m} {frame = frame} {bytes = bytes} h s) =
    next (split_frame-framed (type_of m) (h.body ++ h.extra) frame bytes h.whole)
      (decode-IsFrame m h) (IsStream-Drains s)

-- Reading the frames of any fills and book updates, one behind the other and each with any bytes
-- behind its fields, gives exactly those messages, in order, and leaves nothing.
pub drain_all-IsStream :
    (ms : List Message) (bytes : List ℕ)
    → IsStream ms bytes
    → drain_all bytes ≡ record { messages = ms; buffer = []; fault = none }
drain_all-IsStream ms bytes s = sym ((drain_all_iff bytes _).0 (IsStream-Drains s))
