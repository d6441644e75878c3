-- ===== src/Wire/Client/Requests.antt =====
-- What `send_new_order` and `send_cancel` of simulation/market/tcp_client.py put on the wire.
use liquidity_arena.Prelude.{
  ℕ, zero, suc, length-append, ◌+◌, ◌-◌, ◌^◌, ◌≤◌, ◌<◌, ◌≡◌, refl, ap, true, some, List, [], ◌∷◌,
  ◌++◌, arith, length, take, append-nil, Option-cases, inl, inr,
}
use liquidity_arena.Prelude.Int.{ℤ, pos, negsuc, ◌≤ℤ◌}
use liquidity_arena.Wire.Struct.{Code, calcsize, width, to_bits, le_bytes, pack, unpack}
use liquidity_arena.Wire.Struct.RoundTrip.{unpack-pack, pack-some, pack-cons}
use liquidity_arena.Wire.Messages.{
  MsgType, msg_code, NewOrderMsg, new_order_format, new_order_values, pack_new_order, header_format,
  header_size, cancel_order_format, pack_cancel_order,
}
use liquidity_arena.Wire.Client.{
  Client, Socket, returned, raised, struct_error, framed, sendall, send_new_order, send_cancel,
  split_frame,
}
use liquidity_arena.Wire.Client.Framing.{split_frame-framed}

-- The range of a format character: 0 to 2^w - 1, or -2^(w-1) to 2^(w-1) - 1.
abbrev pub Fits : Code → ℤ → Type 0
Fits Code.u8 v = (pos 0 ≤ℤ v) × (v ≤ℤ pos (2 ^ 8 - 1))
Fits Code.u32 v = (pos 0 ≤ℤ v) × (v ≤ℤ pos (2 ^ 32 - 1))
Fits Code.u64 v = (pos 0 ≤ℤ v) × (v ≤ℤ pos (2 ^ 64 - 1))
Fits Code.i32 v = (negsuc (2 ^ 31 - 1) ≤ℤ v) × (v ≤ℤ pos (2 ^ 31 - 1))
Fits Code.i64 v = (negsuc (2 ^ 63 - 1) ≤ℤ v) × (v ≤ℤ pos (2 ^ 63 - 1))

-- As many values as format characters, each in its range.
abbrev pub AllFit : List Code → List ℤ → Type 0
AllFit [] [] = Unit
AllFit [] (v ∷ vs) = ⊥
AllFit (c ∷ cs) [] = ⊥
AllFit (c ∷ cs) (v ∷ vs) = Fits c v × AllFit cs vs

to_bits-Fits : (c : Code) (v : ℤ) → Fits c v → (n : ℕ) × (to_bits c v ≡ some n)
unfolding to_bits
to_bits-Fits Code.u8 (pos v) h = (v, ground arith)
to_bits-Fits Code.u32 (pos v) h = (v, ground arith)
to_bits-Fits Code.u64 (pos v) h = (v, ground arith)
to_bits-Fits Code.i32 (pos v) h = (v, ground arith)
to_bits-Fits Code.i64 (pos v) h = (v, ground arith)
to_bits-Fits Code.i32 (negsuc v) h = (2 ^ 32 - 1 - v, ground arith)
to_bits-Fits Code.i64 (negsuc v) h = (2 ^ 64 - 1 - v, ground arith)
to_bits-Fits Code.u8 (negsuc v) h = absurd (omega arith)
to_bits-Fits Code.u32 (negsuc v) h = absurd (omega arith)
to_bits-Fits Code.u64 (negsuc v) h = absurd (omega arith)

Fits-to_bits : (c : Code) (v : ℤ) {n : ℕ} → to_bits c v ≡ some n → Fits c v
unfolding to_bits
Fits-to_bits Code.u8 v e = ground arith
Fits-to_bits Code.u32 v e = ground arith
Fits-to_bits Code.u64 v e = ground arith
Fits-to_bits Code.i32 v e = ground arith
Fits-to_bits Code.i64 v e = ground arith

pub pack-AllFit :
    (cs : List Code) (vs : List ℤ) → AllFit cs vs → (bs : List ℕ) × (pack cs vs ≡ some bs)
unfolding pack
pack-AllFit [] [] h = ([], refl)
pack-AllFit [] (v ∷ vs) h = absurd h
pack-AllFit (c ∷ cs) [] h = absurd h
pack-AllFit (c ∷ cs) (v ∷ vs) h =
    let (n, en) = to_bits-Fits c v h.0 in
    let (rest, er) = pack-AllFit cs vs h.1 in (le_bytes (width c) n ++ rest, rw (en, er))

pub AllFit-pack : (cs : List Code) (vs : List ℤ) {bs : List ℕ} → pack cs vs ≡ some bs → AllFit cs vs
unfolding pack
AllFit-pack [] [] e = tt
AllFit-pack [] (v ∷ vs) e = cc
AllFit-pack (c ∷ cs) [] e = cc
AllFit-pack (c ∷ cs) (v ∷ vs) e =
    let (n, rest, en, er, eb) = pack-cons c cs v vs e in (Fits-to_bits c v en, AllFit-pack cs vs er)

msg_code-le : (t : MsgType) → msg_code t ≤ 255
msg_code-le t = ground arith

framed-head :
    (t : MsgType) (payload head : List ℕ)
    → pack header_format (pos (msg_code t) ∷ pos (length payload) ∷ []) ≡ some head
    → framed t (some payload) ≡ some (head ++ payload)
unfolding framed
framed-head t payload head e = ground arith

-- A payload of less than 2^32 bytes has a frame, which is five bytes longer.
framed-some :
    (t : MsgType) (payload : List ℕ)
    → length payload < 2 ^ 32
    → (frame : List ℕ) × (framed t (some payload) ≡ some frame)
      × (length frame ≡ header_size + length payload)
framed-some t payload h =
    let values = pos (msg_code t) ∷ pos (length payload) ∷ [] in
    let fits : AllFit header_format values = omega (arith, msg_code-le t) in
    let (head, e) = pack-AllFit header_format values fits in
    let (size, _, _) = pack-some header_format values head e in
    (head ++ payload, framed-head t payload head e, omega (arith, length-append head payload))

-- The bytes that a request leaves on the wire: the engine finds one message in them, of the type
-- and with the payload that were sent.
pub record IsRequest (t : MsgType) (cs : List Code) (vs : List ℤ) (frame : List ℕ) : Type 0 where
  pub payload : List ℕ
  pub size : length frame ≡ header_size + calcsize cs
  pub found : split_frame frame ≡ some (msg_code t, payload, [])
  pub read_back : unpack cs payload ≡ some vs

framed-IsRequest :
    (t : MsgType) (cs : List Code) (vs : List ℤ)
    → calcsize cs < 2 ^ 32
    → AllFit cs vs
    → (frame : List ℕ) × (framed t (pack cs vs) ≡ some frame) × IsRequest t cs vs frame
framed-IsRequest t cs vs small fits =
    let (payload, ep) = pack-AllFit cs vs fits in
    let (size, _, _) = pack-some cs vs payload ep in
    let (frame, ef, total) = framed-some t payload (omega arith) in
    (
      frame,
      rw ep ef,
      record {
        payload = payload;
        size = omega arith;
        found = rw append-nil at (split_frame-framed t payload frame [] ef);
        read_back = unpack-pack cs vs payload ep;
      },
    )

take-all : (n : ℕ) (xs : List ℕ) → length xs ≤ n → take n xs ≡ xs
take-all zero [] h = refl
take-all zero (x ∷ xs) h = absurd (omega arith)
take-all (suc n) [] h = refl
take-all (suc n) (x ∷ xs) h = ap (λ t. x ∷ t) (take-all n xs (omega arith))

-- `sendall` on a connected socket with room for everything.
sendall-fits :
    (room : ℕ) (bytes : List ℕ) (c : Client) (s : Socket)
    → c.sock ≡ some s
    → s.connected ≡ true
    → length bytes ≤ room
    → sendall room bytes c
      ≡ (returned tt, record c { sock = some (record s { sent = s.sent ++ bytes }) })
unfolding sendall
sendall-fits room bytes c s hs hc fits = ground (arith, take-all room bytes fits)

-- The fields of an order in the order in which the engine reads them.
abbrev pub fields_of : NewOrderMsg → List ℤ
fields_of m = pos m.id ∷ m.side ∷ m.order_type ∷ m.price ∷ m.quantity ∷ m.display_qty ∷ []

-- An order whose fields are all in the ranges of "<QBBqii" is sent, on a connected socket with
-- room for 31 bytes, as one frame of 31 bytes in which the engine finds a NEW_ORDER message and
-- reads the order's id, side, type, price, quantity and display quantity, in this order.
pub send_new_order-IsRequest :
    (room : ℕ) (m : NewOrderMsg) (c : Client) (s : Socket)
    → c.sock ≡ some s
    → s.connected ≡ true
    → 31 ≤ room
    → AllFit new_order_format (fields_of m)
    → (frame : List ℕ) × (send_new_order room m c
        ≡ (returned tt, record c { sock = some (record s { sent = s.sent ++ frame }) }))
      × IsRequest MsgType.new_order new_order_format (fields_of m) frame
unfolding send_new_order pack_new_order
send_new_order-IsRequest room m c s hs hc hr fits =
    let (frame, ef, request) =
      framed-IsRequest MsgType.new_order new_order_format (fields_of m) (omega arith) fits in
    let size = request.size in
    (frame, rw ef (sendall-fits room frame c s hs hc (omega arith)), request)

-- An order with a field out of range raises `struct.error`, and nothing is sent.
pub send_new_order-refused :
    (room : ℕ) (m : NewOrderMsg) (c : Client)
    → ¬ AllFit new_order_format (new_order_values m)
    → send_new_order room m c ≡ (raised struct_error, c)
unfolding send_new_order pack_new_order framed
send_new_order-refused room m c bad = elim (Option-cases (pack_new_order m)) [
  | inl e ↦ rw e
  | inr (bs, e) ↦ absurd (bad (AllFit-pack new_order_format (new_order_values m) e))
]

-- A cancel of any order id below 2^64 is sent likewise, as one frame of 13 bytes.
pub send_cancel-IsRequest :
    (room order_id : ℕ) (c : Client) (s : Socket)
    → c.sock ≡ some s
    → s.connected ≡ true
    → 13 ≤ room
    → order_id < 2 ^ 64
    → (frame : List ℕ) × (send_cancel room order_id c
        ≡ (returned tt, record c { sock = some (record s { sent = s.sent ++ frame }) }))
      × IsRequest MsgType.cancel_order cancel_order_format (pos order_id ∷ []) frame
unfolding send_cancel pack_cancel_order
send_cancel-IsRequest room order_id c s hs hc hr fits =
    let (frame, ef, request) =
      framed-IsRequest MsgType.cancel_order cancel_order_format (pos order_id ∷ []) (omega arith)
        (omega arith) in
    let size = request.size in
    (frame, rw ef (sendall-fits room frame c s hs hc (omega arith)), request)
