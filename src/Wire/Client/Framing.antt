-- ===== src/Wire/Client/Framing.antt =====
-- How `poll` of simulation/market/tcp_client.py finds the messages in its buffer: bytes that arrive
-- later do not change a message that is whole, and a message is taken with all of its bytes.
use liquidity_arena.Prelude.{
  ℕ, ◌+◌, ◌≤◌, ◌<◌, ◌≡◌, refl, ap, ◌∙◌, some, List, [], ◌∷◌, ◌++◌, arith, take, drop, length,
  take-append_le, drop-append_le, length-append, length-drop, take-append_self, drop-append_self,
  append_assoc, Option-cases, inl, inr,
}
use liquidity_arena.Prelude.Int.{pos}
use liquidity_arena.Wire.Struct.{pack, unpack}
use liquidity_arena.Wire.Struct.RoundTrip.{unpack-pack, pack-some}
use liquidity_arena.Wire.Messages.{MsgType, msg_code, header_format, header_size}
use liquidity_arena.Wire.Client.{header, header_of, split_frame, framed}

header-append : (a b : List ℕ) → header_size ≤ length a → header (a ++ b) ≡ header a
unfolding header
header-append a b h =
    ap (λ bytes. header_of (unpack header_format bytes)) (take-append_le header_size a b h)

-- What a found message says of the buffer.
pub split_frame-some :
    (buffer : List ℕ) {t : ℕ} {payload rest : List ℕ}
    → split_frame buffer ≡ some (t, payload, rest)
    → let n = (header buffer).1 in
      (header_size + n ≤ length buffer)
      × (t ≡ (header buffer).0)
      × (payload ≡ take n (drop header_size buffer))
      × (rest ≡ drop (header_size + n) buffer)
unfolding split_frame
split_frame-some buffer e = ground arith

pub split_frame-of_header :
    (buffer : List ℕ)
    → let (t, n) = header buffer in
      header_size + n ≤ length buffer
      → split_frame buffer
        ≡ some (t, take n (drop header_size buffer), drop (header_size + n) buffer)
unfolding split_frame
split_frame-of_header buffer h = ground arith

pub split_frame-append :
    (a b : List ℕ) {t : ℕ} {payload rest : List ℕ}
    → split_frame a ≡ some (t, payload, rest)
    → split_frame (a ++ b) ≡ some (t, payload, rest ++ b)
split_frame-append a b e =
    let (fits, et, ep, er) = split_frame-some a e in
    let same = header-append a b (omega arith) in
    let n = (header a).1 in
    let longer : header_size + (header (a ++ b)).1 ≤ length (a ++ b) =
      rw same (omega (arith, length-append a b)) in
    let body : n ≤ length (drop header_size a) = omega (arith, length-drop header_size a) in
    split_frame-of_header (a ++ b) longer
    ∙ rw (
      same,
      et,
      ep,
      er,
      drop-append_le header_size a b (omega arith),
      take-append_le n (drop header_size a) b body,
      drop-append_le (header_size + n) a b fits,
    )

pub split_frame-lt :
    (buffer : List ℕ) {t : ℕ} {payload rest : List ℕ}
    → split_frame buffer ≡ some (t, payload, rest)
    → length rest < length buffer
split_frame-lt buffer e =
    let (fits, et, ep, er) = split_frame-some buffer e in
    rw er (omega (arith, length-drop (header_size + (header buffer).1) buffer))

header-pack :
    (t n : ℕ) (head rest : List ℕ)
    → pack header_format (pos t ∷ pos n ∷ []) ≡ some head
    → header (head ++ rest) ≡ (t, n)
unfolding header
header-pack t n head rest e =
    let (size, _, _) = pack-some header_format (pos t ∷ pos n ∷ []) head e in
    ap (λ bytes. header_of (unpack header_format bytes))
      (take-append_self header_size head rest size)
    ∙ ap header_of (unpack-pack header_format (pos t ∷ pos n ∷ []) head e)

split_frame-head :
    (t : ℕ) (head payload after : List ℕ)
    → length head ≡ header_size
    → header (head ++ (payload ++ after)) ≡ (t, length payload)
    → split_frame (head ++ (payload ++ after)) ≡ some (t, payload, after)
split_frame-head t head payload after size e =
    let body = payload ++ after in
    let n = length payload in
    let fits : header_size + (header (head ++ body)).1 ≤ length (head ++ body) =
      rw e (omega (arith, length-append head body, length-append payload after)) in
    let whole : length (head ++ payload) ≡ header_size + n =
      omega (arith, length-append head payload) in
    let past : drop (header_size + n) (head ++ body) ≡ after =
      rw (← append_assoc) (drop-append_self (header_size + n) (head ++ payload) after whole) in
    split_frame-of_header (head ++ body) fits
    ∙ rw (
      e,
      past,
      drop-append_self header_size head body size,
      take-append_self n payload after refl,
    )

-- A frame is found as its type and payload, whatever follows it.
pub split_frame-framed :
    (mt : MsgType) (payload frame after : List ℕ)
    → framed mt (some payload) ≡ some frame
    → split_frame (frame ++ after) ≡ some (msg_code mt, payload, after)
unfolding framed
split_frame-framed mt payload frame after e =
    let values = pos (msg_code mt) ∷ pos (length payload) ∷ [] in
    elim (Option-cases (pack header_format values)) [
      | inl out ↦ absurd (ground arith)
      | inr (head, eh) ↦
          let (size, _, _) = pack-some header_format values head eh in
          let split : frame ≡ head ++ payload = ground arith in
          let found = header-pack (msg_code mt) (length payload) head (payload ++ after) eh in
          rw (split, append_assoc) (split_frame-head (msg_code mt) head payload after size found)
    ]
