-- ===== src/Wire/Client/Chunks.antt =====
-- The segmentation of the stream does not matter: successive calls of `TcpClient.poll` in
-- simulation/market/tcp_client.py.
use liquidity_arena.Prelude.{
  ℕ, ◌≡◌, refl, sym, ap, ◌∙◌, none, some, List, [], ◌∷◌, ◌++◌, arith, append_assoc, append-nil,
  Option-cases, inl, inr,
}
use liquidity_arena.Wire.Client.{
  Client, Socket, Message, Outcome, returned, raised, Drained, split_frame, drain_all, received,
  process, poll,
}
use liquidity_arena.Wire.Client.Stream.{
  Drains, done, drain_all_iff, before, Drains-append, Drains-append_fault, Drains-rest,
  Drains-unique,
}

-- Polls once for each chunk that arrives, and collects the messages.
abbrev and_feed :
    Outcome (List Message)
    → Outcome (List Message) × Client
    → Client
    → Outcome (List Message) × Client
and_feed (raised f) later c = (raised f, c)
and_feed (returned ms) (raised f, c') c = (raised f, c')
and_feed (returned ms) (returned ms', c') c = (returned (ms ++ ms'), c')

pub feed : List (List ℕ) → Client → Outcome (List Message) × Client
feed [] c = (returned [], c)
feed (chunk ∷ chunks) c =
    let p = poll (received chunk) c in and_feed p.result (feed chunks p.client) p.client

abbrev pub concat : List (List ℕ) → List ℕ
concat [] = []
concat (chunk ∷ chunks) = chunk ++ concat chunks

-- One poll of a chunk that is not empty, after which nothing is raised.
poll-received :
    (c : Client) (s : Socket) (x : ℕ) (xs : List ℕ)
    → c.sock ≡ some s
    → (drain_all (c.recv_buffer ++ x ∷ xs)).fault ≡ none
    → let d = drain_all (c.recv_buffer ++ x ∷ xs) in
      ((poll (received (x ∷ xs)) c).result ≡ returned d.messages)
      × ((poll (received (x ∷ xs)) c).client ≡ record c { recv_buffer = d.buffer })
unfolding poll process
poll-received c s x xs h e = (ground arith, ground arith)

poll-received_empty :
    (c : Client) (s : Socket)
    → c.sock ≡ some s
    → poll (received []) c ≡ record { result = returned []; called = []; client = c }
unfolding poll
poll-received_empty c s h = ground arith

-- A chunk that reads without a fault, followed by polls that return.
feed-cons :
    (chunks : List (List ℕ)) (c : Client) (s : Socket) (x : ℕ) (xs : List ℕ) (e : Drained)
    → c.sock ≡ some s
    → let d = drain_all (c.recv_buffer ++ x ∷ xs) in
      d.fault ≡ none
      → feed chunks (record c { recv_buffer = d.buffer })
        ≡ (returned e.messages, record c { recv_buffer = e.buffer })
      → feed ((x ∷ xs) ∷ chunks) c
        ≡ (returned (before d.messages e).messages, record c { recv_buffer = e.buffer })
unfolding feed
feed-cons chunks c s x xs e hs ok later =
    let (result, client) = poll-received c s x xs hs ok in rw (result, client, later)

feed-Drains :
    (chunks : List (List ℕ)) (c : Client) (s : Socket) {d : Drained}
    → c.sock ≡ some s
    → split_frame c.recv_buffer ≡ none
    → Drains (c.recv_buffer ++ concat chunks) d
    → d.fault ≡ none
    → feed chunks c ≡ (returned d.messages, record c { recv_buffer = d.buffer })
unfolding feed
feed-Drains [] c s hs waits r h =
    rw (Drains-unique (rw (append-nil c.recv_buffer) at r) (done waits))
feed-Drains ([] ∷ chunks) c s hs waits r h =
    rw (poll-received_empty c s hs, feed-Drains chunks c s hs waits r h)
feed-Drains ((x ∷ xs) ∷ chunks) c s {d} hs waits r h =
    let a = c.recv_buffer ++ x ∷ xs in
    let first = (drain_all_iff a (drain_all a)).1 refl in
    let whole : Drains (a ++ concat chunks) d = rw append_assoc r in
    elim (Option-cases (drain_all a).fault) [
      | inr (f, ef) ↦
          absurd
            (ground (arith, Drains-unique whole (Drains-append_fault (concat chunks) first ef)))
      | inl ok ↦
          let b = (drain_all a).buffer ++ concat chunks in
          let second = (drain_all_iff b (drain_all b)).1 refl in
          let joined = Drains-unique whole (Drains-append (concat chunks) first ok second) in
          let later =
            feed-Drains chunks (record c { recv_buffer = (drain_all a).buffer }) s hs
              (Drains-rest first ok) second (sym (ap (λ t. t.fault) joined) ∙ h) in
          rw joined (feed-cons chunks c s x xs (drain_all b) hs ok later)
    ]

-- Where the buffer of a connected client holds no whole message, and where the bytes of all chunks
-- read behind it raise nothing, polling once for each chunk returns in all the messages that one
-- reading of all the bytes gives, in order, and leaves the bytes that it leaves.
pub feed-eq-drain_all :
    (chunks : List (List ℕ)) (c : Client) (s : Socket)
    → c.sock ≡ some s
    → split_frame c.recv_buffer ≡ none
    → let d = drain_all (c.recv_buffer ++ concat chunks) in
      d.fault ≡ none → feed chunks c ≡ (returned d.messages, record c { recv_buffer = d.buffer })
feed-eq-drain_all chunks c s hs waits h =
    feed-Drains chunks c s hs waits ((drain_all_iff _ _).1 refl) h
