-- ===== src/Wire/Client/Faults.antt =====
-- What `poll` of simulation/market/tcp_client.py does with a message that raises.
use liquidity_arena.Prelude.{ℕ, ◌≡◌, refl, some, List, [], ◌∷◌, ◌++◌, arith, append-nil}
use liquidity_arena.Wire.Client.{
  Client, Socket, Message, Fault, raised, split_frame, decode, called_back, received, process, poll,
  Drained,
}
use liquidity_arena.Wire.Client.Stream.{Drains, broken, drain_all_iff, Drains-append}
use liquidity_arena.Wire.Client.Replies.{IsStream, IsStream-Drains}

process-Drains :
    (c : Client) {d : Drained} {f : Fault}
    → Drains c.recv_buffer d
    → d.fault ≡ some f
    → process c ≡ record {
      result = raised f;
      called = called_back c d.messages;
      client = record c { recv_buffer = d.buffer };
    }
unfolding process
process-Drains c {d} r h = let e = (drain_all_iff c.recv_buffer d).0 r in ground arith

-- If good messages are followed in one chunk by a message that raises (one of an unknown type, or
-- too short for its format), then `poll` raises as well: the good messages reach the callbacks
-- that are set and are not returned, and the buffer goes on behind the message that raised.
pub poll-raised :
    (c : Client) (s : Socket) (ms : List Message) (good tail : List ℕ) {x : ℕ} {xs : List ℕ} {t : ℕ}
    {payload rest : List ℕ} {f : Fault}
    → c.sock ≡ some s
    → c.recv_buffer ≡ []
    → IsStream ms good
    → split_frame tail ≡ some (t, payload, rest)
    → decode t payload ≡ raised f
    → x ∷ xs ≡ good ++ tail
    → poll (received (x ∷ xs)) c ≡ record {
      result = raised f;
      called = called_back c ms;
      client = record c { recv_buffer = rest };
    }
unfolding poll
poll-raised c s ms good tail {x} {xs} hs empty stream es ef eb =
    let reads = Drains-append tail (IsStream-Drains stream) refl (broken es ef) in
    let c' = record c { recv_buffer = c.recv_buffer ++ x ∷ xs } in
    let same : good ++ tail ≡ c.recv_buffer ++ x ∷ xs = rw (empty, eb) in
    let done = process-Drains c' (rw (same, append-nil) at reads) refl in ground arith
