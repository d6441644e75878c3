-- ===== src/Bridge.antt =====
-- simulation/market/ws_bridge.py: `WebSocketBridge`, the queues between the simulator's thread and the
-- event loop that serves the browsers. Python's queues are lists. What the threads and the browsers
-- do is a sequence of steps; a `send` of the package websockets is recorded as called.
mod Fifo
mod Reach
mod Examples
use liquidity_arena.Prelude.{ℕ, Bool, true, false, List, [], ◌∷◌, ◌++◌, ◌==◌, if◌then◌else◌}

-- A browser's connection is a number. `has_loop` says whether `_loop` is set.
pub record WebSocketBridge (A : Type 0) : Type 0 where
  pub clients : List ℕ
  pub message_queue : List A
  pub incoming_queue : List A
  pub has_loop : Bool

abbrev pub is_client : ℕ → List ℕ → Bool
is_client i [] = false
is_client i (j ∷ js) = if i == j then true else is_client i js

-- `add` and `discard` of a set.
unfoldable pub add : ℕ → List ℕ → List ℕ
add i js = if is_client i js then js else js ++ i ∷ []

unfoldable pub discard : ℕ → List ℕ → List ℕ
discard i [] = []
discard i (j ∷ js) = let rest = discard i js in if i == j then rest else j ∷ rest

-- What happens to a bridge, by any thread: the event loop is set, the simulator pushes or polls, a
-- browser connects, sends or disconnects, and the next message of the queue is broadcast.
pub data Step (A : Type 0) : Type 0 where
  loop_set polled broadcast : Step A
  pushed : A → Step A
  joined left : ℕ → Step A
  received : ℕ → A → Step A

-- The bridge, with the messages that the loop has taken from the queue and the clients connected
-- then, the messages sent and the clients that each was sent to, and the messages that
-- `poll_incoming` has returned.
pub record Served (A : Type 0) : Type 0 where
  pub bridge : WebSocketBridge A
  pub taken : List (List ℕ × A)
  pub sent : List (List ℕ × A)
  pub returned : List A

module _ {A : Type 0} where
  abbrev pub new_bridge : WebSocketBridge A
  new_bridge = record { clients = []; message_queue = []; incoming_queue = []; has_loop = false }

  abbrev pub new_served : Served A
  new_served = record { bridge = new_bridge; taken = []; sent = []; returned = [] }

  -- Before the event loop is set, what is pushed is dropped.
  abbrev pub push_data : A → WebSocketBridge A → WebSocketBridge A
  push_data a b = if b.has_loop then record b { message_queue = b.message_queue ++ a ∷ [] } else b

  -- The loop of `poll_incoming`, with the messages so far: `get_nowait` until the queue is empty.
  unfoldable pub poll_queue : List A → List A → List A
  poll_queue msgs [] = msgs
  poll_queue msgs (m ∷ queue) = poll_queue (msgs ++ m ∷ []) queue

  unfoldable pub poll_incoming : WebSocketBridge A → List A × WebSocketBridge A
  poll_incoming b = (poll_queue [] b.incoming_queue, record b { incoming_queue = [] })

  -- A message is sent to all the clients, if there are any.
  abbrev pub send_all : List ℕ → A → List (List ℕ × A) → List (List ℕ × A)
  send_all [] data' sent' = sent'
  send_all (i ∷ is) data' sent' = sent' ++ (i ∷ is, data') ∷ []

  -- One round of the loop of `_ws_main`, which waits while the queue is empty.
  unfoldable pub serve_next : List A → Served A → Served A
  serve_next [] w = w
  serve_next (data' ∷ queue) w = record {
    bridge = record w.bridge { message_queue = queue };
    taken = w.taken ++ (w.bridge.clients, data') ∷ [];
    sent = send_all w.bridge.clients data' w.sent;
    returned = w.returned;
  }

  unfoldable pub happen : Step A → Served A → Served A
  happen loop_set w = record w { bridge = record w.bridge { has_loop = true } }
  happen (pushed a) w = record w { bridge = push_data a w.bridge }
  happen polled w =
      let (msgs, b) = poll_incoming w.bridge in
      record w { bridge = b; returned = w.returned ++ msgs }
  happen (joined i) w = record w { bridge = record w.bridge { clients = add i w.bridge.clients } }
  happen (received i a) w = record w {
    bridge = record w.bridge { incoming_queue = w.bridge.incoming_queue ++ a ∷ [] };
  }
  happen (left i) w = record w { bridge = record w.bridge { clients = discard i w.bridge.clients } }
  happen broadcast w = serve_next w.bridge.message_queue w

  unfoldable pub happen_all : List (Step A) → Served A → Served A
  happen_all [] w = w
  happen_all (s ∷ steps) w = happen_all steps (happen s w)
