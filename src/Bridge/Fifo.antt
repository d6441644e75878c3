-- ===== src/Bridge/Fifo.antt =====
-- What the bridge between the simulator and the browsers delivers
-- (`WebSocketBridge` of simulation/market/ws_bridge.py).
use liquidity_arena.Prelude.{
  ℕ, ◌≡◌, refl, sym, ap, ◌∙◌, Bool, true, not, ◌&&◌, ◌||◌, Bool-cases, inl, inr, List, [], ◌∷◌,
  ◌++◌, map, append-nil, append_assoc, ◌==◌, if◌then◌else◌, arith,
}
use liquidity_arena.Prelude.Results.{either}
use liquidity_arena.Bridge.{
  WebSocketBridge, is_client, add, discard, Step, loop_set, polled, broadcast, pushed, joined, left,
  received, Served, push_data, send_all, poll_queue, poll_incoming, serve_next, happen, happen_all,
}

-- Whether a client is connected after the steps, where it is or is not before them.
abbrev present : {A : Type 0} → ℕ → Bool → List (Step A) → Bool
present i now [] = now
present i now (joined j ∷ steps) = present i (now || i == j) steps
present i now (left j ∷ steps) = present i (now && not (i == j)) steps
present i now (_ ∷ steps) = present i now steps

-- The messages pushed while the event loop is set.
abbrev accepted : {A : Type 0} → Bool → List (Step A) → List A
accepted set [] = []
accepted set (loop_set ∷ steps) = accepted true steps
accepted set (pushed a ∷ steps) = let rest = accepted set steps in if set then a ∷ rest else rest
accepted set (_ ∷ steps) = accepted set steps

-- The messages that the browsers send.
abbrev sent_in : {A : Type 0} → List (Step A) → List A
sent_in [] = []
sent_in (received i a ∷ steps) = a ∷ sent_in steps
sent_in (_ ∷ steps) = sent_in steps

-- Of the messages taken, those that were taken while a client was connected.
abbrev pub heard : {A : Type 0} → List (List ℕ × A) → List (List ℕ × A)
heard [] = []
heard (([], a) ∷ rs) = heard rs
heard ((i ∷ is, a) ∷ rs) = (i ∷ is, a) ∷ heard rs

module _ {A : Type 0} where
  -- The messages taken from the first to the second, and which of them are sent.
  abbrev Takes : Served A → Served A → Type 0
  Takes v w =
      (added : List (List ℕ × A)) × (w.taken ≡ v.taken ++ added) × (w.sent ≡ v.sent ++ heard added)

  -- Of the messages that have been accepted and received before and in the steps, none is doubled or
  -- out of order, or lost in a queue, and the clients are those that have joined and not left.
  pub record Delivers (steps : List (Step A)) (v w : Served A) : Type 0 where
    pub outgoing :
        map (λ r. r.1) w.taken ++ w.bridge.message_queue
        ≡ (map (λ r. r.1) v.taken ++ v.bridge.message_queue) ++ accepted v.bridge.has_loop steps
    pub sends : Takes v w
    pub incoming :
        w.returned ++ w.bridge.incoming_queue
        ≡ (v.returned ++ v.bridge.incoming_queue) ++ sent_in steps
    pub connected :
        (i : ℕ) → is_client i w.bridge.clients ≡ present i (is_client i v.bridge.clients) steps

is_client-append : (i j : ℕ) (js : List ℕ) → is_client i (js ++ j ∷ []) ≡ (is_client i js || i == j)
is_client-append i j [] = ground arith
is_client-append i j (k ∷ js) = ground (arith, is_client-append i j js)

is_client-same :
    (i j : ℕ) (js : List ℕ) → is_client j js ≡ true → is_client i js ≡ (is_client i js || i == j)
is_client-same i j [] h = absurd (cc h)
is_client-same i j (k ∷ js) h = ground (arith, h, is_client-same i j js)

pub is_client-add : (i j : ℕ) (js : List ℕ) → is_client i (add j js) ≡ (is_client i js || i == j)
unfolding add
is_client-add i j js = elim (Bool-cases (is_client j js)) [
  | inl h ↦ rw h (is_client-same i j js h)
  | inr h ↦ rw h (is_client-append i j js)
]

pub is_client-discard :
    (i j : ℕ) (js : List ℕ) → is_client i (discard j js) ≡ (is_client i js && not (i == j))
unfolding discard
is_client-discard i j [] = refl
is_client-discard i j (k ∷ js) = ground (arith, is_client-discard i j js)

module _ {A : Type 0} where
  poll_queue_append : (msgs queue : List A) → poll_queue msgs queue ≡ msgs ++ queue
  unfolding poll_queue
  poll_queue_append msgs [] = sym (append-nil msgs)
  poll_queue_append msgs (m ∷ queue) =
      poll_queue_append (msgs ++ m ∷ []) queue ∙ append_assoc msgs (m ∷ []) queue

  map-last :
      (js : List ℕ) (a : A) (l : List (List ℕ × A))
      → map (λ r. r.1) (l ++ (js, a) ∷ []) ≡ map (λ r. r.1) l ++ a ∷ []
  map-last js a [] = refl
  map-last js a (x ∷ l) = ap (λ r. x.1 ∷ r) (map-last js a l)

  -- The messages on their way out.
  abbrev outward : Served A → List A
  outward w = map (λ r. r.1) w.taken ++ w.bridge.message_queue

  push_data-outward :
      (a : A) (w : Served A) (steps : List (Step A))
      → outward (happen (pushed a) w) ++ accepted (happen (pushed a) w).bridge.has_loop steps
        ≡ outward w ++ accepted w.bridge.has_loop (pushed a ∷ steps)
  unfolding happen
  push_data-outward a w steps = elim (Bool-cases w.bridge.has_loop) [
    | inl h ↦ rw h (simp append_assoc)
    | inr h ↦ rw h (simp append_assoc)
  ]

  pub push_data-rest :
      (a : A) (b : WebSocketBridge A)
      → ((push_data a b).incoming_queue ≡ b.incoming_queue) × ((push_data a b).clients ≡ b.clients)
  push_data-rest a b =
      either
        (λ (c : WebSocketBridge A). (c.incoming_queue ≡ b.incoming_queue) × (c.clients ≡ b.clients))
        b.has_loop (refl, refl) (refl, refl)

  serve_next-outward :
      (queue : List A) (w : Served A)
      → queue ≡ w.bridge.message_queue
      → outward (serve_next queue w) ≡ outward w
  unfolding serve_next
  serve_next-outward [] w e = refl
  serve_next-outward (a ∷ queue) w e =
      ap (λ l. l ++ queue) (map-last w.bridge.clients a w.taken)
      ∙ append_assoc (map (λ r. r.1) w.taken) (a ∷ []) queue
      ∙ ap (λ l. map (λ r. r.1) w.taken ++ l) e

  send_all-heard :
      (js : List ℕ) (a : A) (l x added : List (List ℕ × A))
      → x ≡ send_all js a l ++ heard added
      → x ≡ l ++ heard ((js, a) ∷ added)
  send_all-heard [] a l x added e = e
  send_all-heard (j ∷ js) a l x added e = e ∙ append_assoc l ((j ∷ js, a) ∷ []) (heard added)

  serve_next-Takes : (queue : List A) (v w : Served A) → Takes (serve_next queue v) w → Takes v w
  unfolding serve_next
  serve_next-Takes [] v w k = k
  serve_next-Takes (a ∷ queue) v w (added, e, e') =
      let js = v.bridge.clients in
      (
        (js, a) ∷ added,
        e ∙ append_assoc v.taken ((js, a) ∷ []) added,
        send_all-heard js a v.sent w.sent added e',
      )

  serve_next-rest :
      (queue : List A) (w : Served A)
      → ((serve_next queue w).bridge.has_loop ≡ w.bridge.has_loop)
        × ((serve_next queue w).bridge.clients ≡ w.bridge.clients)
        × ((serve_next queue w).returned ++ (serve_next queue w).bridge.incoming_queue
            ≡ w.returned ++ w.bridge.incoming_queue)
  unfolding serve_next
  serve_next-rest [] w = (refl, refl, refl)
  serve_next-rest (a ∷ queue) w = (refl, refl, refl)

  -- Whatever the threads and the browsers do with a bridge, in any order: the messages taken from
  -- the queue so far, with those still queued behind them, are exactly the messages that were there
  -- before and those pushed since while the event loop was set, in order; each message taken since
  -- has been sent, in order and once, to all the clients connected when it was taken, and a message
  -- taken while no client was connected has been sent to nobody; the messages that
  -- `poll_incoming` has returned, with those still waiting, are exactly the messages that were
  -- there before and those that the browsers have sent since, in order; and the clients are those
  -- that were connected or have joined, and have not left since.
  pub happen_all-Delivers :
      (steps : List (Step A)) (v : Served A) → Delivers steps v (happen_all steps v)
  unfolding happen_all happen poll_incoming
  happen_all-Delivers [] v = record {
    outgoing = sym (append-nil (outward v));
    sends = ([], sym (append-nil v.taken), sym (append-nil v.sent));
    incoming = sym (append-nil (v.returned ++ v.bridge.incoming_queue));
    connected = λ i. refl;
  }
  happen_all-Delivers (loop_set ∷ steps) v =
      let d = happen_all-Delivers steps (happen loop_set v) in
      record {
        outgoing = d.outgoing;
        sends = d.sends;
        incoming = d.incoming;
        connected = d.connected;
      }
  happen_all-Delivers (polled ∷ steps) v =
      let d = happen_all-Delivers steps (happen polled v) in
      record {
        outgoing = d.outgoing;
        sends = d.sends;
        incoming =
            d.incoming
            ∙ ap (λ l. l ++ sent_in steps)
                (append-nil (v.returned ++ poll_queue [] v.bridge.incoming_queue)
                  ∙ ap (λ l. v.returned ++ l) (poll_queue_append [] v.bridge.incoming_queue));
        connected = d.connected;
      }
  happen_all-Delivers (broadcast ∷ steps) v =
      let d = happen_all-Delivers steps (happen broadcast v) in
      let q = v.bridge.message_queue in
      let k = serve_next-rest q v in
      record {
        outgoing =
            d.outgoing
            ∙ ap (λ l. l ++ accepted (serve_next q v).bridge.has_loop steps)
                (serve_next-outward q v refl)
            ∙ ap (λ b. outward v ++ accepted b steps) k.0;
        sends = serve_next-Takes q v (happen_all steps (happen broadcast v)) d.sends;
        incoming = d.incoming ∙ ap (λ l. l ++ sent_in steps) k.2;
        connected = λ i. d.connected i ∙ ap (λ js. present i (is_client i js) steps) k.1;
      }
  happen_all-Delivers (pushed a ∷ steps) v =
      let d = happen_all-Delivers steps (happen (pushed a) v) in
      record {
        outgoing = d.outgoing ∙ push_data-outward a v steps;
        sends = d.sends;
        incoming =
            d.incoming ∙ ap (λ l. (v.returned ++ l) ++ sent_in steps) (push_data-rest a v.bridge).0;
        connected = λ i.
            d.connected i
            ∙ ap (λ js. present i (is_client i js) steps) (push_data-rest a v.bridge).1;
      }
  happen_all-Delivers (joined j ∷ steps) v =
      let d = happen_all-Delivers steps (happen (joined j) v) in
      record {
        outgoing = d.outgoing;
        sends = d.sends;
        incoming = d.incoming;
        connected =
            λ i. d.connected i ∙ ap (λ b. present i b steps) (is_client-add i j v.bridge.clients);
      }
  happen_all-Delivers (left j ∷ steps) v =
      let d = happen_all-Delivers steps (happen (left j) v) in
      record {
        outgoing = d.outgoing;
        sends = d.sends;
        incoming = d.incoming;
        connected = λ i.
            d.connected i ∙ ap (λ b. present i b steps) (is_client-discard i j v.bridge.clients);
      }
  happen_all-Delivers (received j a ∷ steps) v =
      let d = happen_all-Delivers steps (happen (received j a) v) in
      record {
        outgoing = d.outgoing;
        sends = d.sends;
        incoming = d.incoming ∙ simp append_assoc;
        connected = d.connected;
      }
