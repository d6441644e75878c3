-- ===== src/Bridge/Reach.antt =====
-- Whom the bridge's broadcasts reach (`WebSocketBridge` of simulation/market/ws_bridge.py).
use liquidity_arena.Prelude.{
  ℕ, ◌≡◌, sym, ap, ◌∙◌, Bool, true, false, List, [], ◌∷◌, ◌++◌, append-nil, append_assoc, ◌==◌,
  if◌then◌else◌, All, arith,
}
use liquidity_arena.Bridge.{
  is_client, Step, loop_set, polled, broadcast, pushed, joined, left, received, Served, send_all,
  serve_next, happen, happen_all, poll_incoming,
}
use liquidity_arena.Bridge.Fifo.{is_client-add, is_client-discard, push_data-rest}

-- The client does not disconnect in the steps.
abbrev stays : {A : Type 0} → ℕ → List (Step A) → Bool
stays i [] = true
stays i (left j ∷ steps) = let rest = stays i steps in if i == j then false else rest
stays i (_ ∷ steps) = stays i steps

module _ {A : Type 0} where
  -- All the messages taken from the queue between the two are sent, and to the client.
  abbrev Reached : ℕ → Served A → Served A → Type 0
  Reached i v w =
      (added : List (List ℕ × A)) × (w.taken ≡ v.taken ++ added)
      × (w.sent ≡ v.sent ++ added)
      × All (λ r. is_client i r.0 ≡ true) added

  send_all-added :
      (i : ℕ) (js : List ℕ) (a : A) (l x added : List (List ℕ × A))
      → is_client i js ≡ true
      → x ≡ send_all js a l ++ added
      → x ≡ l ++ (js, a) ∷ added
  send_all-added i [] a l x added h e = absurd (cc h)
  send_all-added i (j ∷ js) a l x added h e = e ∙ append_assoc l ((j ∷ js, a) ∷ []) added

  serve_next-Reached :
      (i : ℕ) (queue : List A) (v w : Served A)
      → is_client i v.bridge.clients ≡ true
      → (is_client i (serve_next queue v).bridge.clients ≡ true → Reached i (serve_next queue v) w)
      → Reached i v w
  unfolding serve_next
  serve_next-Reached i [] v w h k = k h
  serve_next-Reached i (a ∷ queue) v w h k =
      let (added, e, e', all) = k h in
      let js = v.bridge.clients in
      (
        (js, a) ∷ added,
        e ∙ append_assoc v.taken ((js, a) ∷ []) added,
        send_all-added i js a v.sent w.sent added h e',
        (h, all),
      )

  -- A client that is connected before the steps, and does not disconnect in them, is sent every
  -- message that is taken from the queue in them, once and in order.
  pub happen_all-Reached :
      (i : ℕ) (steps : List (Step A)) (v : Served A)
      → is_client i v.bridge.clients ≡ true
      → stays i steps ≡ true
      → Reached i v (happen_all steps v)
  unfolding happen_all happen poll_incoming
  happen_all-Reached i [] v h k = ([], sym (append-nil v.taken), sym (append-nil v.sent), tt)
  happen_all-Reached i (loop_set ∷ steps) v h k = happen_all-Reached i steps (happen loop_set v) h k
  happen_all-Reached i (polled ∷ steps) v h k = happen_all-Reached i steps (happen polled v) h k
  happen_all-Reached i (broadcast ∷ steps) v h k =
      serve_next-Reached i v.bridge.message_queue v (happen_all steps (happen broadcast v)) h
        (λ h'. happen_all-Reached i steps (happen broadcast v) h' k)
  happen_all-Reached i (pushed a ∷ steps) v h k =
      happen_all-Reached i steps (happen (pushed a) v)
        (ap (is_client i) (push_data-rest a v.bridge).1 ∙ h) k
  happen_all-Reached i (joined j ∷ steps) v h k =
      happen_all-Reached i steps (happen (joined j) v)
        (ground (arith, is_client-add i j v.bridge.clients, h)) k
  happen_all-Reached i (left j ∷ steps) v h k =
      happen_all-Reached i steps (happen (left j) v)
        (ground (arith, is_client-discard i j v.bridge.clients, h, k)) (ground (arith, k))
  happen_all-Reached i (received j a ∷ steps) v h k =
      happen_all-Reached i steps (happen (received j a) v) h k
