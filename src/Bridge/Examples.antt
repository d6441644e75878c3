-- ===== src/Bridge/Examples.antt =====
-- Two browsers on a bridge.
use liquidity_arena.Prelude.{ℕ, ◌≡◌, refl, true, List, [], ◌∷◌, ◌++◌, All}
use liquidity_arena.Bridge.{
  is_client, add, discard, Step, loop_set, polled, broadcast, pushed, joined, left, received,
  Served, new_served, poll_queue, poll_incoming, serve_next, happen, happen_all,
}
use liquidity_arena.Bridge.Fifo.{Delivers, happen_all-Delivers}
use liquidity_arena.Bridge.Reach.{happen_all-Reached}

-- What is pushed before the event loop is set is dropped.
abbrev start : List (Step ℕ)
start = pushed 10 ∷ loop_set ∷ joined 1 ∷ pushed 11 ∷ joined 2 ∷ received 1 20 ∷ []

abbrev rest : List (Step ℕ)
rest = broadcast ∷ pushed 12 ∷ received 2 21 ∷ polled ∷ left 2 ∷ broadcast ∷ pushed 13 ∷ []

abbrev opened : Served ℕ
opened = happen_all start new_served

served : happen_all rest opened ≡ record {
  bridge = record {
    clients = 1 ∷ [];
    message_queue = 13 ∷ [];
    incoming_queue = [];
    has_loop = true;
  };
  taken = (1 ∷ 2 ∷ [], 11) ∷ (1 ∷ [], 12) ∷ [];
  sent = (1 ∷ 2 ∷ [], 11) ∷ (1 ∷ [], 12) ∷ [];
  returned = 20 ∷ 21 ∷ [];
}
unfolding happen_all happen add discard poll_incoming poll_queue serve_next
served = refl

-- A message taken with nobody connected is sent to nobody.
unheard : (happen_all (loop_set ∷ pushed 11 ∷ broadcast ∷ []) (new_served {A = ℕ})).sent ≡ []
unfolding happen_all happen serve_next
unheard = refl

happen_all-Delivers_example : Delivers start new_served (happen_all start new_served)
happen_all-Delivers_example = happen_all-Delivers start new_served

happen_all-Reached_example :
    (added : List (List ℕ × ℕ)) × ((happen_all rest opened).taken ≡ opened.taken ++ added)
    × ((happen_all rest opened).sent ≡ opened.sent ++ added)
    × All (λ r. is_client 1 r.0 ≡ true) added
unfolding happen_all happen add
happen_all-Reached_example = happen_all-Reached 1 rest opened refl refl
