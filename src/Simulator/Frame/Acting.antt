-- ===== src/Simulator/Frame/Acting.antt =====
-- An agent's action leaves the clock and the queue of events as they were (`_process_event` of
-- simulation/simulator.py).
use liquidity_arena.Prelude.{ℕ, ◌≡◌, refl, ap, ◌∙◌, Option, none, some, List, [], ◌∷◌, ◌>>=◌}
use liquidity_arena.Prelude.Results.{Every, Every-bind}
use liquidity_arena.Numeric.{Float, Numpy, Rng}
use liquidity_arena.Wire.Messages.{BookUpdateMsg}
use liquidity_arena.Simulator.Traders.{
  AgentId, Trader, lookup_id, insert_id, clear_cancels, cancels_of, act,
}
use liquidity_arena.Simulator.State.{Simulator}
use liquidity_arena.Simulator.Exchange.{submit_cancels}
use liquidity_arena.Simulator.Loop.{Inputs, with_rooms, replace_quotes, react, react_if, find_agent}
use liquidity_arena.Simulator.Frame.{
  Frame, Frame-refl, Frame-trans, Frame-of, ids-insert_id, lookup_id-insert_id,
}
use liquidity_arena.Simulator.Frame.Trading.{submit_orders-Frame, submit_cancels-Frame}

module _ {F S : Type 0} ⦃fl : Float F⦄ ⦃np : Numpy F⦄ ⦃g : Rng F S⦄ where
  replace_quotes-Frame :
      (io : Inputs) (i : AgentId) (a : Trader F S) (oids : List ℕ) (s : Simulator F S)
      → lookup_id i s.agents ≡ some a
      → Frame s (replace_quotes io i a oids s)
  replace_quotes-Frame io i a [] s h = Frame-refl s
  replace_quotes-Frame io i a (oid ∷ oids) s h =
      let cs = with_rooms io.cancel_room 0 (oid ∷ oids) in
      let f = submit_cancels-Frame cs s in
      Frame-trans f.0 (
        Frame-of (submit_cancels cs s)
          (ids-insert_id i (clear_cancels a) a (submit_cancels cs s).agents
            (ap (lookup_id i) f.1 ∙ h))
          refl)

  react-Frame :
      (io : Inputs) (i : AgentId) (a : Trader F S) (u : BookUpdateMsg) (s : Simulator F S)
      → lookup_id i s.agents ≡ some a
      → Every (Frame s) (react io i a u s)
  unfolding react
  react-Frame io i a u s h = Every-bind (Frame s) (act u s.step_count a) _ (λ r.
      let s' = record s { agents = insert_id i r.1 s.agents } in
      let s'' = replace_quotes io i r.1 (cancels_of r.1) s' in
      Frame-trans (Frame-of s (ids-insert_id i r.1 a s.agents h) refl) (
        Frame-trans
          (replace_quotes-Frame io i r.1 (cancels_of r.1) s' (lookup_id-insert_id i r.1 s.agents))
          (submit_orders-Frame (with_rooms io.order_room 0 r.0) io.recv s'')))

  react_lookup-Frame :
      (io : Inputs) (i : AgentId) (k : Option (Trader F S)) (u : BookUpdateMsg) (s : Simulator F S)
      → lookup_id i s.agents ≡ k
      → Every (Frame s) (react_if io (some u) (k >>= (λ a. some (i, a))) s)
  react_lookup-Frame io i none u s h = Frame-refl s
  react_lookup-Frame io i (some a) u s h = react-Frame io i a u s h

  pub react_if-Frame :
      (io : Inputs) (b : Option BookUpdateMsg) (i : Option AgentId) (s : Simulator F S)
      → Every (Frame s) (react_if io b (find_agent i s.agents) s)
  react_if-Frame io none i s = Frame-refl s
  react_if-Frame io (some u) none s = Frame-refl s
  react_if-Frame io (some u) (some i) s = react_lookup-Frame io i (lookup_id i s.agents) u s refl
