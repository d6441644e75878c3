-- ===== src/Simulator/Frame/Incoming.antt =====
-- The frontend's messages leave the clock and the queue of events as they were (`_process_incoming_ws_messages`
-- of simulation/simulator.py).
use liquidity_arena.Prelude.{ℕ, ◌≡◌, refl, ap, Option, none, some, List, [], ◌∷◌}
use liquidity_arena.Numeric.{Float}
use liquidity_arena.Simulator.Traders.{AgentId, Trader, ids}
use liquidity_arena.Simulator.State.{Simulator, Notice}
use liquidity_arena.Simulator.Frontend.{
  Action, WsMessage, human_action, scenario, flash_crash, asked, on_player, acted, on_human,
  process_message, process_messages, process_incoming, int_field, process_polled,
}
use liquidity_arena.Prelude.Int.{ℤ, pos}
use liquidity_arena.Simulator.Frame.{Frame, Frame-refl, Frame-trans, Frame-of}

module _ {F S : Type 0} ⦃fl : Float F⦄ where
  ids-on_human :
      (f : Trader F S → Trader F S) (d : List (AgentId × Trader F S)) → ids (on_human f d) ≡ ids d
  ids-on_human f [] = refl
  ids-on_human f ((i, t) ∷ d) = ap (λ r. i ∷ r) (ids-on_human f d)

  acted-Frame :
      (a : Action) (qty offset : Option ℤ) (s : Simulator F S) → Frame s (acted a qty offset s)
  acted-Frame a none offset s = Frame-refl s
  acted-Frame a (some qty) none s = Frame-refl s
  acted-Frame a (some qty) (some offset) s =
      Frame-of s (ids-on_human (on_player (λ h. asked a qty offset h)) s.agents) refl

  process_message-Frame :
      (room : ℕ) (m : WsMessage) (s : Simulator F S) → Frame s (process_message room m s)
  unfolding process_message
  process_message-Frame room (human_action a qty offset) s =
      acted-Frame a (int_field (pos 100) qty) (int_field (pos 0) offset) s
  process_message-Frame room (scenario flash_crash) s = Frame-of s refl refl
  process_message-Frame room (scenario _) s = Frame-of s refl refl
  process_message-Frame room _ s = Frame-refl s

  process_messages-Frame :
      (ms : List (ℕ × WsMessage)) (s : Simulator F S) → Frame s (process_messages ms s)
  process_messages-Frame [] s = Frame-refl s
  process_messages-Frame ((room, m) ∷ ms) s =
      Frame-trans (process_message-Frame room m s)
        (process_messages-Frame ms (process_message room m s))

  process_polled-Frame :
      (b : Option (List (Notice F))) (ms : List (ℕ × WsMessage)) (s : Simulator F S)
      → Frame s (process_polled b ms s)
  process_polled-Frame none ms s = Frame-refl s
  process_polled-Frame (some notices) ms s = process_messages-Frame ms s

  pub process_incoming-Frame :
      (ms : List (ℕ × WsMessage)) (s : Simulator F S) → Frame s (process_incoming ms s)
  process_incoming-Frame ms s = process_polled-Frame s.ws_bridge ms s
