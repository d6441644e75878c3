-- ===== src/Simulator/Frontend.antt =====
-- simulation/simulator.py: `_process_incoming_ws_messages`, what the frontend's messages do. A message is
-- what `json.loads` and the dictionary's `get` give of it. Every exception is only logged.
use liquidity_arena.Prelude.{ℕ, true, false, Option, none, some, List, [], ◌∷◌}
use liquidity_arena.Prelude.Int.{ℤ, pos, ◌-ℤ◌}
use liquidity_arena.Numeric.{Float, ◌⊖◌, ◌⊗◌, of_int}
use liquidity_arena.Wire.Messages.{NewOrderMsg}
use liquidity_arena.Wire.Client.{Client, send_new_order}
use liquidity_arena.Agents.Human.{
  HumanAgent, place_market_order, place_limit_order, cancel_all_quotes,
}
use liquidity_arena.Price.Process.{PriceProcess}
use liquidity_arena.Price.Process
use liquidity_arena.Price.Regimes.{Regime}
use liquidity_arena.Simulator.Traders.{AgentId, Trader, player, same_id}
use liquidity_arena.Simulator.State.{Simulator, Notice}

-- What `int(data.get(key, default))` reads: no entry, one that is an integer, or one that raises.
pub data IntField : Type 0 where
  absent : IntField
  given : ℤ → IntField
  unreadable : IntField

pub data Action : Type 0 where
  market_buy market_sell limit_buy limit_sell cancel_quotes unknown_action : Action

pub data Scenario : Type 0 where
  flash_crash whale_buy vol_spike unknown_scenario : Scenario

-- A message of another type, and one that is no JSON object.
pub data WsMessage : Type 0 where
  human_action : Action → (qty offset : IntField) → WsMessage
  scenario : Scenario → WsMessage
  unknown_type malformed : WsMessage

abbrev pub int_field : ℤ → IntField → Option ℤ
int_field default absent = some default
int_field default (given n) = some n
int_field default unreadable = none

-- "Massive market buy order"
abbrev pub whale_order : NewOrderMsg
whale_order = record {
  id = 999999;
  side = pos 0;
  order_type = pos 1;
  price = pos 0;
  quantity = pos 5000;
  display_qty = pos 0;
}

abbrev pub whale_sent : ℕ → Option Client → Option Client
whale_sent room none = none
whale_sent room (some c) = some (send_new_order room whale_order c).1

module _ {F S : Type 0} where
  abbrev pub on_player : (HumanAgent F → HumanAgent F) → Trader F S → Trader F S
  on_player f (player t) = player (f t)
  on_player f t = t

  -- `self.human`, which is the agent "HUMAN" of the dictionary.
  abbrev pub on_human :
      (Trader F S → Trader F S) → List (AgentId × Trader F S) → List (AgentId × Trader F S)
  on_human f [] = []
  on_human f ((i, t) ∷ ts) =
      (i, elim (same_id AgentId.human i) [ true ↦ f t | false ↦ t ]) ∷ on_human f ts

module _ {F : Type 0} ⦃fl : Float F⦄ where
  unfoldable pub asked : Action → ℤ → ℤ → HumanAgent F → HumanAgent F
  asked market_buy qty offset h = place_market_order (pos 0) qty h
  asked market_sell qty offset h = place_market_order (pos 1) qty h
  asked limit_buy qty offset h = place_limit_order (pos 0) offset qty h
  asked limit_sell qty offset h = place_limit_order (pos 1) offset qty h
  asked cancel_quotes qty offset h = cancel_all_quotes h
  asked unknown_action qty offset h = h

module _ {F S : Type 0} ⦃fl : Float F⦄ where
  -- The import behind the action names a module that the program does not have, so its
  -- `ImportError` is logged, and no event is pushed.
  abbrev pub acted : Action → Option ℤ → Option ℤ → Simulator F S → Simulator F S
  acted a (some qty) (some offset) s = record s {
    agents = on_human (on_player (λ h. asked a qty offset h)) s.agents;
  }
  acted a _ _ s = s

  -- "Instant 100-tick drop". A geometric Brownian motion has no `theta`.
  unfoldable pub dropped : PriceProcess F S → PriceProcess F S
  dropped (Process.gbm p) =
      Process.gbm (record p { current_price = p.current_price ⊖ of_int (pos 100) })
  dropped (Process.ou p) = Process.ou (record p {
    theta = p.theta ⊖ of_int (pos 100);
    current_price = p.current_price ⊖ of_int (pos 100);
  })
  dropped (Process.regime p) = Process.regime (record p {
    theta = p.theta ⊖ of_int (pos 100);
    current_price = p.current_price ⊖ of_int (pos 100);
  })

  -- "Transition to volatile regime or manually spike OU sigma"
  unfoldable pub spiked : PriceProcess F S → PriceProcess F S
  spiked (Process.gbm p) = Process.gbm (record p { sigma = p.sigma ⊗ of_int (pos 3) })
  spiked (Process.ou p) = Process.ou (record p { sigma = p.sigma ⊗ of_int (pos 3) })
  spiked (Process.regime p) = Process.regime (record p { current_regime = Regime.volatile })

  abbrev pub run_scenario : ℕ → Scenario → Simulator F S → Simulator F S
  run_scenario room flash_crash s = record s {
    current_mid = s.current_mid -ℤ pos 100;
    price_process = dropped s.price_process;
  }
  run_scenario room whale_buy s = record s { tcp_client = whale_sent room s.tcp_client }
  run_scenario room vol_spike s = record s { price_process = spiked s.price_process }
  run_scenario room unknown_scenario s = s

  -- One message, with the room that the socket has for a send.
  unfoldable pub process_message : ℕ → WsMessage → Simulator F S → Simulator F S
  process_message room (human_action a qty offset) s =
      acted a (int_field (pos 100) qty) (int_field (pos 0) offset) s
  process_message room (scenario name) s = run_scenario room name s
  process_message room unknown_type s = s
  process_message room malformed s = s

  abbrev pub process_messages : List (ℕ × WsMessage) → Simulator F S → Simulator F S
  process_messages [] s = s
  process_messages ((room, m) ∷ ms) s = process_messages ms (process_message room m s)

  abbrev pub process_polled :
      Option (List (Notice F)) → List (ℕ × WsMessage) → Simulator F S → Simulator F S
  process_polled none incoming s = s
  process_polled (some notices) incoming s = process_messages incoming s

  -- `_process_incoming_ws_messages`, with what `poll_incoming` gives if there is a bridge.
  abbrev pub process_incoming : List (ℕ × WsMessage) → Simulator F S → Simulator F S
  process_incoming incoming s = process_polled s.ws_bridge incoming s
