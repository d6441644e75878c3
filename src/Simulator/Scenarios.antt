-- ===== src/Simulator/Scenarios.antt =====
-- What the messages of the frontend do to the simulator (`_process_incoming_ws_messages` of
-- simulation/simulator.py).
use liquidity_arena.Prelude.{
  ℕ, suc, ◌++◌, ◌*◌, ◌≡◌, refl, sym, ap, subst, ◌∙◌, false, true, Bool, Option, none, some, List,
  [], ◌∷◌, arith,
}
use liquidity_arena.Prelude.Int.{ℤ, pos, ◌+ℤ◌, ◌-ℤ◌}
use liquidity_arena.Numeric.{Float}
use liquidity_arena.Wire.Client.{Client}
use liquidity_arena.Agents.Human.{HumanAgent}
use liquidity_arena.Simulator.Traders.{AgentId, Trader, player, same_id}
use liquidity_arena.Simulator.State.{Simulator, Notice}
use liquidity_arena.Agents.Human.Queue.{Click, click, clicks}
use liquidity_arena.Simulator.Frontend.{
  IntField, absent, given, unreadable, market_buy, market_sell, limit_buy, limit_sell,
  cancel_quotes, unknown_action, Action, WsMessage, human_action, scenario, unknown_type, malformed,
  flash_crash, whale_buy, vol_spike, unknown_scenario, asked, on_player, acted, on_human, int_field,
  whale_sent, process_message, process_messages, process_incoming, process_polled,
}
use liquidity_arena.Simulator.Steering.{
  crashes, spikes, whales, clicked, number, clicks_in, shocked-none, shocked-dropped,
  shocked-spiked, Steered,
}

module _ {F S : Type 0} where
  on_player-twice :
      (f g : HumanAgent F → HumanAgent F) (t : Trader F S)
      → on_player g (on_player f t) ≡ on_player (λ h. g (f h)) t
  on_player-twice f g (player t) = refl
  on_player-twice f g _ = refl

  abbrev at_human : Bool → (Trader F S → Trader F S) → Trader F S → Trader F S
  at_human b f t = elim b [ true ↦ f t | false ↦ t ]

  at_human-twice :
      (b : Bool) (f g : HumanAgent F → HumanAgent F) (t : Trader F S)
      → at_human b (on_player g) (at_human b (on_player f) t)
        ≡ at_human b (on_player (λ h. g (f h))) t
  at_human-twice true f g t = on_player-twice f g t
  at_human-twice false f g t = refl

  on_human-twice :
      (f g : HumanAgent F → HumanAgent F) (d : List (AgentId × Trader F S))
      → on_human (on_player g) (on_human (on_player f) d) ≡ on_human (on_player (λ h. g (f h))) d
  on_human-twice f g [] = refl
  on_human-twice f g ((i, t) ∷ d) =
      λ k. (i, at_human-twice (same_id AgentId.human i) f g t k) ∷ on_human-twice f g d k

  on_player-id : (t : Trader F S) → on_player (λ h. h) t ≡ t
  on_player-id (player t) = refl
  on_player-id _ = refl

  at_human-id : (b : Bool) (t : Trader F S) → at_human b (on_player (λ h. h)) t ≡ t
  at_human-id true t = on_player-id t
  at_human-id false t = refl

  on_human-id : (d : List (AgentId × Trader F S)) → on_human (on_player (λ h. h)) d ≡ d
  on_human-id [] = refl
  on_human-id ((i, t) ∷ d) = λ k. (i, at_human-id (same_id AgentId.human i) t k) ∷ on_human-id d k

unmoved : (a : ℤ) → a +ℤ pos (100 * 0) ≡ a
unfolding ◌+ℤ◌
unmoved a = ground arith

crashed_lem : (a b : ℤ) (n : ℕ) → a +ℤ pos (100 * n) ≡ b -ℤ pos 100 → a +ℤ pos (100 * suc n) ≡ b
unfolding ◌+ℤ◌ ◌-ℤ◌
crashed_lem a b n h = ground (arith, h)

clicked-unread :
    (a : Action) (qty : Option ℤ) → (clicked a none qty ≡ []) × (clicked a qty none ≡ [])
clicked-unread a qty = ground arith

number-int_field : (default : ℤ) (f : IntField) → int_field default f ≡ number default f
number-int_field default absent = refl
number-int_field default (given n) = refl
number-int_field default unreadable = refl

-- A whale of the code.
whales-sent :
    (room : ℕ) (ms : List (ℕ × WsMessage)) (c : Option Client)
    → whales ms (whale_sent room c) ≡ whales ((room, scenario whale_buy) ∷ ms) c
whales-sent room ms none = refl
whales-sent room ms (some c) = refl

module _ {F : Type 0} ⦃fl : Float F⦄ where
  clicked-asked :
      (a : Action) (qty offset : ℤ) (h : HumanAgent F)
      → asked a qty offset h ≡ clicks (clicked a (some qty) (some offset)) h
  unfolding asked
  clicked-asked market_buy qty offset h = refl
  clicked-asked market_sell qty offset h = refl
  clicked-asked limit_buy qty offset h = refl
  clicked-asked limit_sell qty offset h = refl
  clicked-asked cancel_quotes qty offset h = refl
  clicked-asked unknown_action qty offset h = refl

  clicks-append :
      (cs ds : List Click) (h : HumanAgent F) → clicks (cs ++ ds) h ≡ clicks ds (clicks cs h)
  clicks-append [] ds h = refl
  clicks-append (c ∷ cs) ds h = clicks-append cs ds (click c h)

module _ {F S : Type 0} ⦃fl : Float F⦄ where
  acted-clicked :
      (a : Action) (qty offset : Option ℤ) (s : Simulator F S)
      → acted a qty offset s
        ≡ record s { agents = on_human (on_player (clicks (clicked a qty offset))) s.agents }
  acted-clicked a none offset s =
      rw (clicked-unread a offset).0
        (ap (λ d. record s { agents = d }) (sym (on_human-id s.agents)))
  acted-clicked a (some qty) none s =
      rw (clicked-unread a (some qty)).1
        (ap (λ d. record s { agents = d }) (sym (on_human-id s.agents)))
  acted-clicked a (some qty) (some offset) s =
      λ i. record s { agents = on_human (on_player (λ h. clicked-asked a qty offset h i)) s.agents }

  process_messages-Steered :
      (ms : List (ℕ × WsMessage)) (s : Simulator F S) → Steered ms s (process_messages ms s)
  unfolding process_message
  process_messages-Steered [] s = record {
    rest = refl;
    mid = unmoved s.current_mid;
    price = sym (shocked-none s.price_process);
    client = refl;
    players = sym (on_human-id s.agents);
  }
  process_messages-Steered ((room, human_action a qty offset) ∷ ms) s =
      let cs = clicked a (number (pos 100) qty) (number (pos 0) offset) in
      let e =
        (λ i. acted a (number-int_field (pos 100) qty i) (number-int_field (pos 0) offset i) s)
        ∙ acted-clicked a (number (pos 100) qty) (number (pos 0) offset) s in
      let s₁ = record s { agents = on_human (on_player (clicks cs)) s.agents } in
      let w = process_messages-Steered ms s₁ in
      subst (λ v. Steered ((room, human_action a qty offset) ∷ ms) s (process_messages ms v))
        (sym e)
        (record {
          rest = w.rest;
          mid = w.mid;
          price = w.price;
          client = w.client;
          players = w.players ∙ on_human-twice (clicks cs) (clicks (clicks_in ms)) s.agents ∙ (λ i.
              on_human (on_player (λ h. sym (clicks-append cs (clicks_in ms) h) i)) s.agents);
        })
  process_messages-Steered ((room, scenario flash_crash) ∷ ms) s =
      let w = process_messages-Steered ms (process_message room (scenario flash_crash) s) in
      record {
        rest = w.rest;
        mid = crashed_lem _ s.current_mid (crashes ms) w.mid;
        price = w.price ∙ shocked-dropped (crashes ms) (spikes ms) s.price_process;
        client = w.client;
        players = w.players;
      }
  process_messages-Steered ((room, scenario whale_buy) ∷ ms) s =
      let w = process_messages-Steered ms (process_message room (scenario whale_buy) s) in
      record {
        rest = w.rest;
        mid = w.mid;
        price = w.price;
        client = w.client ∙ whales-sent room ms s.tcp_client;
        players = w.players;
      }
  process_messages-Steered ((room, scenario vol_spike) ∷ ms) s =
      let w = process_messages-Steered ms (process_message room (scenario vol_spike) s) in
      record {
        rest = w.rest;
        mid = w.mid;
        price = w.price ∙ shocked-spiked (crashes ms) (spikes ms) s.price_process;
        client = w.client;
        players = w.players;
      }
  process_messages-Steered ((room, scenario unknown_scenario) ∷ ms) s =
      let w = process_messages-Steered ms (process_message room (scenario unknown_scenario) s) in
      record { rest = w.rest; mid = w.mid; price = w.price; client = w.client; players = w.players }
  process_messages-Steered ((room, unknown_type) ∷ ms) s =
      let w = process_messages-Steered ms (process_message room (unknown_type) s) in
      record { rest = w.rest; mid = w.mid; price = w.price; client = w.client; players = w.players }
  process_messages-Steered ((room, malformed) ∷ ms) s =
      let w = process_messages-Steered ms (process_message room (malformed) s) in
      record { rest = w.rest; mid = w.mid; price = w.price; client = w.client; players = w.players }

  -- With a bridge to the frontend, reading its messages changes nothing but the mid price, the price
  -- process, the client and the agents (so no event is queued, also for an action of the player).
  -- The mid price falls by 100 for each flash crash. Each flash crash takes 100 off the price of the
  -- process and off the mean that it reverts to, if it has one, and each volatility spike triples
  -- its volatility, or makes its regime volatile. For each whale, a client sends a market order to
  -- buy 5000 with the id 999999. Of the agents only the human changes, by the market and limit
  -- orders and the cancels that the player's actions ask for, in order, of 100 and with no offset
  -- where none is given; a message that cannot be read does nothing.
  pub process_incoming-Steered :
      (ms : List (ℕ × WsMessage)) (s : Simulator F S) (notices : List (Notice F))
      → s.ws_bridge ≡ some notices
      → Steered ms s (process_incoming ms s)
  process_incoming-Steered ms s notices e =
      subst (λ b. Steered ms s (process_polled b ms s)) (sym e) (process_messages-Steered ms s)
