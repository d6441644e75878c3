-- ===== src/Simulator/Steering.antt =====
-- What the messages of the frontend ask for, read without the simulator
-- (`_process_incoming_ws_messages` of simulation/simulator.py).
use liquidity_arena.Prelude.{ℕ, zero, suc, ◌++◌, ◌*◌, ◌≡◌, refl, Option, none, some, List, [], ◌∷◌}
use liquidity_arena.Prelude.Int.{ℤ, pos, ◌+ℤ◌}
use liquidity_arena.Numeric.{Float, ◌⊖◌, ◌⊗◌, of_int}
use liquidity_arena.Wire.Client.{Client, send_new_order}
use liquidity_arena.Price.Process.{PriceProcess}
use liquidity_arena.Simulator.State.{Simulator}
use liquidity_arena.Agents.Human.Queue.{Click, market, limit, cancel, clicks}
use liquidity_arena.Price.Process
use liquidity_arena.Price.Regimes.{Regime}
use liquidity_arena.Wire.Messages.{NewOrderMsg}
use liquidity_arena.Simulator.Frontend.{
  IntField, absent, given, unreadable, market_buy, market_sell, limit_buy, limit_sell,
  cancel_quotes, Action, WsMessage, human_action, scenario, flash_crash, whale_buy, vol_spike,
  dropped, spiked, on_player, on_human,
}

-- How many messages ask for a flash crash, and for a volatility spike.
abbrev pub crashes : List (ℕ × WsMessage) → ℕ
crashes [] = 0
crashes ((room, scenario flash_crash) ∷ ms) = suc (crashes ms)
crashes ((room, m) ∷ ms) = crashes ms

abbrev pub spikes : List (ℕ × WsMessage) → ℕ
spikes [] = 0
spikes ((room, scenario vol_spike) ∷ ms) = suc (spikes ms)
spikes ((room, m) ∷ ms) = spikes ms

-- One market order to buy 5000, under the id 999999, for each whale, if there is a client.
abbrev pub whales : List (ℕ × WsMessage) → Option Client → Option Client
whales [] c = c
whales ((room, scenario whale_buy) ∷ ms) none = whales ms none
whales ((room, scenario whale_buy) ∷ ms) (some c) =
    let order : NewOrderMsg = record {
      id = 999999;
      side = pos 0;
      order_type = pos 1;
      price = pos 0;
      quantity = pos 5000;
      display_qty = pos 0;
    } in
    whales ms (some (send_new_order room order c).1)
whales ((room, m) ∷ ms) c = whales ms c

-- The click of an action whose quantity and offset can be read.
abbrev pub clicked : Action → Option ℤ → Option ℤ → List Click
clicked market_buy (some qty) (some offset) = market (pos 0) qty ∷ []
clicked market_sell (some qty) (some offset) = market (pos 1) qty ∷ []
clicked limit_buy (some qty) (some offset) = limit (pos 0) offset qty ∷ []
clicked limit_sell (some qty) (some offset) = limit (pos 1) offset qty ∷ []
clicked cancel_quotes (some qty) (some offset) = cancel ∷ []
clicked _ _ _ = []

-- A number that is not given is the default.
abbrev pub number : ℤ → IntField → Option ℤ
number default absent = some default
number default (given n) = some n
number default unreadable = none

-- The clicks among the messages, in order: of 100 and at the best price where nothing else is given.
abbrev pub clicks_in : List (ℕ × WsMessage) → List Click
clicks_in [] = []
clicks_in ((room, human_action a qty offset) ∷ ms) =
    clicked a (number (pos 100) qty) (number (pos 0) offset) ++ clicks_in ms
clicks_in ((room, m) ∷ ms) = clicks_in ms

-- The regime after so many spikes.
abbrev pub regime_after : ℕ → Regime → Regime
regime_after zero r = r
regime_after (suc v) r = Regime.volatile

abbrev pub times : {A : Type 0} → ℕ → (A → A) → A → A
times zero f a = a
times (suc n) f a = times n f (f a)

module _ {F S : Type 0} ⦃fl : Float F⦄ where
  -- A price process after so many flash crashes and spikes: each crash takes 100 off its price and
  -- off the mean that it reverts to, if it has one, and each spike triples its volatility, or makes
  -- the regime volatile.
  abbrev pub shocked : ℕ → ℕ → PriceProcess F S → PriceProcess F S
  shocked c v (Process.gbm p) = Process.gbm (record p {
    current_price = times c (λ x. x ⊖ of_int (pos 100)) p.current_price;
    sigma = times v (λ x. x ⊗ of_int (pos 3)) p.sigma;
  })
  shocked c v (Process.ou p) = Process.ou (record p {
    theta = times c (λ x. x ⊖ of_int (pos 100)) p.theta;
    current_price = times c (λ x. x ⊖ of_int (pos 100)) p.current_price;
    sigma = times v (λ x. x ⊗ of_int (pos 3)) p.sigma;
  })
  shocked c v (Process.regime p) = Process.regime (record p {
    theta = times c (λ x. x ⊖ of_int (pos 100)) p.theta;
    current_price = times c (λ x. x ⊖ of_int (pos 100)) p.current_price;
    current_regime = regime_after v p.current_regime;
  })

  pub shocked-none : (p : PriceProcess F S) → shocked 0 0 p ≡ p
  shocked-none (Process.gbm p) = refl
  shocked-none (Process.ou p) = refl
  shocked-none (Process.regime p) = refl

  pub shocked-dropped :
      (c v : ℕ) (p : PriceProcess F S) → shocked c v (dropped p) ≡ shocked (suc c) v p
  unfolding dropped
  shocked-dropped c v (Process.gbm p) = refl
  shocked-dropped c v (Process.ou p) = refl
  shocked-dropped c v (Process.regime p) = refl

  pub shocked-spiked :
      (c v : ℕ) (p : PriceProcess F S) → shocked c v (spiked p) ≡ shocked c (suc v) p
  unfolding spiked
  shocked-spiked c v (Process.gbm p) = refl
  shocked-spiked c v (Process.ou p) = refl
  shocked-spiked c zero (Process.regime p) = refl
  shocked-spiked c (suc v) (Process.regime p) = refl

  -- The simulator after the messages.
  pub record Steered (ms : List (ℕ × WsMessage)) (s u : Simulator F S) : Type 0 where
    pub rest : u ≡ record s {
      current_mid = u.current_mid;
      price_process = u.price_process;
      tcp_client = u.tcp_client;
      agents = u.agents;
    }
    pub mid : u.current_mid +ℤ pos (100 * crashes ms) ≡ s.current_mid
    pub price : u.price_process ≡ shocked (crashes ms) (spikes ms) s.price_process
    pub client : u.tcp_client ≡ whales ms s.tcp_client
    pub players : u.agents ≡ on_human (on_player (clicks (clicks_in ms))) s.agents
