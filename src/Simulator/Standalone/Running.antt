-- ===== src/Simulator/Standalone/Running.antt =====
-- A whole run without an engine (`run` of simulation/simulator.py).
use liquidity_arena.Prelude.{ℕ, ◌≡◌, refl, sym, ap, ◌∙◌, false, Option, none, some, List, []}
use liquidity_arena.Prelude.Int.{ℤ}
use liquidity_arena.Prelude.Results.{Every, Every-some, Every-bind, Every-chain}
use liquidity_arena.Numeric.{Float, Numpy, Rng, Sampler}
use liquidity_arena.Wire.Client.{Client, connect}
use liquidity_arena.Simulator.Events.{Heapq}
use liquidity_arena.Simulator.State.{Simulator, Notice}
use liquidity_arena.Simulator.Standalone.{Trades, trades, Idle, client-Idle}
use liquidity_arena.Simulator.Standalone.Events.{schedule_steps-Idle, round-Idle}
use liquidity_arena.Simulator.Config.{get_or, Config}
use liquidity_arena.Simulator.Setup.{new_simulator, create_agents}
use liquidity_arena.Simulator.Members.{all_ids, Made}
use liquidity_arena.Simulator.Members.Creating.{create_agents-Made}
use liquidity_arena.Simulator.Started.{made}
use liquidity_arena.Simulator.Loop.{Inputs, ended, round, main_loop, schedule_initial_events}
use liquidity_arena.Simulator.Rounds.{Rounds, here, next, main_loop-Rounds}
use liquidity_arena.Simulator.Finishing.{closed, finish-ended}
use liquidity_arena.Simulator.Run.{
  initial_book, create_hawkes, start_run, disconnected, run_from, run,
}

-- No trade has been made: the book is the first one still.
abbrev untraded : {F : Type 0} → ℤ → Trades F
untraded mid = (none, some (initial_book mid), [], [], 0, 0, 0)

module _ {F S : Type 0} ⦃fl : Float F⦄ ⦃np : Numpy F⦄ ⦃g : Rng F S⦄ ⦃sp : Sampler F S⦄
    ⦃hq : Heapq F⦄ where
  Rounds-Idle : (s u : Simulator F S) → s.tcp_client ≡ none → Rounds s u → Idle s u
  Rounds-Idle s _ e here = refl
  Rounds-Idle s _ e (next {t = t} {u = u} io rs go h) =
      let k = Rounds-Idle s t e rs in
      Every-some (Idle t) (round io t) u (round-Idle io t (client-Idle s t k e)) h ∙ k

module _ {F S : Type 0} where
  closed-Idle : (v : Simulator F S) → v.tcp_client ≡ none → Idle v (closed v)
  closed-Idle v e =
      ap (λ k. trades (record v { tcp_client = disconnected k })) e
      ∙ ap (λ k. trades (record v { tcp_client = k })) (sym e)

module _ {F S : Type 0} ⦃fl : Float F⦄ ⦃np : Numpy F⦄ ⦃g : Rng F S⦄ ⦃sp : Sampler F S⦄
    ⦃hq : Heapq F⦄ (default_rng : ℕ → S) (c : Config F) (agent_counter : ℕ)
    (bridge : Option (List (Notice F))) where
  begun-untraded :
      Every
        (λ r. trades r.0 ≡ untraded c.price_process.initial_price)
        (start_run default_rng false c agent_counter (made default_rng c bridge))
  unfolding start_run new_simulator connect
  begun-untraded =
      let s = made default_rng c bridge in
      Every-chain
        (λ (r : Simulator F S × ℕ).
          Made agent_counter (all_ids (get_or 3 c.agents.num_noise)) s r.0)
        (λ r. trades r.0 ≡ untraded c.price_process.initial_price)
        (create_agents default_rng c.agents agent_counter s) _
        (create_agents-Made default_rng c.agents agent_counter s refl refl)
        (λ r m.
          Every-bind (λ r. trades r.0 ≡ untraded c.price_process.initial_price)
            (create_hawkes default_rng c.order_flow) _
            (λ h.
              let s₂ = record r.0 {
                hawkes = h;
                tcp_client = none;
                last_book_update = some (initial_book r.0.current_mid);
              } in
              Every-chain (Idle s₂) (λ r. trades r.0 ≡ untraded c.price_process.initial_price)
                (schedule_initial_events s₂) _ (schedule_steps-Idle s₂.total_steps 0 s₂)
                (λ s₃ i.
                  i
                  ∙ ap
                      (λ (x : Simulator F S). trades (record x {
                        tcp_client = none;
                        last_book_update = some (initial_book x.current_mid);
                      }))
                      m.rest)))

  run_from-untraded :
      (n : ℕ) (io : ℕ → Inputs) (b : Option (Simulator F S × ℕ)) (u : Simulator F S)
      → Every (λ r. trades r.0 ≡ untraded c.price_process.initial_price) b
      → run_from n io b ≡ ended u
      → trades u ≡ untraded c.price_process.initial_price
  run_from-untraded n io none u w e = absurd (cc e)
  run_from-untraded n io (some (s, k)) u w e =
      let (v, le, same) = finish-ended (main_loop n io s) u e in
      let i =
        Rounds-Idle s v (ap {B = Option Client} (λ (r : Trades F). r.0) w)
          (main_loop-Rounds n io s v le).0 in
      ap trades same
      ∙ closed-Idle v (ap {B = Option Client} (λ (r : Trades F). r.0) (i ∙ w))
      ∙ i
      ∙ w

  -- A run of a new simulator that does not reach the engine, and that ends by its loop's test, has
  -- traded nothing, whatever its agents and the frontend do: it has no client, its book is the first
  -- one, around the initial price, and no fill, quote or cancel is recorded.
  pub run-untraded :
      (n : ℕ) (io : ℕ → Inputs) (u : Simulator F S)
      → run default_rng n io false c agent_counter (made default_rng c bridge) ≡ ended u
      → trades u ≡ (none, some (initial_book c.price_process.initial_price), [], [], 0, 0, 0)
  unfolding run
  run-untraded n io u e =
      run_from-untraded n io
        (start_run default_rng false c agent_counter (made default_rng c bridge)) u begun-untraded e
