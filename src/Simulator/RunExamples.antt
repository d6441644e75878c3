-- ===== src/Simulator/RunExamples.antt =====
-- A short run of a simulator over whole numbers.
use liquidity_arena.Prelude.{
  ℕ, ◌≡◌, refl, Bool, true, false, Option, none, some, List, [], ◌∷◌, ◌≤◌, ◌/◌, length, arith,
}
use liquidity_arena.Prelude.Int.{
  ℤ, pos, ltb_ℤ, ◌+ℤ◌, ◌-ℤ◌, ◌*ℤ◌, neg, half, floor_div, abs, min, max,
}
use liquidity_arena.Numeric.Whole.{whole, whole_numpy}
use liquidity_arena.Wire.Client.{
  would_block, connect, disconnect, sendall, framed, send_new_order, send_cancel, poll,
}
use liquidity_arena.Wire.Client.{drain}
use liquidity_arena.Wire.Messages.{pack_new_order, pack_cancel_order}
use liquidity_arena.Wire.Struct.{
  pack, le_bytes, of_bits, of_signed, to_bits, signed_bits, unsigned_bits,
}
use liquidity_arena.Latency.{sample, sample_seconds}
use liquidity_arena.Agents.Base.{
  new_agent, next_order_id, track_order, update_unrealized_pnl, cancel_all, place,
}
use liquidity_arena.Agents.Human.{new_human, place_market_order}
use liquidity_arena.Agents.Human
use liquidity_arena.Agents.Noise.{new_noise}
use liquidity_arena.Agents.Noise
use liquidity_arena.Agents.Informed.{new_informed}
use liquidity_arena.Agents.Informed
use liquidity_arena.Agents.LatencyArb.{new_arb}
use liquidity_arena.Agents.LatencyArb
use liquidity_arena.Agents.Momentum.{new_momentum, update_emas}
use liquidity_arena.Agents.Momentum
use liquidity_arena.Agents.MarketMaker.{
  ladder, new_maker, estimate_sigma_sq, optimal_quotes, scaled_quantity, quote, prepare,
}
use liquidity_arena.Agents.MarketMaker
use liquidity_arena.Agents.Samples.{counter}
use liquidity_arena.Metrics.{record_quote, record_cancel, record_state}
use liquidity_arena.Metrics.Ratios.{
  sharpe_ratio, inventory_variance, fill_ratio, adverse_selection, quote_lifetime_avg,
  order_to_trade_ratio,
}
use liquidity_arena.Metrics.Pnl.{pnl_decomposition, compute_report}
use liquidity_arena.Price.Process.{price_step}
use liquidity_arena.Price.Diffusion.{gbm_step}
use liquidity_arena.Price.Samples.{firsts}
use liquidity_arena.Simulator.SortedQueue.{
  IsNat, sorted, sorted-IsHeapq, sorted-PopsLeast, whole-IsTimes,
}
use liquidity_arena.Simulator.Traders.{delay_seconds, act}
use liquidity_arena.Simulator.Events.{NotBefore}
use liquidity_arena.Simulator.State.{Simulator, Notice}
use liquidity_arena.Simulator.Exchange.{
  send_orders, send_cancels, handle, handle_all, read_back, submit_orders, submit_cancels,
}
use liquidity_arena.Simulator.Frontend.{
  WsMessage, human_action, scenario, malformed, market_buy, market_sell, flash_crash, whale_buy,
  vol_spike, given, absent, unreadable, asked, process_message, process_incoming,
}
use liquidity_arena.Simulator.Config.{Config, PriceType}
use liquidity_arena.Simulator.Setup.{
  create_price_process, new_simulator, add_agent, make_human, make_maker, make_noise, add_noise,
  make_informed, make_momentum, make_arb, create_agents,
}
use liquidity_arena.Simulator.Loop.{
  Inputs, Progress, ended, crashed, unfinished, schedule_action, schedule_actions, schedule_step,
  schedule_steps, add_extra, move_price, react, round, main_loop,
}
use liquidity_arena.Simulator.Run.{initial_book, create_hawkes, start_run, finish, run}
use liquidity_arena.Simulator.Started.{made}
use liquidity_arena.Simulator.Rounds.{here, main_loop-Rounds}
use liquidity_arena.Simulator.Ending.{Finished}
use liquidity_arena.Simulator.Completed.{run-Complete, run-Finished, run-Forward}
use liquidity_arena.Simulator.Steering.{Steered}
use liquidity_arena.Simulator.Scenarios.{process_incoming-Steered}
use liquidity_arena.Simulator.Standalone.{trades}
use liquidity_arena.Simulator.Standalone.Running.{run-untraded}
use liquidity_arena.Simulator.Members.{all_ids, Made}
use liquidity_arena.Simulator.Members.Configured.{AllFit, create_agents-IsConfigured}
use liquidity_arena.Prelude.Results.{Every}

abbrev settings : Config ℤ
settings = record {
  steps = 2;
  dt = some (pos 1);
  price_process = record {
    type = some PriceType.gbm;
    initial_price = pos 10000;
    mu = none;
    sigma = none;
    kappa = none;
    theta = none;
    seed = none;
  };
  agents = record {
    num_noise = some 1;
    market_maker = record {
      gamma = some (pos 1);
      kappa = none;
      levels = some (pos 1);
      level_spacing = none;
      base_qty = none;
      inventory_limit = none;
    };
    noise_trader = record {
      order_prob = none;
      spread_range = none;
      min_qty = none;
      max_qty = none;
      market_order_prob = none;
    };
    informed_trader = record {
      threshold = none;
      aggression = none;
      min_qty = none;
      max_qty = none;
    };
    momentum_trader = record {
      fast_period = none;
      slow_period = none;
      trade_prob = none;
      min_qty = none;
      max_qty = none;
    };
    latency_arb = record { threshold = none; max_position = none; trade_prob = none };
  };
  order_flow = record {
    is_hawkes = false;
    hawkes_mu = none;
    hawkes_alpha = none;
    hawkes_beta = none;
  };
}

abbrev inputs : ℕ → Inputs
inputs k = record {
  incoming = (100, human_action market_buy (given (pos 7)) absent) ∷ [];
  cancel_room = λ i. 100;
  order_room = λ i. 100;
  recv = would_block;
  stops = false;
}

abbrev seeded : ℕ → ℕ
seeded n = n

abbrev bridge : Option (List (Notice ℤ))
bridge = some []

abbrev begun : Option (Simulator ℤ ℕ × ℕ)
begun = start_run seeded true settings 0 (made seeded settings bridge)

-- The simulator as its loop begins.
abbrev opened : Simulator ℤ ℕ
opened = elim begun [ none ↦ made seeded settings bridge | some r ↦ r.0 ]

abbrev is_ended : Progress ℤ ℕ → Bool
is_ended (ended s) = true
is_ended _ = false

abbrev state_of : Progress ℤ ℕ → Simulator ℤ ℕ
state_of (ended s) = s
state_of crashed = opened
state_of (unfinished s) = s

ended_lem : (p : Progress ℤ ℕ) → is_ended p ≡ true → p ≡ ended (state_of p)
ended_lem (ended s) h = refl
ended_lem crashed h = absurd (cc h)
ended_lem (unfinished s) h = absurd (cc h)

-- The simulator behind its loop.
abbrev last : Simulator ℤ ℕ
last = state_of (main_loop 40 inputs opened)

-- The simulator behind the run, with the engine or without it.
abbrev closed : Bool → Simulator ℤ ℕ
closed accepted = state_of (run seeded 40 inputs accepted settings 0 (made seeded settings bridge))

program : Unit {0}
unfolding delay_seconds act send_orders send_cancels handle handle_all read_back submit_orders
    submit_cancels asked process_message schedule_action schedule_actions schedule_step
    schedule_steps add_extra move_price react round main_loop create_price_process new_simulator
    add_agent make_human make_maker make_noise add_noise make_informed make_momentum make_arb
    create_agents create_hawkes start_run finish run new_momentum update_emas
    Momentum.on_book_update new_arb LatencyArb.set_true_price LatencyArb.on_book_update ladder
    new_maker estimate_sigma_sq optimal_quotes scaled_quantity quote prepare
    MarketMaker.on_book_update new_noise Noise.on_book_update new_human Human.on_book_update
    place_market_order new_informed Informed.set_true_price Informed.on_book_update new_agent
    next_order_id track_order update_unrealized_pnl cancel_all place price_step gbm_step sample
    sample_seconds sharpe_ratio inventory_variance fill_ratio adverse_selection quote_lifetime_avg
    order_to_trade_ratio pnl_decomposition compute_report record_quote record_cancel record_state
    connect disconnect sendall framed send_new_order send_cancel poll ◌+ℤ◌ ◌-ℤ◌ ◌*ℤ◌ neg half
    floor_div abs min max pack_new_order pack_cancel_order pack drain Noise.random_order
    Noise.limit_order Human.track_all LatencyArb.try_buy LatencyArb.try_sell LatencyArb.try_flatten
    LatencyArb.flatten LatencyArb.pick_off Momentum.trade le_bytes of_bits of_signed to_bits
    signed_bits unsigned_bits
program = tt

begun-opened : begun ≡ some (opened, 6)
unfolding program
begun-opened = refl

-- The loop and the runs end.
loop-ended : is_ended (main_loop 40 inputs opened) ≡ true
unfolding program
loop-ended = refl

run-ended : is_ended (run seeded 40 inputs true settings 0 (made seeded settings bridge)) ≡ true
unfolding program
run-ended = refl

run_alone-ended :
    is_ended (run seeded 40 inputs false settings 0 (made seeded settings bridge)) ≡ true
unfolding program
run_alone-ended = refl

closed-running : (closed true).running ≡ true
unfolding program
closed-running = refl

steps-IsNat : (n : ℕ) → IsNat (pos n *ℤ pos 1)
unfolding ◌*ℤ◌
steps-IsNat n = ground arith

run-Complete_example :
    ((closed true).step_count ≡ 2) × (length (closed true).metrics.pnl_history ≡ 101 / 100)
run-Complete_example =
    run-Complete sorted-IsHeapq seeded true settings 0 bridge 40 inputs (closed true)
      (ended_lem _ run-ended) closed-running

run-Finished_example :
    (n : ℕ) × ((k : ℕ)
      → n ≤ k
      → Finished (run seeded k inputs true settings 0 (made seeded settings bridge)))
run-Finished_example = run-Finished sorted-IsHeapq seeded true settings 0 bridge inputs

run-Forward_example :
    (ltb_ℤ last.current_time opened.current_time ≡ false)
    × NotBefore last.current_time last.event_queue
unfolding new_simulator ◌*ℤ◌
run-Forward_example =
    run-Forward sorted-IsHeapq seeded true settings 0 bridge whole-IsTimes sorted-PopsLeast
      steps-IsNat refl opened opened last 6 begun-opened here
      (main_loop-Rounds 40 inputs opened last (ended_lem _ loop-ended)).0

run-untraded_example :
    trades (closed false) ≡ (none, some (initial_book (pos 10000)), [], [], 0, 0, 0)
run-untraded_example =
    run-untraded seeded settings 0 bridge 40 inputs (closed false) (ended_lem _ run_alone-ended)

create_agents-IsConfigured_example :
    Every
      (λ r.
        Made 7 (all_ids 1) (made seeded settings bridge) r.0 × AllFit seeded settings.agents r.0)
      (create_agents seeded settings.agents 7 (made seeded settings bridge))
unfolding new_simulator
create_agents-IsConfigured_example =
    create_agents-IsConfigured seeded settings.agents 7 (made seeded settings bridge) refl refl

-- The numbers of the fourth message cannot be read.
abbrev asked_for : List (ℕ × WsMessage)
asked_for =
    (100, human_action market_buy (given (pos 7)) absent)
    ∷ (100, scenario flash_crash)
    ∷ (100, scenario whale_buy)
    ∷ (100, human_action market_sell unreadable absent)
    ∷ (100, scenario vol_spike)
    ∷ (100, malformed)
    ∷ []

opened-bridge : opened.ws_bridge ≡ some []
unfolding program
opened-bridge = refl

process_incoming-Steered_example : Steered asked_for opened (process_incoming asked_for opened)
process_incoming-Steered_example = process_incoming-Steered asked_for opened [] opened-bridge
