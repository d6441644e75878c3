-- ===== src/Simulator/Completed.antt =====
-- What a whole run does (`run` of simulation/simulator.py).
use liquidity_arena.Prelude.{
  All-map, ℕ, ◌+◌, ◌/◌, ◌≤◌, ◌≡◌, refl, sym, ap, subst, ◌∙◌, Bool, true, false, Option, none, some,
  List, [], ◌∷◌, ◌&&◌, length, arith,
}
use liquidity_arena.Prelude.Int.{pos}
use liquidity_arena.Prelude.Results.{Every, Every-some}
use liquidity_arena.Numeric.{Float, ◌⊗◌, of_int, literal, lt, Numpy, Rng, Sampler}
use liquidity_arena.Metrics.Pnl.{compute_report}
use liquidity_arena.Simulator.Traders.{AgentId}
use liquidity_arena.Simulator.Events.{EventType, Event, has_events, count_of, Heapq, NotBefore}
use liquidity_arena.Simulator.Queue.{IsHeapq, PopsLeast}
use liquidity_arena.Simulator.State.{Simulator, Notice}
use liquidity_arena.Simulator.Effect.{is_in}
use liquidity_arena.Simulator.Ending.{Any, delay_seconds-Any, Finished, main_loop-Ends}
use liquidity_arena.Simulator.Rounds.{Rounds, Rounds-Conserved, main_loop-Rounds}
use liquidity_arena.Simulator.Schedule.{At, AreTimes, samples_in}
use liquidity_arena.Simulator.Clock.{IsTimes, Timely, Rounds-Timely, delay_seconds-IsTime}
use liquidity_arena.Simulator.Config.{Config}
use liquidity_arena.Simulator.Started.{Started, made, start_run-Started}
use liquidity_arena.Simulator.Finishing.{finish-ended}
use liquidity_arena.Simulator.Loop.{Inputs, Progress, ended, crashed, unfinished, main_loop}
use liquidity_arena.Simulator.Run.{start_run, reported, finish, run_from, run}

no_events :
    {F : Type 0} (t : EventType) (q : List (Event F)) (running : Bool)
    → running ≡ true
    → (has_events q && running) ≡ false
    → count_of t q ≡ 0
no_events t [] running h k = refl
no_events t (e ∷ q) running h k = absurd (cc h)

module _ {F S : Type 0} ⦃fl : Float F⦄ ⦃np : Numpy F⦄ ⦃g : Rng F S⦄ ⦃sp : Sampler F S⦄
    ⦃hq : Heapq F⦄ (law : IsHeapq hq) (default_rng : ℕ → S) (accepted : Bool) (c : Config F)
    (agent_counter : ℕ) (bridge : Option (List (Notice F))) where
  made-AreTimes : AreTimes Any Any (made default_rng c bridge).dt
  made-AreTimes = record { steps = λ n. tt; delayed = λ a d h k. tt; halves = λ n. tt }

  begun : Option (Simulator F S × ℕ)
  begun = start_run default_rng accepted c agent_counter (made default_rng c bridge)

  begun-Started : Every (λ r. Started Any c r.0) begun
  unfolding begun
  begun-Started =
      start_run-Started law default_rng Any Any delay_seconds-Any c bridge made-AreTimes accepted
        agent_counter

  -- The loop of a run that has begun, where it ends by its test.
  loop-Complete :
      (n : ℕ) (io : ℕ → Inputs) (s v : Simulator F S)
      → Started Any c s
      → main_loop n io s ≡ ended v
      → v.running ≡ true
      → (v.step_count ≡ c.steps) × (length v.metrics.pnl_history ≡ samples_in c.steps)
  loop-Complete n io s v w e running =
      let (rs, stop) = main_loop-Rounds n io s v e in
      let k = Rounds-Conserved law w.heap rs in
      let no_moves = no_events EventType.midprice_move v.event_queue v.running running stop in
      let no_samples = no_events EventType.metrics_sample v.event_queue v.running running stop in
      (
        omega (arith, k.moves, no_moves, w.moves, w.steps),
        omega (
          arith,
          k.samples (ap (is_in AgentId.mm) w.members),
          no_samples,
          w.samples,
          ap (λ l. length l) w.history,
        ),
      )

  run_from-Complete :
      (n : ℕ) (io : ℕ → Inputs) (b : Option (Simulator F S × ℕ)) (u : Simulator F S)
      → Every (λ r. Started Any c r.0) b
      → run_from n io b ≡ ended u
      → u.running ≡ true
      → (u.step_count ≡ c.steps) × (length u.metrics.pnl_history ≡ samples_in c.steps)
  run_from-Complete n io none u w e running = absurd (cc e)
  run_from-Complete n io (some (s, k)) u w e running =
      let (v, le, same) = finish-ended (main_loop n io s) u e in
      let (steps, samples) =
        loop-Complete n io s v w le (ap (λ x. x.running) (sym same) ∙ running) in
      (
        ap (λ x. x.step_count) same ∙ steps,
        ap (λ (x : Simulator F S). length x.metrics.pnl_history) same ∙ samples,
      )

  -- Where `heapq` does what its documentation says, a run of a new simulator that ends by itself
  -- (without an exception, and not by `stop`) has moved the price once for each configured step,
  -- and has recorded the market maker's state once for each hundred steps that were begun.
  pub run-Complete :
      (n : ℕ) (io : ℕ → Inputs) (u : Simulator F S)
      → run default_rng n io accepted c agent_counter (made default_rng c bridge) ≡ ended u
      → u.running ≡ true
      → (u.step_count ≡ c.steps) × (length u.metrics.pnl_history ≡ (c.steps + 99) / 100)
  unfolding run begun
  run-Complete n io u e running = run_from-Complete n io begun u begun-Started e running

  finish-Finished : (p : Progress F S) → Finished p → Finished (finish p)
  unfolding finish
  finish-Finished (ended s) h = elim (compute_report s.metrics) as (λ r. Finished (reported r s)) [
    | none ↦ tt
    | some r ↦ tt
  ]
  finish-Finished crashed h = tt
  finish-Finished (unfinished s) h = absurd h

  run_from-Finished :
      (io : ℕ → Inputs) (b : Option (Simulator F S × ℕ))
      → Every (λ r. Started Any c r.0) b
      → (n : ℕ) × ((k : ℕ) → n ≤ k → Finished (run_from k io b))
  run_from-Finished io none w = (0, λ k h. tt)
  run_from-Finished io (some (s, a)) w =
      let (n, ends) = main_loop-Ends law io s w.heap in
      (n, λ k h. finish-Finished (main_loop k io s) (ends k h))

  -- Where `heapq` does what its documentation says, every run of a new simulator comes to its end,
  -- whatever the outside does: from some number of rounds on, its loop has ended by its test or by
  -- an exception.
  pub run-Finished :
      (io : ℕ → Inputs)
      → (n : ℕ) × ((k : ℕ)
          → n ≤ k
          → Finished (run default_rng k io accepted c agent_counter (made default_rng c bridge)))
  unfolding run begun
  run-Finished io = run_from-Finished io begun begun-Started

  module _ {IsTime : F → Type 0} (times : IsTimes fl IsTime) (least : PopsLeast hq IsTime)
      (steps : (n : ℕ) → IsTime (of_int (pos n) ⊗ (made default_rng c bridge).dt))
      (half_step : IsTime ((made default_rng c bridge).dt ⊗ literal 5 1)) where
    begun-Timely :
        (s : Simulator F S) (k : ℕ)
        → start_run default_rng accepted c agent_counter (made default_rng c bridge) ≡ some (s, k)
        → Timely IsTime s
    begun-Timely s k e =
        let spans : AreTimes IsTime IsTime (made default_rng c bridge).dt = record {
          steps = steps;
          delayed = λ a d. times.summed a d;
          halves = λ n. times.summed _ _ (steps n) half_step;
        } in
        let w =
          Every-some (λ (r : Simulator F S × ℕ). Started IsTime c r.0)
            (start_run default_rng accepted c agent_counter (made default_rng c bridge)) (s, k)
            (start_run-Started law default_rng IsTime IsTime (delay_seconds-IsTime times) c bridge
              spans accepted agent_counter)
            e in
        record {
          heap = w.heap;
          now = subst IsTime (sym w.clock) times.zero;
          stamped = w.stamped;
          ahead =
              subst (λ t. NotBefore t s.event_queue) (sym w.clock)
                (All-map (At IsTime) (λ x. lt x.timestamp (of_int (pos 0)) ≡ false) s.event_queue
                  (λ x h. times.nonneg x.timestamp h) w.stamped);
        }

    -- Where `heapq` does what its documentation says, floats that are not negative are ordered and
    -- add up monotonically, and the steps are such floats: from any point of a run to any later
    -- one, whatever the outside does, the clock does not go back, and no event that is still queued
    -- is before the clock.
    pub run-Forward :
        (s t u : Simulator F S) (k : ℕ)
        → start_run default_rng accepted c agent_counter (made default_rng c bridge) ≡ some (s, k)
        → Rounds s t
        → Rounds t u
        → (lt u.current_time t.current_time ≡ false) × NotBefore u.current_time u.event_queue
    run-Forward s t u k e rs rs' =
        let w = Rounds-Timely times law least s t (begun-Timely s k e) rs in
        let v = Rounds-Timely times law least t u w.0 rs' in (v.1, v.0.ahead)
