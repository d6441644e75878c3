-- ===== src/Simulator/Started.antt =====
-- A run up to its loop (`run` of simulation/simulator.py): what is scheduled, and for whom.
use liquidity_arena.Prelude.{
  ℕ, ◌*◌, ◌≡◌, refl, sym, ap, subst, ◌∙◌, Bool, Option, some, List, [], All, length, arith,
}
use liquidity_arena.Prelude.Int.{pos}
use liquidity_arena.Prelude.Results.{Every, Every-bind, Every-chain}
use liquidity_arena.Numeric.{Float, of_int, Rng}
use liquidity_arena.Simulator.Traders.{Delay, ids, delay_seconds}
use liquidity_arena.Simulator.Events.{EventType, count_of, Heapq, Heap}
use liquidity_arena.Simulator.Queue.{IsHeapq}
use liquidity_arena.Simulator.State.{Simulator, Notice}
use liquidity_arena.Simulator.Extends.{push_all, push_all-Heap, count_of-push_all, All-push_all}
use liquidity_arena.Simulator.Schedule.{At, AreTimes, samples_in, Planned, schedule_steps-Planned}
use liquidity_arena.Simulator.Config.{get_or, Config}
use liquidity_arena.Simulator.Setup.{new_simulator, create_agents}
use liquidity_arena.Simulator.Members.{all_ids, Made}
use liquidity_arena.Simulator.Members.Creating.{create_agents-Made}
use liquidity_arena.Simulator.Loop.{schedule_initial_events}
use liquidity_arena.Simulator.Run.{connect_engine, initial_book, create_hawkes, start_run}

module _ {F S : Type 0} ⦃fl : Float F⦄ ⦃hq : Heapq F⦄ where
  -- The simulator as the loop of a run begins.
  pub record Started (T : F → Type 0) (c : Config F) (s : Simulator F S) : Type 0 where
    pub heap : Heap hq s.event_queue
    pub stamped : All (At T) s.event_queue
    pub moves : count_of EventType.midprice_move s.event_queue ≡ c.steps
    pub actions : count_of EventType.agent_action s.event_queue ≡ c.steps * length s.agents
    pub samples : count_of EventType.metrics_sample s.event_queue ≡ samples_in c.steps
    pub members : ids s.agents ≡ all_ids (get_or 3 c.agents.num_noise)
    pub clock : s.current_time ≡ of_int (pos 0)
    pub steps : s.step_count ≡ 0
    pub history : s.metrics.pnl_history ≡ []

module _ {F S : Type 0} ⦃fl : Float F⦄ (default_rng : ℕ → S) where
  -- A simulator that has been made, with a bridge to the frontend or without one.
  abbrev pub made : Config F → Option (List (Notice F)) → Simulator F S
  made c bridge = record (new_simulator default_rng c) { ws_bridge = bridge }

module _ {F S : Type 0} ⦃fl : Float F⦄ ⦃g : Rng F S⦄ ⦃hq : Heapq F⦄ (law : IsHeapq hq)
    (default_rng : ℕ → S) (P T : F → Type 0)
    (delays : (d : Delay F S) → Every (λ r. P r.0) (delay_seconds d)) (c : Config F)
    (bridge : Option (List (Notice F))) where
  pub start_run-Started :
      (times : AreTimes P T (made default_rng c bridge).dt) (accepted : Bool) (k : ℕ)
      → Every
          (λ r. Started T c r.0)
          (start_run default_rng accepted c k (made default_rng c bridge))
  unfolding start_run new_simulator
  start_run-Started times accepted k =
      let s = made default_rng c bridge in
      Every-chain (λ (r : Simulator F S × ℕ). Made k (all_ids (get_or 3 c.agents.num_noise)) s r.0)
        (λ r. Started T c r.0) (create_agents default_rng c.agents k s) _
        (create_agents-Made default_rng c.agents k s refl refl)
        (λ r m.
          Every-bind (λ r. Started T c r.0) (create_hawkes default_rng c.order_flow) _
            (λ h.
              let s₂ = record r.0 {
                hawkes = h;
                tcp_client = connect_engine accepted;
                last_book_update = some (initial_book r.0.current_mid);
              } in
              Every-chain (Planned P delays T s.dt times s₂.total_steps 0 s₂) (λ r. Started T c r.0)
                (schedule_initial_events s₂) _
                (schedule_steps-Planned P delays T s.dt times s₂.total_steps 0 s₂
                  (ap (λ x. x.dt) m.rest))
                (λ s₃ p.
                  let (n, hn, (added, e, stamped, moves, actions, samples)) = p in
                  let empty = ap (λ x. x.event_queue) m.rest in
                  let queue = e.queue ∙ ap (push_all added) empty in
                  let total = ap (λ x. x.total_steps) m.rest in
                  let counted = λ (t : EventType).
                    ap (count_of t) queue ∙ count_of-push_all law t added [] Heap.empty in
                  record {
                    heap = subst (Heap hq) (sym queue) (push_all-Heap added [] Heap.empty);
                    stamped =
                        subst (All (At T)) (sym queue)
                          (All-push_all law (At T) added [] Heap.empty stamped tt);
                    moves = omega (arith, counted EventType.midprice_move, moves, total);
                    actions = omega (
                      arith,
                      counted EventType.agent_action,
                      actions,
                      ap (λ m. m * length r.0.agents) total,
                      ap (λ d. c.steps * length d) e.agents,
                    );
                    samples = omega (arith, counted EventType.metrics_sample, samples, hn, total);
                    members = ap ids e.agents ∙ m.members;
                    clock = e.clock ∙ ap (λ x. x.current_time) m.rest;
                    steps = e.steps ∙ ap (λ x. x.step_count) m.rest;
                    history =
                        ap (λ x. x.pnl_history) e.metrics ∙ ap (λ x. x.metrics.pnl_history) m.rest;
                  })))
