-- ===== src/Simulator/Rounds.antt =====
-- The rounds of the simulator's loop as a relation, and what they keep: every move of the price and every
-- sample that is scheduled is processed once (simulation/simulator.py).
use liquidity_arena.Prelude.{
  ℕ, zero, suc, ◌+◌, ◌≡◌, refl, sym, ap, subst, ◌∙◌, true, false, some, length, arith, Bool-cases,
  Option-cases, inl, inr,
}
use liquidity_arena.Prelude.Results.{Every-some}
use liquidity_arena.Numeric.{Float, Numpy, Rng, Sampler}
use liquidity_arena.Simulator.Traders.{AgentId, ids}
use liquidity_arena.Simulator.Events.{EventType, count_of, Heapq, Heap}
use liquidity_arena.Simulator.Queue.{IsHeapq, count_of-perm}
use liquidity_arena.Simulator.State.{Simulator}
use liquidity_arena.Simulator.Extends.{push_all-Heap, count_of-push_all}
use liquidity_arena.Simulator.Effect.{is_in, one_if}
use liquidity_arena.Simulator.Round.{RoundEffect, round-RoundEffect}
use liquidity_arena.Simulator.Ending.{Any, delay_seconds-Any, count_of-ActionAfter}
use liquidity_arena.Simulator.Finishing.{ended-injective}
use liquidity_arena.Simulator.Loop.{
  Inputs, ended, round, goes_on, proceed, main_loop, main_loop-stop, main_loop-go,
}

module _ {F S : Type 0} ⦃fl : Float F⦄ ⦃np : Numpy F⦄ ⦃g : Rng F S⦄ ⦃sp : Sampler F S⦄
    ⦃hq : Heapq F⦄ where
  -- The second simulator comes of the first by rounds of the loop, with any inputs.
  pub data Rounds (s : Simulator F S) : Simulator F S → Type 0 where
    here : Rounds s s
    next :
        {t u : Simulator F S} (io : Inputs)
        → Rounds s t
        → goes_on t ≡ true
        → round io t ≡ some u
        → Rounds s u

  Rounds-first :
      {s t u : Simulator F S} (io : Inputs)
      → goes_on s ≡ true
      → round io s ≡ some t
      → Rounds t u
      → Rounds s u
  Rounds-first io h e here = next io here h e
  Rounds-first io h e (next io' r h' e') = next io' (Rounds-first io h e r) h' e'

  -- A loop that has ended has come there by rounds, and does not go on there.
  pub main_loop-Rounds :
      (n : ℕ) (io : ℕ → Inputs) (s u : Simulator F S)
      → main_loop n io s ≡ ended u
      → Rounds s u × (goes_on u ≡ false)
  unfolding main_loop
  main_loop-Rounds zero io s u e = absurd (ground arith)
  main_loop-Rounds (suc n) io s u e = elim (Bool-cases (goes_on s)) [
    | inr stop ↦
        subst (λ v. Rounds s v × (goes_on v ≡ false))
          (ended-injective (sym (main_loop-stop n io s stop) ∙ e)) (here, stop)
    | inl go ↦ elim (Option-cases (round (io 0) s)) [
      | inl h ↦ absurd (cc (sym (main_loop-go n io s go) ∙ e, h))
      | inr (s', h) ↦
          let (r, stop) =
            main_loop-Rounds n (λ k. io (suc k)) s' u
              (sym (main_loop-go n io s go ∙ ap (λ r. proceed r (main_loop n (λ k. io (suc k)))) h)
                ∙ e) in
          (Rounds-first (io 0) go h r, stop)
    ]
  ]

  pub record Conserved (s u : Simulator F S) : Type 0 where
    pub heap : Heap hq u.event_queue
    pub moves :
        u.step_count + count_of EventType.midprice_move u.event_queue
        ≡ s.step_count + count_of EventType.midprice_move s.event_queue
    pub samples :
        is_in AgentId.mm (ids s.agents) ≡ true
        → length u.metrics.pnl_history + count_of EventType.metrics_sample u.event_queue
          ≡ length s.metrics.pnl_history + count_of EventType.metrics_sample s.event_queue
    pub members : ids u.agents ≡ ids s.agents
    pub total : u.total_steps ≡ s.total_steps

  module _ (law : IsHeapq hq) where
    counted :
        (t : EventType) (io : Inputs) (s u : Simulator F S)
        → one_if t EventType.agent_action ≡ 0
        → Heap hq s.event_queue
        → (r : RoundEffect Any io s u)
        → one_if t r.event.event_type + count_of t u.event_queue ≡ count_of t s.event_queue
    counted t io s u h heap r =
        let rest_heap = Heap.popped r.event s.event_queue r.rest heap r.pop in
        omega (
          arith,
          ap (count_of t) r.queue,
          count_of-push_all law t r.added r.rest rest_heap,
          count_of-ActionAfter Any t r.event.timestamp r.added h r.each,
          count_of-perm t (law.pop_perm s.event_queue r.rest r.event heap r.pop),
        )

    pub Rounds-Conserved :
        {s u : Simulator F S} → Heap hq s.event_queue → Rounds s u → Conserved s u
    Rounds-Conserved heap here = record {
      heap = heap;
      moves = refl;
      samples = λ h. refl;
      members = refl;
      total = refl;
    }
    Rounds-Conserved {s} heap (next {t} {u} io rs go e) =
        let c = Rounds-Conserved heap rs in
        let r =
          Every-some (RoundEffect Any io t) (round io t) u
            (round-RoundEffect Any delay_seconds-Any io t) e in
        record {
          heap = subst (Heap hq) (sym r.queue) (
              push_all-Heap r.added r.rest (Heap.popped r.event t.event_queue r.rest c.heap r.pop));
          moves =
              omega (arith, c.moves, r.steps, counted EventType.midprice_move io t u refl c.heap r);
          samples = λ h. omega (
            arith,
            c.samples h,
            r.samples (ap (is_in AgentId.mm) c.members ∙ h),
            counted EventType.metrics_sample io t u refl c.heap r,
          );
          members = r.members ∙ c.members;
          total = r.total ∙ c.total;
        }
