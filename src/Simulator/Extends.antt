-- ===== src/Simulator/Extends.antt =====
-- What scheduling does to the simulator of simulation/simulator.py: events are pushed, and nothing else
-- changes but the generators of the latencies.
use mathlib.Core.List.Permᴰ
use liquidity_arena.Prelude.{
  ℕ, zero, suc, ◌+◌, ◌≡◌, refl, sym, ap, ◌∙◌, Option, none, some, List, [], ◌∷◌, ◌++◌, ◌>>=◌, All,
  length, length-append, All-append, arith,
}
use liquidity_arena.Prelude.Results.{Every, Every-bind, Every-chain, Every-mono}
use liquidity_arena.Numeric.{Float, ◌⊕◌, Rng}
use liquidity_arena.Price.Hawkes.{HawkesProcess}
use liquidity_arena.Simulator.Traders.{AgentId, Trader, Delay, lookup_id, insert_id, delay_seconds}
use liquidity_arena.Simulator.Events.{EventType, Event, count_of, Heapq, Heap}
use liquidity_arena.Simulator.Queue.{IsHeapq, All-perm, count_of-perm}
use liquidity_arena.Simulator.State.{Simulator}
use liquidity_arena.Simulator.Loop.{
  action_at, schedule, schedule_action, schedule_actions, add_extra,
}

module _ {F : Type 0} ⦃hq : Heapq F⦄ where
  abbrev pub push_all : List (Event F) → List (Event F) → List (Event F)
  push_all [] q = q
  push_all (e ∷ es) q = push_all es (hq.heappush e q)

  pub push_all-append :
      (es fs q : List (Event F)) → push_all (es ++ fs) q ≡ push_all fs (push_all es q)
  push_all-append [] fs q = refl
  push_all-append (e ∷ es) fs q = push_all-append es fs (hq.heappush e q)

  pub push_all-Heap : (es q : List (Event F)) → Heap hq q → Heap hq (push_all es q)
  push_all-Heap [] q h = h
  push_all-Heap (e ∷ es) q h = push_all-Heap es (hq.heappush e q) (Heap.pushed e _ q h refl)

  module _ (law : IsHeapq hq) where
    pub count_of-push_all :
        (t : EventType) (es q : List (Event F))
        → Heap hq q
        → count_of t (push_all es q) ≡ count_of t es + count_of t q
    count_of-push_all t [] q h = omega arith
    count_of-push_all t (e ∷ es) q h = omega (
      arith,
      count_of-push_all t es (hq.heappush e q) (Heap.pushed e _ q h refl),
      count_of-perm t (law.push_perm e q h),
    )

    pub All-push_all :
        (P : Event F → Type 0) (es q : List (Event F))
        → Heap hq q
        → All P es
        → All P q
        → All P (push_all es q)
    All-push_all P [] q h k l = l
    All-push_all P (e ∷ es) q h k l =
        All-push_all P es (hq.heappush e q) (Heap.pushed e _ q h refl) k.1
          (All-perm P (Permᴰ.symm (law.push_perm e q h)) (k.0, l))

-- An action that is delayed by one of the delays of a kind.
abbrev pub ActionAfter : {F : Type 0} ⦃fl : Float F⦄ → (F → Type 0) → F → Event F → Type 0
ActionAfter {F = F} P t e = (d : F) × (i : AgentId) × (e ≡ action_at (t ⊕ d) i) × P d

pub record Extends {F S : Type 0} ⦃hq : Heapq F⦄ (added : List (Event F)) (s s' : Simulator F S)
    : Type 0 where
  pub queue : s'.event_queue ≡ push_all added s.event_queue
  pub dt : s'.dt ≡ s.dt
  pub running : s'.running ≡ s.running
  pub clock : s'.current_time ≡ s.current_time
  pub steps : s'.step_count ≡ s.step_count
  pub total : s'.total_steps ≡ s.total_steps
  pub agents : s'.agents ≡ s.agents
  pub metrics : s'.metrics ≡ s.metrics

module _ {F S : Type 0} ⦃hq : Heapq F⦄ where
  pub Extends-refl : (s : Simulator F S) → Extends [] s s
  Extends-refl s = record {
    queue = refl;
    dt = refl;
    running = refl;
    clock = refl;
    steps = refl;
    total = refl;
    agents = refl;
    metrics = refl;
  }

  pub Extends-trans :
      {es fs : List (Event F)} {s t u : Simulator F S}
      → Extends es s t
      → Extends fs t u
      → Extends (es ++ fs) s u
  Extends-trans {es = es} {fs = fs} {s = s} a b = record {
    queue = b.queue ∙ ap (push_all fs) a.queue ∙ sym (push_all-append es fs s.event_queue);
    dt = b.dt ∙ a.dt;
    running = b.running ∙ a.running;
    clock = b.clock ∙ a.clock;
    steps = b.steps ∙ a.steps;
    total = b.total ∙ a.total;
    agents = b.agents ∙ a.agents;
    metrics = b.metrics ∙ a.metrics;
  }

  -- One event is pushed.
  pub Extends-schedule : (e : Event F) (s : Simulator F S) → Extends (e ∷ []) s (schedule e s)
  Extends-schedule e s = record {
    queue = refl;
    dt = refl;
    running = refl;
    clock = refl;
    steps = refl;
    total = refl;
    agents = refl;
    metrics = refl;
  }

  Extends-delayed :
      (e : Event F) (ls : List (AgentId × Delay F S)) (s : Simulator F S)
      → Extends (e ∷ []) s (schedule e (record s { agent_latencies = ls }))
  Extends-delayed e ls s = record {
    queue = refl;
    dt = refl;
    running = refl;
    clock = refl;
    steps = refl;
    total = refl;
    agents = refl;
    metrics = refl;
  }

  pub Extends-of :
      {es : List (Event F)} {s s' : Simulator F S} (h : Option (HawkesProcess F S))
      → Extends es (record s { hawkes = h }) s'
      → Extends es s s'
  Extends-of h e = record {
    queue = e.queue;
    dt = e.dt;
    running = e.running;
    clock = e.clock;
    steps = e.steps;
    total = e.total;
    agents = e.agents;
    metrics = e.metrics;
  }

  -- Events of which each satisfies Q are pushed, n of them.
  abbrev pub Adds : (Event F → Type 0) → ℕ → Simulator F S → Simulator F S → Type 0
  Adds Q n s s' = (added : List (Event F)) × Extends added s s' × All Q added × (length added ≡ n)

  pub Adds-trans :
      (Q : Event F → Type 0) (m n k : ℕ) {s t u : Simulator F S}
      → m + n ≡ k
      → Adds Q m s t
      → Adds Q n t u
      → Adds Q k s u
  Adds-trans Q m n k h (es, e, qe, le) (fs, f, qf, lf) =
      (es ++ fs, Extends-trans e f, All-append Q es fs qe qf, length-append es fs ∙ omega arith)

module _ {F S : Type 0} ⦃fl : Float F⦄ ⦃hq : Heapq F⦄ where
  -- Some actions are pushed, each after one of the delays of a kind.
  abbrev pub AddsSome : (F → Type 0) → F → Simulator F S → Simulator F S → Type 0
  AddsSome P t s s' = (n : ℕ) × Adds (ActionAfter P t) n s s'

module _ {F S : Type 0} ⦃fl : Float F⦄ ⦃g : Rng F S⦄ ⦃hq : Heapq F⦄ (P : F → Type 0)
    (delays : (d : Delay F S) → Every (λ r. P r.0) (delay_seconds d)) where
  pub schedule_action-Adds :
      (t : F) (i : AgentId) (s : Simulator F S)
      → Every (Adds (ActionAfter P t) 1 s) (schedule_action t i s)
  unfolding schedule_action
  schedule_action-Adds t i s =
      Every-bind (Adds (ActionAfter P t) 1 s) (lookup_id i s.agent_latencies) _ (λ d.
        Every-chain (λ r. P r.0) (Adds (ActionAfter P t) 1 s) (delay_seconds d) _ (delays d)
          (λ r h. (
            action_at (t ⊕ r.0) i ∷ [],
            Extends-delayed (action_at (t ⊕ r.0) i) (insert_id i r.1 s.agent_latencies) s,
            ((r.0, i, refl, h), tt),
            refl,
          )))

  pub schedule_actions-Adds :
      (t : F) (d : List (AgentId × Trader F S)) (s : Simulator F S)
      → Every (Adds (ActionAfter P t) (length d) s) (schedule_actions t d s)
  unfolding schedule_actions
  schedule_actions-Adds t [] s = ([], Extends-refl s, tt, refl)
  schedule_actions-Adds t ((i, a) ∷ d) s =
      Every-chain (Adds (ActionAfter P t) 1 s) (Adds (ActionAfter P t) (suc (length d)) s)
        (schedule_action t i s) _ (schedule_action-Adds t i s)
        (λ s' h.
          Every-mono (Adds (ActionAfter P t) (length d) s')
            (Adds (ActionAfter P t) (suc (length d)) s) (schedule_actions t d s')
            (λ u k. Adds-trans (ActionAfter P t) 1 (length d) (suc (length d)) (omega arith) h k)
            (schedule_actions-Adds t d s'))

  pub add_extra-AddsSome :
      (n : ℕ) (t : F) (s : Simulator F S) → Every (AddsSome P t s) (add_extra n t s)
  unfolding add_extra
  add_extra-AddsSome zero t s = (0, ([], Extends-refl s, tt, refl))
  add_extra-AddsSome (suc n) t s =
      let one = schedule_action-Adds t (AgentId.noise 0) s in
      let some_more : (s' : Simulator F S)
          → Adds (ActionAfter P t) 1 s s'
          → Every (AddsSome P t s) (add_extra n t s') =
        λ s' h.
          Every-mono (AddsSome P t s') (AddsSome P t s) (add_extra n t s')
            (λ u k. (1 + k.0, Adds-trans (ActionAfter P t) 1 k.0 (1 + k.0) refl h k.1))
            (add_extra-AddsSome n t s') in
      elim (lookup_id (AgentId.noise 0) s.agents)
        as (λ o. Every (AddsSome P t s) (elim o [
          | none ↦ add_extra n t s
          | some agent ↦ schedule_action t (AgentId.noise 0) s >>= add_extra n t
        ])) [
          | none ↦ add_extra-AddsSome n t s
          | some a ↦
              Every-chain (Adds (ActionAfter P t) 1 s) (AddsSome P t s)
                (schedule_action t (AgentId.noise 0) s) (add_extra n t) one some_more
        ]
