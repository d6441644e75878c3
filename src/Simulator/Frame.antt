-- ===== src/Simulator/Frame.antt =====
-- What leaves the clock, the queue of events, the counters and the agents' ids of a simulator
-- (simulation/simulator.py) as they were.
pub mod Incoming
pub mod Trading
pub mod Acting
use liquidity_arena.Prelude.{
  ◌≡◌, refl, ap, ◌∙◌, true, Option, some, List, [], ◌∷◌, arith, Bool-cases, inl, inr,
}
use liquidity_arena.Wire.Messages.{BookUpdateMsg}
use liquidity_arena.Wire.Client.{Client}
use liquidity_arena.Metrics.{MetricsEngine}
use liquidity_arena.Simulator.Traders.{
  AgentId, same_id, Trader, lookup_id, insert_id, ids, map_values,
}
use liquidity_arena.Simulator.State.{Simulator, Notice}
use liquidity_arena.Price.Process.{PriceProcess}
use liquidity_arena.Prelude.Int.{ℤ}

pub record Frame {F S : Type 0} (s s' : Simulator F S) : Type 0 where
  pub dt : s'.dt ≡ s.dt
  pub running : s'.running ≡ s.running
  pub clock : s'.current_time ≡ s.current_time
  pub queue : s'.event_queue ≡ s.event_queue
  pub hawkes : s'.hawkes ≡ s.hawkes
  pub latencies : s'.agent_latencies ≡ s.agent_latencies
  pub steps : s'.step_count ≡ s.step_count
  pub total : s'.total_steps ≡ s.total_steps
  pub members : ids s'.agents ≡ ids s.agents
  pub history : s'.metrics.pnl_history ≡ s.metrics.pnl_history

module _ {F S : Type 0} where
  pub Frame-refl : (s : Simulator F S) → Frame s s
  Frame-refl s = record {
    dt = refl;
    running = refl;
    clock = refl;
    queue = refl;
    hawkes = refl;
    latencies = refl;
    steps = refl;
    total = refl;
    members = refl;
    history = refl;
  }

  pub Frame-trans : {s t u : Simulator F S} → Frame s t → Frame t u → Frame s u
  Frame-trans f g = record {
    dt = g.dt ∙ f.dt;
    running = g.running ∙ f.running;
    clock = g.clock ∙ f.clock;
    queue = g.queue ∙ f.queue;
    hawkes = g.hawkes ∙ f.hawkes;
    latencies = g.latencies ∙ f.latencies;
    steps = g.steps ∙ f.steps;
    total = g.total ∙ f.total;
    members = g.members ∙ f.members;
    history = g.history ∙ f.history;
  }

  -- What is left of a simulator where some of its attributes are others.
  pub Frame-of :
      (s : Simulator F S) {c : Option Client} {w : Option (List (Notice F))} {p : PriceProcess F S}
      {m : MetricsEngine F} {agents' : List (AgentId × Trader F S)} {mid : ℤ}
      {b : Option BookUpdateMsg}
      → ids agents' ≡ ids s.agents
      → m.pnl_history ≡ s.metrics.pnl_history
      → Frame s (record s {
        tcp_client = c;
        ws_bridge = w;
        price_process = p;
        metrics = m;
        agents = agents';
        current_mid = mid;
        last_book_update = b;
      })
  Frame-of s e h = record {
    dt = refl;
    running = refl;
    clock = refl;
    queue = refl;
    hawkes = refl;
    latencies = refl;
    steps = refl;
    total = refl;
    members = e;
    history = h;
  }

pub ids-map_values :
    {A : Type 0} (f : A → A) (d : List (AgentId × A)) → ids (map_values f d) ≡ ids d
ids-map_values f [] = refl
ids-map_values f ((i, a) ∷ d) = ap (λ t. i ∷ t) (ids-map_values f d)

pub ids-insert_id :
    {A : Type 0} (i : AgentId) (a b : A) (d : List (AgentId × A))
    → lookup_id i d ≡ some b
    → ids (insert_id i a d) ≡ ids d
ids-insert_id i a b [] h = absurd (ground arith)
ids-insert_id i a b ((j, c) ∷ d) h = elim (Bool-cases (same_id i j)) [
  | inl e ↦ rw e refl
  | inr e ↦ rw e (ap (λ t. j ∷ t) (ids-insert_id i a b d (rw e at h)))
]

same_id_self : (i : AgentId) → same_id i i ≡ true
same_id_self AgentId.mm = refl
same_id_self (AgentId.noise n) = ground arith
same_id_self _ = refl

pub lookup_id-insert_id :
    {A : Type 0} (i : AgentId) (a : A) (d : List (AgentId × A))
    → lookup_id i (insert_id i a d) ≡ some a
lookup_id-insert_id i a [] = rw (same_id_self i) refl
lookup_id-insert_id i a ((j, c) ∷ d) = elim (Bool-cases (same_id i j)) [
  | inl e ↦ rw (e, e) refl
  | inr e ↦ rw (e, e) (lookup_id-insert_id i a d)
]
