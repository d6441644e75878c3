-- ===== src/Simulator/Members/Configured.antt =====
-- How `_create_agents` of simulation/simulator.py configures the agents and their latencies.
use liquidity_arena.Prelude.{
  ℕ, zero, suc, ◌+◌, ◌≡◌, refl, subst, sym, Option, none, some, true, List, [], ◌∷◌, All, arith,
  Bool-cases, inl, inr,
}
use liquidity_arena.Prelude.Results.{Every, Every-bind_of, Every-chain}
use liquidity_arena.Prelude.Int.{ℤ, pos, ◌+ℤ◌}
use liquidity_arena.Numeric.{Float, of_int, literal}
use liquidity_arena.Latency.{LatencyModel}
use liquidity_arena.Agents.Human.{new_human}
use liquidity_arena.Agents.Noise.{new_noise}
use liquidity_arena.Agents.Informed.{new_informed}
use liquidity_arena.Agents.LatencyArb.{new_arb}
use liquidity_arena.Agents.Momentum.{MomentumTrader, new_momentum}
use liquidity_arena.Agents.MarketMaker.{new_maker}
use liquidity_arena.Simulator.Traders.{
  AgentId, same_id, Trader, Delay, insert_id, maker, noise_trader, informed_trader, momentum_trader,
  arbitrageur, player, zero_latency, model,
}
use liquidity_arena.Simulator.State.{Simulator}
use liquidity_arena.Simulator.Config.{get_or, AgentsConfig}
use liquidity_arena.Simulator.Setup.{
  Entry, add_agent, make_maker, make_noise, add_noise, make_informed, make_momentum, make_arb,
  make_human, create_agents,
}
use liquidity_arena.Simulator.Members.{all_ids, Made}
use liquidity_arena.Simulator.Members.Creating.{create_agents-Made}

module _ {F S : Type 0} ⦃fl : Float F⦄ (default_rng : ℕ → S) (ac : AgentsConfig F) where
  -- The agent of an id is of the id's kind, and has the configured parameters or their defaults.
  abbrev pub IsConfigured : AgentId × Trader F S → Type 0
  IsConfigured (AgentId.mm, maker t) =
      (t.gamma ≡ get_or (literal 1 1) ac.market_maker.gamma)
      × (t.kappa ≡ get_or (literal 15 1) ac.market_maker.kappa)
      × (t.max_inventory ≡ get_or (pos 500) ac.market_maker.inventory_limit)
      × (t.num_levels ≡ get_or (pos 3) ac.market_maker.levels)
      × (t.level_spacing ≡ get_or (pos 5) ac.market_maker.level_spacing)
      × (t.base_quantity ≡ get_or (pos 100) ac.market_maker.base_qty)
      × (t.total_steps ≡ pos 10000)
  IsConfigured (AgentId.noise i, noise_trader t) =
      (t.order_prob ≡ get_or (literal 3 1) ac.noise_trader.order_prob)
      × (t.spread_range ≡ get_or (pos 20) ac.noise_trader.spread_range)
      × (t.min_qty ≡ get_or (pos 10) ac.noise_trader.min_qty)
      × (t.max_qty ≡ get_or (pos 100) ac.noise_trader.max_qty)
      × (t.market_order_prob ≡ get_or (literal 5 2) ac.noise_trader.market_order_prob)
      × (t.rng ≡ default_rng (42 + i))
  IsConfigured (AgentId.informed, informed_trader t) =
      (t.threshold ≡ get_or (pos 15) ac.informed_trader.threshold)
      × (t.aggression ≡ get_or (literal 8 1) ac.informed_trader.aggression)
      × (t.min_qty ≡ get_or (pos 50) ac.informed_trader.min_qty)
      × (t.max_qty ≡ get_or (pos 200) ac.informed_trader.max_qty)
      × (t.rng ≡ default_rng 100)
  IsConfigured (AgentId.momentum, momentum_trader t) =
      (fl.div (of_int (pos 2)) (of_int (get_or (pos 10) ac.momentum_trader.fast_period +ℤ pos 1))
        ≡ some t.fast_alpha)
      × (fl.div (of_int (pos 2)) (of_int (get_or (pos 50) ac.momentum_trader.slow_period +ℤ pos 1))
          ≡ some t.slow_alpha)
      × (t.trade_prob ≡ get_or (literal 3 1) ac.momentum_trader.trade_prob)
      × (t.min_qty ≡ get_or (pos 20) ac.momentum_trader.min_qty)
      × (t.max_qty ≡ get_or (pos 80) ac.momentum_trader.max_qty)
      × (t.rng ≡ default_rng 200)
  IsConfigured (AgentId.lat_arb, arbitrageur t) =
      (t.threshold ≡ get_or (pos 5) ac.latency_arb.threshold)
      × (t.max_position ≡ get_or (pos 50) ac.latency_arb.max_position)
      × (t.trade_prob ≡ get_or (literal 9 1) ac.latency_arb.trade_prob)
      × (t.min_qty ≡ pos 10)
      × (t.max_qty ≡ pos 50)
      × (t.rng ≡ default_rng 300)
  IsConfigured (AgentId.human, player t) = (t.pending_orders ≡ []) × (t.last_book ≡ none)
  IsConfigured _ = ⊥

  -- A base delay and a jitter in microseconds, a spike to ten times the delay once in a thousand,
  -- and a seed.
  abbrev pub Delays : (base jitter : ℤ) (seed : ℕ) → LatencyModel F S → Type 0
  Delays base jitter seed m =
      (m.config.base_us ≡ of_int base)
      × (m.config.jitter_us ≡ of_int jitter)
      × (m.config.spike_prob ≡ literal 1 3)
      × (m.config.spike_factor ≡ of_int (pos 10))
      × (m.rng ≡ default_rng seed)

  abbrev pub IsDelayed : AgentId × Delay F S → Type 0
  IsDelayed (AgentId.mm, model m) = Delays (pos 200) (pos 50) 42 m
  IsDelayed (AgentId.noise i, model m) = Delays (pos 1000) (pos 300) (42 + i) m
  IsDelayed (AgentId.informed, model m) = Delays (pos 500) (pos 100) 100 m
  IsDelayed (AgentId.momentum, model m) = Delays (pos 1000) (pos 300) 200 m
  IsDelayed (AgentId.lat_arb, model m) = Delays (pos 50) (pos 10) 300 m
  IsDelayed (AgentId.human, zero_latency) = Unit
  IsDelayed _ = ⊥

same_id-eq : (i j : AgentId) → same_id i j ≡ true → i ≡ j
same_id-eq i j e = ground arith

All-insert_id :
    {A : Type 0} (P : AgentId × A → Type 0) (i : AgentId) (a : A) (d : List (AgentId × A))
    → P (i, a)
    → All P d
    → All P (insert_id i a d)
All-insert_id P i a [] p h = (p, tt)
All-insert_id P i a ((j, b) ∷ d) p h = elim (Bool-cases (same_id i j)) [
  | inl e ↦ rw e (subst (λ x. P (x, a)) (same_id-eq i j e) p, h.1)
  | inr e ↦ rw e (h.0, All-insert_id P i a d p h.1)
]

Every-and :
    {A : Type 0} (P Q : A → Type 0) (r : Option A)
    → Every P r
    → Every Q r
    → Every (λ a. P a × Q a) r
Every-and P Q none p q = tt
Every-and P Q (some a) p q = (p, q)

module _ {F S : Type 0} ⦃fl : Float F⦄ (default_rng : ℕ → S) (ac : AgentsConfig F) where
  abbrev EntryFits : Entry F S → Type 0
  EntryFits (i, t, d) = IsConfigured default_rng ac (i, t) × IsDelayed default_rng ac (i, d)

  -- All agents and all latencies are as configured.
  abbrev pub AllFit : Simulator F S → Type 0
  AllFit s =
      All (IsConfigured default_rng ac) s.agents × All (IsDelayed default_rng ac) s.agent_latencies

  add_agent-AllFit :
      (e : Entry F S) (s : Simulator F S) → EntryFits e → AllFit s → AllFit (add_agent e s)
  unfolding add_agent
  add_agent-AllFit (i, t, d) s (p, q) (h, k) = (
    All-insert_id (IsConfigured default_rng ac) i t s.agents p h,
    All-insert_id (IsDelayed default_rng ac) i d s.agent_latencies q k,
  )

  make_maker-Fits : (k : ℕ) → EntryFits (make_maker default_rng ac.market_maker k).0
  unfolding make_maker new_maker
  make_maker-Fits k = ((refl, refl, refl, refl, refl, refl, refl), (refl, refl, refl, refl, refl))

  make_noise-Fits : (i k : ℕ) → EntryFits (make_noise default_rng i ac.noise_trader k).0
  unfolding make_noise new_noise
  make_noise-Fits i k = ((refl, refl, refl, refl, refl, refl), (refl, refl, refl, refl, refl))

  make_informed-Fits : (k : ℕ) → EntryFits (make_informed default_rng ac k).0
  unfolding make_informed new_informed
  make_informed-Fits k = ((refl, refl, refl, refl, refl), (refl, refl, refl, refl, refl))

  abbrev Steady : MomentumTrader F S × ℕ → Type 0
  Steady r = IsConfigured default_rng ac (AgentId.momentum, momentum_trader r.0)

  new_momentum-Steady :
      (k : ℕ)
      → let c = ac.momentum_trader in
        Every Steady (
          new_momentum k
            (literal 1 2)
            (get_or (pos 10) c.fast_period)
            (get_or (pos 50) c.slow_period)
            (get_or (literal 3 1) c.trade_prob)
            (get_or (pos 20) c.min_qty)
            (get_or (pos 80) c.max_qty)
            (default_rng 200))
  unfolding new_momentum
  new_momentum-Steady k =
      let c = ac.momentum_trader in
      Every-bind_of Steady
        (fl.div (of_int (pos 2)) (of_int (get_or (pos 10) c.fast_period +ℤ pos 1))) _
        (λ fast ef.
          Every-bind_of Steady
            (fl.div (of_int (pos 2)) (of_int (get_or (pos 50) c.slow_period +ℤ pos 1))) _
            (λ slow es. (ef, es, refl, refl, refl, refl)))

  make_momentum-Fits : (k : ℕ) → Every (λ r. EntryFits r.0) (make_momentum default_rng ac k)
  unfolding make_momentum
  make_momentum-Fits k =
      let c = ac.momentum_trader in
      Every-chain Steady (λ (r : Entry F S × ℕ). EntryFits r.0)
        (new_momentum k (literal 1 2) (get_or (pos 10) c.fast_period)
          (get_or (pos 50) c.slow_period) (get_or (literal 3 1) c.trade_prob)
          (get_or (pos 20) c.min_qty) (get_or (pos 80) c.max_qty) (default_rng 200))
        _ (new_momentum-Steady k) (λ r h. (h, (refl, refl, refl, refl, refl)))

  make_arb-Fits : (k : ℕ) → EntryFits (make_arb default_rng ac k).0
  unfolding make_arb new_arb
  make_arb-Fits k = ((refl, refl, refl, refl, refl, refl), (refl, refl, refl, refl, refl))

  make_human-Fits : (k : ℕ) → EntryFits (make_human k).0
  unfolding make_human new_human
  make_human-Fits k = ((refl, refl), tt)

  add_noise-AllFit :
      (left i k : ℕ) (s : Simulator F S)
      → AllFit s
      → AllFit (add_noise default_rng left i ac.noise_trader k s).0
  unfolding add_noise
  add_noise-AllFit zero i k s h = h
  add_noise-AllFit (suc left) i k s h =
      let (e, k') = make_noise default_rng i ac.noise_trader k in
      add_noise-AllFit left (i + 1) k' (add_agent e s)
        (add_agent-AllFit e s (make_noise-Fits i k) h)

  create_agents-AllFit :
      (k : ℕ) (s : Simulator F S)
      → AllFit s
      → Every (λ r. AllFit r.0) (create_agents default_rng ac k s)
  unfolding create_agents
  create_agents-AllFit k s h =
      let (mm, n₁) = make_maker default_rng ac.market_maker k in
      let s₁ = add_agent mm s in
      let (s₂, n₂) = add_noise default_rng (get_or 3 ac.num_noise) 0 ac.noise_trader n₁ s₁ in
      let (informed', n₃) = make_informed default_rng ac n₂ in
      let h₁ = add_agent-AllFit mm s (make_maker-Fits k) h in
      let h₂ = add_noise-AllFit (get_or 3 ac.num_noise) 0 n₁ s₁ h₁ in
      let h₃ = add_agent-AllFit informed' s₂ (make_informed-Fits n₂) h₂ in
      Every-chain (λ r. EntryFits r.0) (λ (r : Simulator F S × ℕ). AllFit r.0)
        (make_momentum default_rng ac n₃) _ (make_momentum-Fits n₃)
        (λ (momentum', n₄) fits.
          let (arb', n₅) = make_arb default_rng ac n₄ in
          let s₄ = add_agent momentum' (add_agent informed' s₂) in
          let h₄ = add_agent-AllFit momentum' (add_agent informed' s₂) fits h₃ in
          let h₅ = add_agent-AllFit arb' s₄ (make_arb-Fits n₄) h₄ in
          add_agent-AllFit (make_human n₅).0 (add_agent arb' s₄) (make_human-Fits n₅) h₅)

  -- `_create_agents`, of a simulator without agents and latencies, unless it raises: it adds the
  -- market maker, the configured number of noise traders in order, an informed trader, a momentum
  -- trader, a latency arbitrageur and the human, each under its own id with a latency, and changes
  -- nothing else. Each is as `BaseAgent` makes it, from the next value of the class-level counter,
  -- in this order; the agent of each id is of that kind, with the parameters of the configuration
  -- or their defaults and the seed of that agent, and its latency has the base delay, the jitter and the seed of
  -- that kind; the human has none.
  pub create_agents-IsConfigured :
      (k : ℕ) (s : Simulator F S)
      → s.agents ≡ []
      → s.agent_latencies ≡ []
      → Every
          (λ r. Made k (all_ids (get_or 3 ac.num_noise)) s r.0 × AllFit r.0)
          (create_agents default_rng ac k s)
  create_agents-IsConfigured k s no_agents no_delays =
      Every-and (λ (r : Simulator F S × ℕ). Made k (all_ids (get_or 3 ac.num_noise)) s r.0)
        (λ (r : Simulator F S × ℕ). AllFit r.0) (create_agents default_rng ac k s)
        (create_agents-Made default_rng ac k s no_agents no_delays)
        (create_agents-AllFit k s (
          subst (All (IsConfigured default_rng ac)) (sym no_agents) tt,
          subst (All (IsDelayed default_rng ac)) (sym no_delays) tt,
        ))
