-- ===== src/Simulator/Members/Creating.antt =====
-- What `_create_agents` of simulation/simulator.py does.
use liquidity_arena.Prelude.{
  ℕ, zero, suc, ◌+◌, ◌≡◌, refl, sym, ap, subst, ◌∙◌, false, [], ◌∷◌, ◌++◌, append_assoc, length,
  arith,
}
use liquidity_arena.Prelude.Results.{Every, Every-bind, Every-chain}
use liquidity_arena.Numeric.{Float, of_int, literal}
use liquidity_arena.Agents.Base.{new_agent}
use liquidity_arena.Agents.Human.{new_human}
use liquidity_arena.Agents.Noise.{new_noise}
use liquidity_arena.Agents.Informed.{new_informed}
use liquidity_arena.Agents.LatencyArb.{new_arb}
use liquidity_arena.Agents.Momentum.{MomentumTrader, new_momentum}
use liquidity_arena.Agents.MarketMaker.{new_maker}
use liquidity_arena.Prelude.Int.{ℤ, pos, ◌+ℤ◌}
use liquidity_arena.Simulator.Traders.{AgentId, same_id, ids}
use liquidity_arena.Simulator.State.{Simulator}
use liquidity_arena.Simulator.Effect.{is_in}
use liquidity_arena.Simulator.Config.{get_or, NoiseConfig, MakerConfig, AgentsConfig}
use liquidity_arena.Simulator.Setup.{
  add_agent, make_maker, make_noise, add_noise, make_informed, make_momentum, make_arb, make_human,
  create_agents,
}
use liquidity_arena.Simulator.Members.{
  noise_ids, all_ids, AreNew, Made, NextEntry, is_in-append, is_in-noise_ids, noise_ids-suc,
  add_agent-Made, add_next,
}

length-noise_ids : (i n : ℕ) → length (noise_ids i n) ≡ n
length-noise_ids i zero = refl
length-noise_ids i (suc n) = omega (arith, length-noise_ids (i + 1) n)

noise_ids-snoc : (n : ℕ) → noise_ids 0 n ++ AgentId.noise n ∷ [] ≡ noise_ids 0 (n + 1)
noise_ids-snoc n =
    ap (λ m. noise_ids 0 n ++ AgentId.noise m ∷ []) (omega arith)
    ∙ noise_ids-suc 0 n
    ∙ ap (noise_ids 0) {x = suc n} (omega arith)

is_in-noises :
    (i : AgentId)
    → ((n : ℕ) → same_id i (AgentId.noise n) ≡ false)
    → (a m : ℕ) → is_in i (noise_ids a m) ≡ false
is_in-noises i h a zero = refl
is_in-noises i h a (suc m) = ground (arith, h a, is_in-noises i h (a + 1) m)

module _ {F S : Type 0} ⦃fl : Float F⦄ (default_rng : ℕ → S) where
  make_noise-NextEntry :
      (i : ℕ) (c : NoiseConfig F) (k : ℕ)
      → NextEntry (AgentId.noise i) k (make_noise default_rng i c k)
  unfolding make_noise new_noise new_agent
  make_noise-NextEntry i c k = (refl, refl, refl)

  add_noise-Made :
      (left i : ℕ) (c : NoiseConfig F) (k n : ℕ) (s s' : Simulator F S)
      → n ≡ k + 1 + i
      → Made k (AgentId.mm ∷ noise_ids 0 i) s s'
      → let r = add_noise default_rng left i c n s' in
        Made k (AgentId.mm ∷ noise_ids 0 (i + left)) s r.0 × (r.1 ≡ k + 1 + (i + left))
  unfolding add_noise
  add_noise-Made zero i c k n s s' e m =
      (subst (λ j. Made k (AgentId.mm ∷ noise_ids 0 j) s s') (omega arith) m, omega arith)
  add_noise-Made (suc left) i c k n s s' e m =
      let (entry, n') = make_noise default_rng i c n in
      let next = make_noise-NextEntry i c n in
      let more =
        add_agent-Made k (AgentId.mm ∷ noise_ids 0 i) s s' (AgentId.noise i) entry n n' next
          (omega (arith, e, length-noise_ids 0 i)) (is_in-noise_ids i 0 i (omega arith)) m in
      let r =
        add_noise-Made left (i + 1) c k n' s (add_agent entry s') (omega (arith, e, next.2))
          (subst (λ ys. Made k (AgentId.mm ∷ ys) s (add_agent entry s')) (noise_ids-snoc i) more) in
      (
        subst
            (λ j.
              Made k (AgentId.mm ∷ noise_ids 0 j) s
                (add_noise default_rng left (i + 1) c n' (add_agent entry s')).0)
            (omega arith) r.0,
        r.1 ∙ omega arith,
      )

  make_maker-NextEntry :
      (c : MakerConfig F) (k : ℕ) → NextEntry AgentId.mm k (make_maker default_rng c k)
  unfolding make_maker new_maker new_agent
  make_maker-NextEntry c k = (refl, refl, refl)

  make_informed-NextEntry :
      (c : AgentsConfig F) (k : ℕ) → NextEntry AgentId.informed k (make_informed default_rng c k)
  unfolding make_informed new_informed new_agent
  make_informed-NextEntry c k = (refl, refl, refl)

  make_human-NextEntry : (k : ℕ) → NextEntry {F = F} {S = S} AgentId.human k (make_human k)
  unfolding make_human new_human new_agent
  make_human-NextEntry k = (refl, refl, refl)

  abbrev IsNewMomentum : ℕ → MomentumTrader F S × ℕ → Type 0
  IsNewMomentum k r = (r.0.base ≡ (new_agent k (literal 1 2)).0) × (r.1 ≡ k + 1)

  new_momentum-IsNew :
      (k : ℕ) (fast_period slow_period : ℤ) (prob : F) (low high : ℤ) (seeded : S)
      → Every
          (IsNewMomentum k)
          (new_momentum k (literal 1 2) fast_period slow_period prob low high seeded)
  unfolding new_momentum new_agent
  new_momentum-IsNew k fast_period slow_period prob low high seeded =
      Every-bind (IsNewMomentum k) (fl.div (of_int (pos 2)) (of_int (fast_period +ℤ pos 1))) _
        (λ fast.
          Every-bind (IsNewMomentum k) (fl.div (of_int (pos 2)) (of_int (slow_period +ℤ pos 1))) _
            (λ slow. (refl, refl)))

  make_momentum-NextEntry :
      (c : AgentsConfig F) (k : ℕ)
      → Every (NextEntry AgentId.momentum k) (make_momentum default_rng c k)
  unfolding make_momentum
  make_momentum-NextEntry c k =
      Every-chain (IsNewMomentum k) (NextEntry {F = F} {S = S} AgentId.momentum k)
        (new_momentum k (literal 1 2) _ _ _ _ _ _) _ (new_momentum-IsNew k _ _ _ _ _ _)
        (λ r h. (refl, h.0, h.1))

  make_arb-NextEntry :
      (c : AgentsConfig F) (k : ℕ) → NextEntry AgentId.lat_arb k (make_arb default_rng c k)
  unfolding make_arb new_arb new_agent
  make_arb-NextEntry c k = (refl, refl, refl)

  -- The market maker, the noise traders and the informed trader.
  first_agents-Made :
      (ac : AgentsConfig F) (k : ℕ) (s : Simulator F S)
      → s.agents ≡ []
      → s.agent_latencies ≡ []
      → let n = get_or 3 ac.num_noise in
        let first = make_maker default_rng ac.market_maker k in
        let noises = add_noise default_rng n 0 ac.noise_trader first.1 (add_agent first.0 s) in
        let third = make_informed default_rng ac noises.1 in
        let xs = (AgentId.mm ∷ noise_ids 0 n) ++ AgentId.informed ∷ [] in
        Made k xs s (add_agent third.0 noises.0) × (third.1 ≡ k + length xs)
  first_agents-Made ac k s no_agents no_delays =
      let n = get_or 3 ac.num_noise in
      let start : Made k [] s s = record {
        members = ap ids no_agents;
        delays = ap ids no_delays;
        are_new = subst (AreNew k) (sym no_agents) tt;
        rest = refl;
      } in
      let first = make_maker default_rng ac.market_maker k in
      let s₁ = add_agent first.0 s in
      let m₁ =
        add_next k [] s s AgentId.mm k first (make_maker-NextEntry ac.market_maker k) (omega arith)
          refl start in
      let noises = add_noise default_rng n 0 ac.noise_trader first.1 s₁ in
      let m₂ = add_noise-Made n 0 ac.noise_trader k first.1 s s₁ (omega (arith, m₁.1)) m₁.0 in
      let m₂' =
        subst (λ m. Made k (AgentId.mm ∷ noise_ids 0 m) s noises.0) {x = 0 + n} {y = n}
          (omega arith) m₂.0 in
      add_next k (AgentId.mm ∷ noise_ids 0 n) s noises.0 AgentId.informed noises.1
        (make_informed default_rng ac noises.1) (make_informed-NextEntry ac noises.1)
        (omega (arith, m₂.1, length-noise_ids 0 n)) (is_in-noises AgentId.informed (λ j. refl) 0 n)
        m₂'

  -- `_create_agents`, of a simulator without agents and latencies, unless it raises: it adds the
  -- market maker, the configured number of noise traders in order, and one agent of each other
  -- kind, each under its own id with a latency, and changes nothing else. Each agent is as
  -- `BaseAgent` makes it, from the next value of the class-level counter, in this order.
  pub create_agents-Made :
      (ac : AgentsConfig F) (k : ℕ) (s : Simulator F S)
      → s.agents ≡ []
      → s.agent_latencies ≡ []
      → Every
          (λ r. Made k (all_ids (get_or 3 ac.num_noise)) s r.0)
          (create_agents default_rng ac k s)
  unfolding create_agents
  create_agents-Made ac k s no_agents no_delays =
      let n = get_or 3 ac.num_noise in
      let first = make_maker default_rng ac.market_maker k in
      let noises = add_noise default_rng n 0 ac.noise_trader first.1 (add_agent first.0 s) in
      let third = make_informed default_rng ac noises.1 in
      let m₃ = first_agents-Made ac k s no_agents no_delays in
      let xs = AgentId.mm ∷ noise_ids 0 n in
      let xs₃ = xs ++ AgentId.informed ∷ [] in
      let xs₄ = xs₃ ++ AgentId.momentum ∷ [] in
      let xs₅ = xs₄ ++ AgentId.lat_arb ∷ [] in
      let s₃ = add_agent third.0 noises.0 in
      let absent =
        λ (i : AgentId) (h : (j : ℕ) → same_id i (AgentId.noise j) ≡ false)
            (e : same_id i AgentId.mm ≡ false).
          is_in-append i (AgentId.mm ∷ []) (noise_ids 0 n) (ground (arith, e))
            (is_in-noises i h 0 n) in
      Every-chain (NextEntry AgentId.momentum third.1)
        (λ (r : Simulator F S × ℕ). Made k (all_ids n) s r.0) (make_momentum default_rng ac third.1)
        _ (make_momentum-NextEntry ac third.1)
        (λ r next.
          let m₄ =
            add_next k xs₃ s s₃ AgentId.momentum third.1 r next m₃.1
              (is_in-append AgentId.momentum xs (AgentId.informed ∷ [])
                (absent AgentId.momentum (λ j. refl) refl) refl)
              m₃.0 in
          let s₄ = add_agent r.0 s₃ in
          let arb = make_arb default_rng ac r.1 in
          let m₅ =
            add_next k xs₄ s s₄ AgentId.lat_arb r.1 arb (make_arb-NextEntry ac r.1) m₄.1
              (is_in-append AgentId.lat_arb xs₃ (AgentId.momentum ∷ [])
                (is_in-append AgentId.lat_arb xs (AgentId.informed ∷ [])
                  (absent AgentId.lat_arb (λ j. refl) refl) refl)
                refl)
              m₄.0 in
          let s₅ = add_agent arb.0 s₄ in
          let m₆ =
            add_next k xs₅ s s₅ AgentId.human arb.1 (make_human arb.1) (make_human-NextEntry arb.1)
              m₅.1
              (is_in-append AgentId.human xs₄ (AgentId.lat_arb ∷ [])
                (is_in-append AgentId.human xs₃ (AgentId.momentum ∷ [])
                  (is_in-append AgentId.human xs (AgentId.informed ∷ [])
                    (absent AgentId.human (λ j. refl) refl) refl)
                  refl)
                refl)
              m₅.0 in
          subst (λ ys. Made k ys s (add_agent (make_human arb.1).0 s₅)) (simp append_assoc) m₆.0)
