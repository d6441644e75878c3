-- ===== src/Simulator/Members.antt =====
-- The agents that `_create_agents` of simulation/simulator.py makes.
pub mod Creating
pub mod Configured
use liquidity_arena.Prelude.{
  ℕ, zero, suc, ◌+◌, ◌≤◌, ◌≡◌, refl, sym, ap, subst, ◌∙◌, false, List, [], ◌∷◌, ◌++◌, append_assoc,
  length, length-append, arith, Bool-cases, inl, inr,
}
use liquidity_arena.Prelude.Results.{Every, Every-bind, Every-chain}
use liquidity_arena.Numeric.{Float, of_int, literal}
use liquidity_arena.Agents.Base.{new_agent}
use liquidity_arena.Agents.Human.{new_human}
use liquidity_arena.Agents.Noise.{new_noise}
use liquidity_arena.Agents.Informed.{new_informed}
use liquidity_arena.Agents.LatencyArb.{new_arb}
use liquidity_arena.Agents.Momentum.{MomentumTrader, new_momentum}
use liquidity_arena.Agents.MarketMaker.{new_maker}
use liquidity_arena.Prelude.Int.{ℤ, pos, ◌+ℤ◌}
use liquidity_arena.Simulator.Traders.{AgentId, same_id, Trader, insert_id, ids, base_of}
use liquidity_arena.Simulator.State.{Simulator}
use liquidity_arena.Simulator.Effect.{is_in}
use liquidity_arena.Simulator.Config.{get_or, NoiseConfig, MakerConfig, AgentsConfig}
use liquidity_arena.Simulator.Setup.{
  Entry, add_agent, make_maker, make_noise, add_noise, make_informed, make_momentum, make_arb,
  make_human, create_agents,
}

abbrev pub noise_ids : ℕ → ℕ → List AgentId
noise_ids i zero = []
noise_ids i (suc n) = AgentId.noise i ∷ noise_ids (i + 1) n

-- The ids for a number of noise traders, in the order in which the agents are made.
abbrev pub all_ids : ℕ → List AgentId
all_ids n =
    (AgentId.mm ∷ noise_ids 0 n)
    ++ (AgentId.informed ∷ AgentId.momentum ∷ AgentId.lat_arb ∷ AgentId.human ∷ [])

insert_id-absent :
    {A : Type 0} (i : AgentId) (a : A) (d : List (AgentId × A))
    → is_in i (ids d) ≡ false
    → insert_id i a d ≡ d ++ (i, a) ∷ []
insert_id-absent i a [] h = refl
insert_id-absent i a ((j, b) ∷ d) h = elim (Bool-cases (same_id i j)) [
  | inl e ↦ absurd (ground arith)
  | inr e ↦ rw e (ap (λ t. (j, b) ∷ t) (insert_id-absent i a d (rw e at h)))
]

ids-append : {A : Type 0} (d e : List (AgentId × A)) → ids (d ++ e) ≡ ids d ++ ids e
ids-append [] e = refl
ids-append ((i, a) ∷ d) e = ap (λ t. i ∷ t) (ids-append d e)

pub is_in-append :
    (i : AgentId) (xs ys : List AgentId)
    → is_in i xs ≡ false
    → is_in i ys ≡ false
    → is_in i (xs ++ ys) ≡ false
is_in-append i [] ys h k = k
is_in-append i (x ∷ xs) ys h k = ground (arith, is_in-append i xs ys)

-- No noise trader of a lower number has the id.
pub is_in-noise_ids : (j i n : ℕ) → i + n ≤ j → is_in (AgentId.noise j) (noise_ids i n) ≡ false
is_in-noise_ids j i zero h = refl
is_in-noise_ids j i (suc n) h = ground (arith, is_in-noise_ids j (i + 1) n)

pub noise_ids-suc : (i n : ℕ) → noise_ids i n ++ AgentId.noise (i + n) ∷ [] ≡ noise_ids i (suc n)
noise_ids-suc i zero = ap (λ m. AgentId.noise m ∷ []) (omega arith)
noise_ids-suc i (suc n) =
    ap (λ t. AgentId.noise i ∷ t)
      (ap (λ m. noise_ids (i + 1) n ++ AgentId.noise m ∷ []) (omega arith)
        ∙ noise_ids-suc (i + 1) n)

module _ {F S : Type 0} ⦃fl : Float F⦄ where
  -- Each agent is as `BaseAgent` makes it, one for each value of the class-level counter from k on.
  abbrev pub AreNew : ℕ → List (AgentId × Trader F S) → Type 0
  AreNew k [] = Unit
  AreNew k ((i, t) ∷ d) = (base_of t ≡ (new_agent k (literal 1 2)).0) × AreNew (k + 1) d

  AreNew-append :
      (k : ℕ) (d : List (AgentId × Trader F S)) (i : AgentId) (t : Trader F S)
      → AreNew k d
      → base_of t ≡ (new_agent (k + length d) (literal 1 2)).0
      → AreNew k (d ++ (i, t) ∷ [])
  AreNew-append k [] i t h e = (e ∙ ap (λ n. (new_agent n (literal 1 2)).0) (omega arith), tt)
  AreNew-append k ((j, u) ∷ d) i t (x, h) e =
      (x, AreNew-append (k + 1) d i t h (e ∙ ap (λ n. (new_agent n (literal 1 2)).0) (omega arith)))

length-ids : {A : Type 0} (d : List (AgentId × A)) → length (ids d) ≡ length d
length-ids [] = refl
length-ids ((i, a) ∷ d) = omega (arith, length-ids d)

-- The agents of these ids have been added, and nothing else has changed.
pub record Made {F S : Type 0} ⦃fl : Float F⦄ (k : ℕ) (xs : List AgentId) (s s' : Simulator F S)
    : Type 0 where
  pub members : ids s'.agents ≡ xs
  pub delays : ids s'.agent_latencies ≡ xs
  pub are_new : AreNew k s'.agents
  pub rest : s' ≡ record s { agents = s'.agents; agent_latencies = s'.agent_latencies }

module _ {F S : Type 0} ⦃fl : Float F⦄ where
  -- The next agent, of an id and a value of the counter.
  abbrev pub NextEntry : AgentId → ℕ → Entry F S × ℕ → Type 0
  NextEntry i k r = (r.0.0 ≡ i) × (base_of r.0.1 ≡ (new_agent k (literal 1 2)).0) × (r.1 ≡ k + 1)

  pub add_agent-Made :
      (k : ℕ) (xs : List AgentId) (s s' : Simulator F S) (i : AgentId) (e : Entry F S) (n n' : ℕ)
      → NextEntry i n (e, n')
      → n ≡ k + length xs
      → is_in i xs ≡ false
      → Made k xs s s'
      → Made k (xs ++ i ∷ []) s (add_agent e s')
  unfolding add_agent
  add_agent-Made k xs s s' i (j, t, d) n n' (same, base, next) at_k absent m =
      let absent' = ap (λ a. is_in a xs) same ∙ absent in
      let agents' = insert_id-absent j t s'.agents (ap (is_in j) m.members ∙ absent') in
      let delays' = insert_id-absent j d s'.agent_latencies (ap (is_in j) m.delays ∙ absent') in
      record {
        members =
            ap ids agents'
            ∙ ids-append s'.agents ((j, t) ∷ [])
            ∙ ap (λ ys. ys ++ j ∷ []) m.members
            ∙ ap (λ a. xs ++ a ∷ []) same;
        delays =
            ap ids delays'
            ∙ ids-append s'.agent_latencies ((j, d) ∷ [])
            ∙ ap (λ ys. ys ++ j ∷ []) m.delays
            ∙ ap (λ a. xs ++ a ∷ []) same;
        are_new = subst (AreNew k) (sym agents') (
            AreNew-append k s'.agents j t m.are_new (
              base
              ∙ ap (λ c. (new_agent c (literal 1 2)).0)
                  (omega (arith, at_k, ap length m.members, length-ids s'.agents))));
        rest =
            ap {A = Simulator F S}
              (λ x. record x {
                agents = insert_id j t s'.agents;
                agent_latencies = insert_id j d s'.agent_latencies;
              })
              m.rest;
      }

module _ {F S : Type 0} ⦃fl : Float F⦄ where
  pub add_next :
      (k : ℕ) (xs : List AgentId) (s s' : Simulator F S) (i : AgentId) (n : ℕ) (r : Entry F S × ℕ)
      → NextEntry i n r
      → n ≡ k + length xs
      → is_in i xs ≡ false
      → Made k xs s s'
      → Made k (xs ++ i ∷ []) s (add_agent r.0 s') × (r.1 ≡ k + length (xs ++ i ∷ []))
  add_next k xs s s' i n r next at_k absent m = (
    add_agent-Made k xs s s' i r.0 n r.1 next at_k absent m,
    omega (arith, next.2, at_k, length-append xs (i ∷ [])),
  )
