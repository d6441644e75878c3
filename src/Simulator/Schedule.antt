-- ===== src/Simulator/Schedule.antt =====
-- The events that `_schedule_initial_events` of simulation/simulator.py schedules.
use liquidity_arena.Prelude.{
  ℕ, zero, suc, ◌+◌, ◌*◌, ◌/◌, ◌%◌, ◌≡◌, refl, sym, ap, subst, ◌∙◌, true, false, List, [], ◌∷◌,
  ◌++◌, All, All-append, length, arith, if◌then◌else◌, ◌==◌,
}
use liquidity_arena.Prelude.Int.{pos}
use liquidity_arena.Prelude.Results.{Every, Every-chain, Every-mono}
use liquidity_arena.Numeric.{Float, ◌⊕◌, ◌⊗◌, of_int, literal, Rng}
use liquidity_arena.Simulator.Traders.{Delay, delay_seconds}
use liquidity_arena.Simulator.Events.{EventType, Event, count_of, Heapq}
use liquidity_arena.Simulator.State.{Simulator}
use liquidity_arena.Simulator.Extends.{
  ActionAfter, Extends, Extends-refl, Extends-trans, Extends-schedule, Adds, schedule_actions-Adds,
}
use liquidity_arena.Simulator.Effect.{one_if}
use liquidity_arena.Simulator.Loop.{
  move_at, sample_at, schedule, schedule_actions, schedule_sample, schedule_step, schedule_steps,
}

count_of-append :
    {F : Type 0} (t : EventType) (es fs : List (Event F))
    → count_of t (es ++ fs) ≡ count_of t es + count_of t fs
count_of-append t [] fs = omega arith
count_of-append t (e ∷ es) fs = omega (arith, count_of-append t es fs)

module _ {F S : Type 0} ⦃hq : Heapq F⦄ (Q : Event F → Type 0) where
  -- Events that satisfy Q are pushed: so many moves, actions and samples.
  abbrev pub Plans : ℕ → ℕ → ℕ → Simulator F S → Simulator F S → Type 0
  Plans m a k s s' =
      (added : List (Event F)) × Extends added s s'
      × All Q added
      × (count_of EventType.midprice_move added ≡ m)
      × (count_of EventType.agent_action added ≡ a)
      × (count_of EventType.metrics_sample added ≡ k)

  Plans-trans :
      {m a k m' a' k' : ℕ} {s t u : Simulator F S}
      → Plans m a k s t
      → Plans m' a' k' t u
      → Plans (m + m') (a + a') (k + k') s u
  Plans-trans (es, e, q, em, ea, ek) (fs, f, q', fm, fa, fk) = (
    es ++ fs,
    Extends-trans e f,
    All-append Q es fs q q',
    omega (arith, count_of-append EventType.midprice_move es fs, em, fm),
    omega (arith, count_of-append EventType.agent_action es fs, ea, fa),
    omega (arith, count_of-append EventType.metrics_sample es fs, ek, fk),
  )

  Plans-of :
      {m a k m' a' k' : ℕ} {s t : Simulator F S}
      → Plans m a k s t
      → m ≡ m'
      → a ≡ a'
      → k ≡ k'
      → Plans m' a' k' s t
  Plans-of (es, e, q, em, ea, ek) hm ha hk = (es, e, q, em ∙ hm, ea ∙ ha, ek ∙ hk)

  Plans-refl : (s : Simulator F S) → Plans 0 0 0 s s
  Plans-refl s = ([], Extends-refl s, tt, refl, refl, refl)

-- The first so many steps have a sample each hundred.
abbrev pub samples_in : ℕ → ℕ
samples_in n = (n + 99) / 100

abbrev sample_count : ℕ → ℕ
sample_count step = if step % 100 == 0 then 1 else 0

sample_count_lem : (step : ℕ) → sample_count step + samples_in step ≡ samples_in (step + 1)
sample_count_lem step = ground arith

module _ {F : Type 0} ⦃fl : Float F⦄ (P : F → Type 0) where
  count_actions :
      (time : F) (es : List (Event F)) (n : ℕ)
      → All (ActionAfter P time) es
      → length es ≡ n
      → (count_of EventType.midprice_move es ≡ 0)
        × (count_of EventType.agent_action es ≡ n)
        × (count_of EventType.metrics_sample es ≡ 0)
  count_actions time [] n h e = (refl, e, refl)
  count_actions time (x ∷ es) n ((d, i, eq, p), k) e =
      let (a, b, c) = count_actions time es (length es) k refl in
      let one = λ (t : EventType). ap (λ (y : Event F). one_if t y.event_type) eq in
      (
        omega (arith, a, one EventType.midprice_move),
        omega (arith, b, e, one EventType.agent_action),
        omega (arith, c, one EventType.metrics_sample),
      )

  -- The times of the events that are scheduled at steps of a length.
  pub record AreTimes (T : F → Type 0) (dt : F) : Type 0 where
    pub steps : (n : ℕ) → T (of_int (pos n) ⊗ dt)
    pub delayed : (a d : F) → T a → P d → T (a ⊕ d)
    pub halves : (n : ℕ) → T (of_int (pos n) ⊗ dt ⊕ dt ⊗ literal 5 1)

abbrev pub At : {F : Type 0} → (F → Type 0) → Event F → Type 0
At T e = T e.timestamp

module _ {F S : Type 0} ⦃fl : Float F⦄ ⦃g : Rng F S⦄ ⦃hq : Heapq F⦄ (P : F → Type 0)
    (delays : (d : Delay F S) → Every (λ r. P r.0) (delay_seconds d)) (T : F → Type 0) (dt : F)
    (times : AreTimes P T dt) where
  actions-At :
      (time : F) → T time → (es : List (Event F)) → All (ActionAfter P time) es → All (At T) es
  actions-At time h [] k = tt
  actions-At time h (e ∷ es) ((d, i, eq, p), k) =
      (subst (At T) (sym eq) (times.delayed time d h p), actions-At time h es k)

  Adds-Plans :
      (time : F) (n : ℕ) (s s' : Simulator F S)
      → T time
      → Adds (ActionAfter P time) n s s'
      → Plans (At T) 0 n 0 s s'
  Adds-Plans time n s s' h (es, e, each, l) =
      let (a, b, c) = count_actions P time es n each l in
      (es, e, actions-At time h es each, a, b, c)

  schedule_sample-Plans :
      (step : ℕ) (time : F) (s : Simulator F S)
      → time ≡ of_int (pos step) ⊗ dt
      → s.dt ≡ dt
      → Plans (At T) 0 0 (sample_count step) s (schedule_sample step time s)
  schedule_sample-Plans step time s h e =
      let half_step = time ⊕ s.dt ⊗ literal 5 1 in
      let in_time : T half_step =
        subst T
          (sym (
            ap (λ x. x ⊕ s.dt ⊗ literal 5 1) h
            ∙ ap (λ x. of_int (pos step) ⊗ dt ⊕ x ⊗ literal 5 1) e))
          (times.halves step) in
      elim (step % 100 == 0)
        as (λ b.
          Plans (At T) 0 0 (if b then 1 else 0) s
            (if b then schedule (sample_at half_step) s else s)) [
              | true ↦
                  (sample_at half_step ∷ [], Extends-schedule _ s, (in_time, tt), refl, refl, refl)
              | false ↦ Plans-refl (At T) s
            ]

  schedule_step-Plans :
      (step : ℕ) (s : Simulator F S)
      → s.dt ≡ dt
      → Every (Plans (At T) 1 (length s.agents) (sample_count step) s) (schedule_step step s)
  unfolding schedule_step
  schedule_step-Plans step s e =
      let t = of_int (pos step) ⊗ s.dt in
      let at_t : T t = subst (λ x. T (of_int (pos step) ⊗ x)) (sym e) (times.steps step) in
      let s₁ = schedule (move_at t) s in
      let first : Plans (At T) 1 0 0 s s₁ =
        (move_at t ∷ [], Extends-schedule (move_at t) s, (at_t, tt), refl, refl, refl) in
      Every-chain (Adds (ActionAfter P t) (length s.agents) s₁)
        (Plans (At T) 1 (length s.agents) (sample_count step) s) (schedule_actions t s.agents s₁) _
        (schedule_actions-Adds P delays t s.agents s₁)
        (λ s₂ h.
          let p = Plans-trans (At T) first (Adds-Plans t (length s.agents) s₁ s₂ at_t h) in
          let q =
            schedule_sample-Plans step t s₂ (ap (λ x. of_int (pos step) ⊗ x) e) (p.1.dt ∙ e) in
          Plans-of (At T) (Plans-trans (At T) p q) refl (omega arith) (omega arith))

  -- From a step on: one move for each step, one action for each step and agent, and the samples.
  abbrev pub Planned : ℕ → ℕ → Simulator F S → Simulator F S → Type 0
  Planned left step s s' =
      (k : ℕ) × (k + samples_in step ≡ samples_in (step + left))
      × Plans (At T) left (left * length s.agents) k s s'

  pub schedule_steps-Planned :
      (left step : ℕ) (s : Simulator F S)
      → s.dt ≡ dt
      → Every (Planned left step s) (schedule_steps left step s)
  unfolding schedule_steps
  schedule_steps-Planned zero step s e =
      (0, omega arith, Plans-of (At T) (Plans-refl (At T) s) refl (omega arith) refl)
  schedule_steps-Planned (suc left) step s e =
      Every-chain (Plans (At T) 1 (length s.agents) (sample_count step) s)
        (Planned (suc left) step s) (schedule_step step s) _ (schedule_step-Plans step s e)
        (λ s₁ p.
          Every-mono (Planned left (step + 1) s₁) (Planned (suc left) step s)
            (schedule_steps left (step + 1) s₁)
            (λ s₂ (k, h, q). (
              sample_count step + k,
              omega (arith, sample_count_lem step, h),
              Plans-of (At T) (Plans-trans (At T) p q) (omega arith)
                  (omega (arith, ap (λ d. left * length d) p.1.agents)) refl,
            ))
            (schedule_steps-Planned left (step + 1) s₁ (p.1.dt ∙ e)))
