-- ===== src/Simulator/Ending.antt =====
-- The loop over the events ends (`run` of simulation/simulator.py): only a move of the price pushes events,
-- and it pushes finitely many actions of an agent, which push none.
use liquidity_arena.Prelude.{
  ℕ, zero, suc, ◌≤◌, ◌≡◌, refl, sym, ap, subst, ◌∙◌, true, false, Option, none, some, List, [], ◌∷◌,
  All, length, arith, Bool-cases, Option-cases, inl, inr, ◌⊎◌,
}
use liquidity_arena.Prelude.Results.{Every, Every-some}
use liquidity_arena.Numeric.{Float, Numpy, Rng, Sampler}
use liquidity_arena.Simulator.Traders.{Delay, delay_seconds}
use liquidity_arena.Simulator.Events.{EventType, Event, count_of, Heapq, Heap}
use liquidity_arena.Simulator.Queue.{IsHeapq, count_of-perm, length-perm}
use liquidity_arena.Simulator.State.{Simulator}
use liquidity_arena.Simulator.Extends.{push_all, push_all-Heap, count_of-push_all, ActionAfter}
use liquidity_arena.Simulator.Effect.{one_if}
use liquidity_arena.Simulator.Round.{RoundEffect, round-RoundEffect}
use liquidity_arena.Simulator.Loop.{
  Inputs, Progress, ended, crashed, unfinished, round, goes_on, proceed, main_loop, main_loop-stop,
  main_loop-go,
}

-- Any delay, for what does not depend on the delays.
abbrev pub Any : {F : Type 0} → F → Type 0
Any d = Unit {0}

Every-Unit : {A : Type 0} (r : Option A) → Every (λ a. Unit {0}) r
Every-Unit none = tt
Every-Unit (some a) = tt

pub delay_seconds-Any :
    {F S : Type 0} ⦃fl : Float F⦄ ⦃g : Rng F S⦄ (d : Delay F S)
    → Every (λ r. Any r.0) (delay_seconds d)
delay_seconds-Any d = Every-Unit (delay_seconds d)

one_if-cases : (t u : EventType) → (one_if t u ≡ 0) ⊎ (one_if t u ≡ 1)
one_if-cases t u = ground arith

module _ {F : Type 0} ⦃fl : Float F⦄ where
  -- The actions that are pushed are neither moves nor samples.
  pub count_of-ActionAfter :
      (P : F → Type 0) (t : EventType) (time : F) (es : List (Event F))
      → one_if t EventType.agent_action ≡ 0
      → All (ActionAfter P time) es
      → count_of t es ≡ 0
  count_of-ActionAfter P t time [] h k = refl
  count_of-ActionAfter P t time (e ∷ es) h ((d, i, eq, p), k) = omega (
    arith,
    ap (λ (x : Event F). one_if t x.event_type) eq,
    h,
    count_of-ActionAfter P t time es h k,
  )

abbrev moves_in : {F : Type 0} → List (Event F) → ℕ
moves_in q = count_of EventType.midprice_move q

-- A move of the price less is left, or as many moves and an event less.
abbrev Shrinks : {F : Type 0} → List (Event F) → List (Event F) → Type 0
Shrinks q q' =
    (suc (moves_in q') ≡ moves_in q) ⊎ ((moves_in q' ≡ moves_in q) × (suc (length q') ≡ length q))

module _ {F S : Type 0} ⦃fl : Float F⦄ ⦃np : Numpy F⦄ ⦃g : Rng F S⦄ ⦃sp : Sampler F S⦄
    ⦃hq : Heapq F⦄ where
  abbrev pub Finished : Progress F S → Type 0
  Finished (ended s) = Unit
  Finished crashed = Unit
  Finished (unfinished s) = ⊥

  -- From some number of rounds on the loop has ended.
  abbrev pub Ends : (ℕ → Inputs) → Simulator F S → Type 0
  Ends io s = (n : ℕ) × ((k : ℕ) → n ≤ k → Finished (main_loop k io s))

  Ends-of_stop : (io : ℕ → Inputs) (s : Simulator F S) → goes_on s ≡ false → Ends io s
  Ends-of_stop io s e = (
    1,
    elim [
      | zero ↦ λ h. absurd (omega arith)
      | suc k ↦ λ h. subst Finished (sym (main_loop-stop k io s e)) tt
    ],
  )

  Ends-of_crash :
      (io : ℕ → Inputs) (s : Simulator F S) → goes_on s ≡ true → round (io 0) s ≡ none → Ends io s
  Ends-of_crash io s e h = (
    1,
    elim [
      | zero ↦ λ h'. absurd (omega arith)
      | suc k ↦ λ h'.
          subst Finished
            (sym (main_loop-go k io s e ∙ ap (λ r. proceed r (main_loop k (λ k. io (suc k)))) h)) tt
    ],
  )

  Ends-of_round :
      (io : ℕ → Inputs) (s s' : Simulator F S)
      → goes_on s ≡ true
      → round (io 0) s ≡ some s'
      → Ends (λ k. io (suc k)) s'
      → Ends io s
  Ends-of_round io s s' e h (n, ends) = (
    suc n,
    elim [
      | zero ↦ λ h'. absurd (omega arith)
      | suc k ↦ λ h'.
          subst Finished
            (sym (main_loop-go k io s e ∙ ap (λ r. proceed r (main_loop k (λ k. io (suc k)))) h))
            (ends k (omega arith))
    ],
  )

  module _ (law : IsHeapq hq) where
    shrinks :
        (io : Inputs) (s s' : Simulator F S)
        → Heap hq s.event_queue
        → RoundEffect Any io s s'
        → Heap hq s'.event_queue × Shrinks s.event_queue s'.event_queue
    shrinks io s s' heap r =
        let t = EventType.midprice_move in
        let rest_heap = Heap.popped r.event s.event_queue r.rest heap r.pop in
        let perm = law.pop_perm s.event_queue r.rest r.event heap r.pop in
        let moves = count_of-perm t perm in
        let pushed = count_of-push_all law t r.added r.rest rest_heap in
        let none_added = count_of-ActionAfter Any t r.event.timestamp r.added refl r.each in
        let same = ap (count_of t) r.queue in
        (
          subst (Heap hq) (sym r.queue) (push_all-Heap r.added r.rest rest_heap),
          elim (one_if-cases t r.event.event_type) [
            | inl e ↦ inr (
              omega (arith, moves, pushed, none_added, same, e),
              omega (
                arith,
                length-perm perm,
                ap length (r.queue ∙ ap (λ es. push_all es r.rest) (r.quiet e)),
              ),
            )
            | inr e ↦ inl (omega (arith, moves, pushed, none_added, same, e))
          ],
        )

    Ends-by :
        (io : ℕ → Inputs) (s : Simulator F S)
        → Heap hq s.event_queue
        → ((s' : Simulator F S)
            → Heap hq s'.event_queue
            → Shrinks s.event_queue s'.event_queue
            → Ends (λ k. io (suc k)) s')
        → Ends io s
    Ends-by io s heap k = elim (Bool-cases (goes_on s)) [
      | inr e ↦ Ends-of_stop io s e
      | inl e ↦ elim (Option-cases (round (io 0) s)) [
        | inl h ↦ Ends-of_crash io s e h
        | inr (s', h) ↦
            let (heap', less) = shrinks (io 0) s s' heap (
              Every-some (RoundEffect Any (io 0) s) (round (io 0) s) s'
                (round-RoundEffect Any delay_seconds-Any (io 0) s) h) in
            Ends-of_round io s s' e h (k s' heap' less)
      ]
    ]

    -- By the moves that are left, and then by the events.
    within-Ends :
        (m l : ℕ) (io : ℕ → Inputs) (s : Simulator F S)
        → Heap hq s.event_queue
        → moves_in s.event_queue ≤ m
        → length s.event_queue ≤ l
        → Ends io s
    within-Ends zero zero io s heap few short = Ends-by io s heap λ s' heap' less. elim less [
      | inl a ↦ absurd (omega arith)
      | inr (a, b) ↦ absurd (omega arith)
    ]
    within-Ends zero (suc l) io s heap few short = Ends-by io s heap λ s' heap' less. elim less [
      | inl a ↦ absurd (omega arith)
      | inr (a, b) ↦ within-Ends zero l (λ k. io (suc k)) s' heap' (omega arith) (omega arith)
    ]
    within-Ends (suc m) zero io s heap few short = Ends-by io s heap λ s' heap' less. elim less [
      | inl a ↦
          within-Ends m (length s'.event_queue) (λ k. io (suc k)) s' heap' (omega arith)
            (omega arith)
      | inr (a, b) ↦ absurd (omega arith)
    ]
    within-Ends (suc m) (suc l) io s heap few short = Ends-by io s heap λ s' heap' less. elim less [
      | inl a ↦
          within-Ends m (length s'.event_queue) (λ k. io (suc k)) s' heap' (omega arith)
            (omega arith)
      | inr (a, b) ↦ within-Ends (suc m) l (λ k. io (suc k)) s' heap' (omega arith) (omega arith)
    ]

    -- Where `heapq` does what its documentation says, the loop ends, whatever the outside does in
    -- its rounds: for every simulator there is a number of rounds from which on the loop has come
    -- to its end, by its test or by an exception.
    pub main_loop-Ends : (io : ℕ → Inputs) (s : Simulator F S) → Heap hq s.event_queue → Ends io s
    main_loop-Ends io s heap =
        within-Ends (moves_in s.event_queue) (length s.event_queue) io s heap (omega arith)
          (omega arith)
