-- ===== src/Simulator/Clock.antt =====
-- The simulator's clock never goes back (`run` of simulation/simulator.py).
use liquidity_arena.Prelude.{All-map, ◌≡◌, sym, subst, true, false, some, All}
use liquidity_arena.Prelude.Int.{pos}
use liquidity_arena.Prelude.Results.{Every, Every-some, Every-chain, Every-bind_of, by_case}
use liquidity_arena.Numeric.{Float, of_int, lt, fmax, Numpy, Rng, Sampler}
use liquidity_arena.Latency.{LatencyModel, sample, sample_seconds}
use liquidity_arena.Simulator.Traders.{Delay, zero_latency, model, delay_seconds}
use liquidity_arena.Simulator.Events.{Heapq, Heap, NotBefore}
use liquidity_arena.Simulator.Queue.{IsHeapq, PopsLeast, All-perm}
use liquidity_arena.Simulator.State.{Simulator}
use liquidity_arena.Simulator.Extends.{ActionAfter, push_all-Heap, All-push_all}
use liquidity_arena.Simulator.Round.{RoundEffect, round-RoundEffect}
use liquidity_arena.Simulator.Rounds.{Rounds, here, next}
use liquidity_arena.Simulator.Schedule.{At}
use liquidity_arena.Simulator.Loop.{Inputs, round}

-- What holds of the floats that are not below 0.0, which a NaN is not one of: `<` orders them, sums
-- round monotonically, and so does a division by a million.
pub record IsTimes {F : Type 0} (fl : Float F) (IsTime : F → Type 0) : Type 0 where
  pub zero : IsTime (fl.of_int (pos 0))
  pub positive : (a : F) → fl.lt (fl.of_int (pos 0)) a ≡ true → IsTime a
  pub nonneg : (a : F) → IsTime a → fl.lt a (fl.of_int (pos 0)) ≡ false
  pub divided : (a q : F) → IsTime a → fl.div a (fl.of_int (pos 1_000_000)) ≡ some q → IsTime q
  pub irrefl : (a : F) → fl.lt a a ≡ false
  pub summed : (a b : F) → IsTime a → IsTime b → IsTime (fl.add a b)
  pub sum_ge : (a b : F) → IsTime a → IsTime b → fl.lt (fl.add a b) a ≡ false
  pub trans :
      (a b c : F)
      → IsTime a
      → IsTime b
      → IsTime c
      → fl.lt b a ≡ false
      → fl.lt c b ≡ false
      → fl.lt c a ≡ false

module _ {F : Type 0} ⦃fl : Float F⦄ {IsTime : F → Type 0} (times : IsTimes fl IsTime) where
  fmax-IsTime : (a : F) → IsTime (fmax (of_int (pos 0)) a)
  fmax-IsTime a = by_case IsTime (fl.lt (fl.of_int (pos 0)) a) (times.positive a) (λ e. times.zero)

module _ {F S : Type 0} ⦃fl : Float F⦄ ⦃g : Rng F S⦄ {IsTime : F → Type 0}
    (times : IsTimes fl IsTime) where
  sample_seconds-IsTime : (m : LatencyModel F S) → Every (λ r. IsTime r.0) (sample_seconds m)
  unfolding sample_seconds sample
  sample_seconds-IsTime m =
      Every-bind_of (λ (r : F × LatencyModel F S). IsTime r.0)
        (fl.div (sample m).0 (fl.of_int (pos 1_000_000))) _
        (λ q e. times.divided (sample m).0 q (fmax-IsTime times _) e)

  pub delay_seconds-IsTime : (d : Delay F S) → Every (λ r. IsTime r.0) (delay_seconds d)
  unfolding delay_seconds
  delay_seconds-IsTime zero_latency = times.zero
  delay_seconds-IsTime (model m) =
      Every-chain (λ r. IsTime r.0) (λ (r : F × Delay F S). IsTime r.0) (sample_seconds m) _
        (sample_seconds-IsTime m) (λ r h. h)

module _ {F S : Type 0} ⦃fl : Float F⦄ ⦃hq : Heapq F⦄ (IsTime : F → Type 0) where
  -- The events left are not before the clock.
  pub record Timely (s : Simulator F S) : Type 0 where
    pub heap : Heap hq s.event_queue
    pub now : IsTime s.current_time
    pub stamped : All (At IsTime) s.event_queue
    pub ahead : NotBefore s.current_time s.event_queue

module _ {F S : Type 0} ⦃fl : Float F⦄ ⦃np : Numpy F⦄ ⦃g : Rng F S⦄ ⦃sp : Sampler F S⦄
    ⦃hq : Heapq F⦄ {IsTime : F → Type 0} (times : IsTimes fl IsTime) (law : IsHeapq hq)
    (least : PopsLeast hq IsTime) where
  -- A round keeps the order of time.
  round-Timely :
      (io : Inputs) (s u : Simulator F S)
      → Timely IsTime s
      → RoundEffect IsTime io s u
      → Timely IsTime u × (lt u.current_time s.current_time ≡ false)
  round-Timely io s u w r =
      let time = r.event.timestamp in
      let rest_heap = Heap.popped r.event s.event_queue r.rest w.heap r.pop in
      let perm = law.pop_perm s.event_queue r.rest r.event w.heap r.pop in
      let stamped = All-perm (At IsTime) perm w.stamped in
      let now = stamped.0 in
      let added_stamped =
        All-map (ActionAfter IsTime time) (At IsTime) r.added
          (λ e (d, i, eq, p). subst (At IsTime) (sym eq) (times.summed time d now p)) r.each in
      let added_ahead =
        All-map (ActionAfter IsTime time) (λ e. lt e.timestamp time ≡ false) r.added
          (λ e (d, i, eq, p).
            subst (λ x. lt x.timestamp time ≡ false) (sym eq) (times.sum_ge time d now p))
          r.each in
      let ahead = least.pop_least s.event_queue r.rest r.event w.heap w.stamped r.pop in
      (
        record {
          heap = subst (Heap hq) (sym r.queue) (push_all-Heap r.added r.rest rest_heap);
          now = subst IsTime (sym r.clock) now;
          stamped =
              subst (All (At IsTime)) (sym r.queue)
                (All-push_all law (At IsTime) r.added r.rest rest_heap added_stamped stamped.1);
          ahead =
              subst (λ t. NotBefore t u.event_queue) (sym r.clock)
                (subst (NotBefore time) (sym r.queue) (
                  All-push_all law (λ e. lt e.timestamp time ≡ false) r.added r.rest rest_heap
                    added_ahead ahead));
        },
        subst (λ t. lt t s.current_time ≡ false) (sym r.clock)
            (All-perm (λ e. lt e.timestamp s.current_time ≡ false) perm w.ahead).0,
      )

  -- Where `heapq` does what its documentation says, and floats that are not negative are ordered and
  -- add up monotonically: if no event that is queued is before the clock, then after any rounds of
  -- the loop, whatever the outside does in them, no event that is queued is before the clock, and
  -- the clock is not before what it was.
  pub Rounds-Timely :
      (s u : Simulator F S)
      → Timely IsTime s
      → Rounds s u
      → Timely IsTime u × (lt u.current_time s.current_time ≡ false)
  Rounds-Timely s u w here = (w, times.irrefl s.current_time)
  Rounds-Timely s u w (next {t} io rs go e) =
      let (v, le) = Rounds-Timely s t w rs in
      let (x, le') = round-Timely io t u v (
        Every-some (RoundEffect IsTime io t) (round io t) u
          (round-RoundEffect IsTime (delay_seconds-IsTime times) io t) e) in
      (x, times.trans s.current_time t.current_time u.current_time w.now v.now x.now le le')
