-- ===== src/Simulator/Events.antt =====
-- simulation/simulator.py: `EventType`, `Event` and `EventQueue`, which is a list that only Python's
-- `heapq` changes. That is a parameter, with what its documentation promises.
use liquidity_arena.Prelude.{
  ℕ, ◌+◌, ◌≡◌, Bool, true, false, Option, some, List, [], ◌∷◌, All, if◌then◌else◌,
}
use liquidity_arena.Numeric.{Float, lt}
use liquidity_arena.Simulator.Traders.{AgentId}

-- `ORDER_CANCEL` and `BOOK_UPDATE` are never scheduled.
pub data EventType : Type 0 where
  midprice_move agent_action order_cancel book_update metrics_sample : EventType

abbrev pub same_type : EventType → EventType → Bool
same_type EventType.midprice_move EventType.midprice_move = true
same_type EventType.agent_action EventType.agent_action = true
same_type EventType.order_cancel EventType.order_cancel = true
same_type EventType.book_update EventType.book_update = true
same_type EventType.metrics_sample EventType.metrics_sample = true
same_type _ _ = false

-- Events are compared by their timestamps only. No event has `data`.
pub record Event (F : Type 0) : Type 0 where
  pub timestamp : F
  pub event_type : EventType
  pub agent_id : Option AgentId

-- `bool(self.event_queue)`
abbrev pub has_events : {F : Type 0} → List (Event F) → Bool
has_events [] = false
has_events (e ∷ es) = true

-- How many events of a type a list has.
abbrev pub count_of : {F : Type 0} → EventType → List (Event F) → ℕ
count_of t [] = 0
count_of t (e ∷ es) = (if same_type t e.event_type then 1 else 0) + count_of t es

-- `heapq.heappush(heap, event)` and `heapq.heappop(heap)`, which raises on an empty list.
pub record Heapq (F : Type 0) : Type 0 where
  pub heappush : Event F → List (Event F) → List (Event F)
  pub heappop : List (Event F) → Option (Event F × List (Event F))

-- A list that only these two have changed.
pub data Heap {F : Type 0} (hq : Heapq F) : List (Event F) → Type 0 where
  empty : Heap hq []
  pushed : (e : Event F) (p q : List (Event F)) → Heap hq q → p ≡ hq.heappush e q → Heap hq p
  popped : (e : Event F) (p q : List (Event F)) → Heap hq p → hq.heappop p ≡ some (e, q) → Heap hq q

module _ {F : Type 0} ⦃fl : Float F⦄ where
  -- No event of a list is before the time.
  abbrev pub NotBefore : F → List (Event F) → Type 0
  NotBefore time es = All (λ e. lt e.timestamp time ≡ false) es
