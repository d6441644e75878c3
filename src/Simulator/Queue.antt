-- ===== src/Simulator/Queue.antt =====
-- What the simulator's event queue relies on: the documented behaviour of Python's `heapq`, on lists that
-- only it has changed.
use mathlib.Core.List.{Permᴰ}
use liquidity_arena.Prelude.{
  ℕ, ◌+◌, ◌≡◌, refl, ap, ◌∙◌, some, List, ◌∷◌, All, length, if◌then◌else◌, subst, arith,
}
use liquidity_arena.Numeric.{Float}
use liquidity_arena.Simulator.Events.{EventType, same_type, Event, count_of, Heapq, Heap, NotBefore}

-- A push adds the event, and a pop takes one event out, unless there is none.
pub record IsHeapq {F : Type 0} (hq : Heapq F) : Type 0 where
  pub push_perm : (e : Event F) (q : List (Event F)) → Heap hq q → Permᴰ (hq.heappush e q) (e ∷ q)
  pub pops :
      (x : Event F) (xs : List (Event F))
      → Heap hq (x ∷ xs)
      → (e : Event F) × (q : List (Event F)) × (hq.heappop (x ∷ xs) ≡ some (e, q))
  pub pop_perm :
      (p q : List (Event F)) (e : Event F)
      → Heap hq p
      → hq.heappop p ≡ some (e, q)
      → Permᴰ p (e ∷ q)

-- A pop takes a smallest event out, where the timestamps are of a kind that `<` orders totally.
pub record PopsLeast {F : Type 0} ⦃fl : Float F⦄ (hq : Heapq F) (IsTime : F → Type 0) : Type 0 where
  pub pop_least :
      (p q : List (Event F)) (e : Event F)
      → Heap hq p
      → All (λ x. IsTime x.timestamp) p
      → hq.heappop p ≡ some (e, q)
      → NotBefore e.timestamp q

pub All-perm {κ} :
    {A : Type 0} (P : A → Type κ) {xs ys : List A} → Permᴰ xs ys → All P xs → All P ys
All-perm P Permᴰ.nil h = tt
All-perm P (Permᴰ.cons e p) h = (subst P e h.0, All-perm P p h.1)
All-perm P (Permᴰ.swap e e') h = (subst P e' h.1.0, (subst P e h.0, h.1.1))
All-perm P (Permᴰ.trans p q) h = All-perm P q (All-perm P p h)

pub count_of-perm :
    {F : Type 0} (t : EventType) {xs ys : List (Event F)}
    → Permᴰ xs ys
    → count_of t xs ≡ count_of t ys
count_of-perm t Permᴰ.nil = refl
count_of-perm {F} t (Permᴰ.cons {l₁ = xs} e p) =
    ap {B = ℕ} (λ (x : Event F). (if same_type t x.event_type then 1 else 0) + count_of t xs) e
    ∙ omega (arith, count_of-perm t p)
count_of-perm {F} t (Permᴰ.swap e e') = omega (
  arith,
  ap {B = ℕ} (λ (x : Event F). if same_type t x.event_type then 1 else 0) e,
  ap {B = ℕ} (λ (x : Event F). if same_type t x.event_type then 1 else 0) e',
)
count_of-perm t (Permᴰ.trans p q) = count_of-perm t p ∙ count_of-perm t q

pub length-perm : {A : Type 0} {xs ys : List A} → Permᴰ xs ys → length xs ≡ length ys
length-perm Permᴰ.nil = refl
length-perm (Permᴰ.cons e p) = omega (arith, length-perm p)
length-perm (Permᴰ.swap e e') = refl
length-perm (Permᴰ.trans p q) = length-perm p ∙ length-perm q
