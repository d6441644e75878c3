-- ===== src/Simulator/SortedQueue.antt =====
-- A queue of events for tests: a list in the order of the timestamps, over whole numbers.
use mathlib.Core.List.{Permᴰ}
use mathlib.Core.List.Permᴰ
use liquidity_arena.Prelude.{
  ◌≡◌, refl, sym, ap, subst, false, none, some, List, [], ◌∷◌, All-map, Bool-cases, inl, inr,
  Option, arith, if◌then◌else◌,
}
use liquidity_arena.Prelude.Int.{ℤ, pos, negsuc, ltb_ℤ, floor_div, ◌+ℤ◌}
use liquidity_arena.Numeric.Whole.{whole, quotient}
use liquidity_arena.Simulator.Events.{Event, Heapq, Heap, NotBefore}
use liquidity_arena.Simulator.Queue.{IsHeapq, PopsLeast, All-perm}
use liquidity_arena.Simulator.Clock.{IsTimes}

abbrev insert : Event ℤ → List (Event ℤ) → List (Event ℤ)
insert e [] = e ∷ []
insert e (x ∷ xs) = if ltb_ℤ x.timestamp e.timestamp then x ∷ insert e xs else e ∷ x ∷ xs

abbrev take_first : List (Event ℤ) → Option (Event ℤ × List (Event ℤ))
take_first [] = none
take_first (x ∷ xs) = some (x, xs)

instance abbrev pub sorted : Heapq ℤ
sorted = record { heappush = insert; heappop = take_first }

insert-perm : (e : Event ℤ) (q : List (Event ℤ)) → Permᴰ (insert e q) (e ∷ q)
insert-perm e [] = Permᴰ.refl _
insert-perm e (x ∷ xs) = elim (Bool-cases (ltb_ℤ x.timestamp e.timestamp)) [
  | inl h ↦ rw h (Permᴰ.trans (Permᴰ.cons refl (insert-perm e xs)) (Permᴰ.swap refl refl))
  | inr h ↦ rw h (Permᴰ.refl _)
]

perm-insert : (e : Event ℤ) (q : List (Event ℤ)) → Permᴰ (e ∷ q) (insert e q)
perm-insert e [] = Permᴰ.refl _
perm-insert e (x ∷ xs) = elim (Bool-cases (ltb_ℤ x.timestamp e.timestamp)) [
  | inl h ↦ rw h (Permᴰ.trans (Permᴰ.swap refl refl) (Permᴰ.cons refl (perm-insert e xs)))
  | inr h ↦ rw h (Permᴰ.refl _)
]

take_first-perm :
    (p q : List (Event ℤ)) (e : Event ℤ) → take_first p ≡ some (e, q) → Permᴰ p (e ∷ q)
take_first-perm [] q e h = absurd (cc h)
take_first-perm (x ∷ xs) q e h =
    let k = ap {B = Event ℤ × List (Event ℤ)} (elim [ none ↦ (x, xs) | some r ↦ r ]) h in
    Permᴰ.cons (ap (λ r. r.0) k) (subst (Permᴰ xs) (ap (λ r. r.1) k) (Permᴰ.refl xs))

pub sorted-IsHeapq : IsHeapq sorted
sorted-IsHeapq = record {
  push_perm = λ e q h. insert-perm e q;
  pops = λ x xs h. (x, xs, refl);
  pop_perm = λ p q e h k. take_first-perm p q e k;
}

abbrev InOrder : List (Event ℤ) → Type 0
InOrder [] = Unit {0}
InOrder (x ∷ xs) = NotBefore x.timestamp xs × InOrder xs

insert-InOrder : (e : Event ℤ) (q : List (Event ℤ)) → InOrder q → InOrder (insert e q)
insert-InOrder e [] w = (tt, tt)
insert-InOrder e (x ∷ xs) w = elim (Bool-cases (ltb_ℤ x.timestamp e.timestamp)) [
  | inl h ↦ rw h (
    All-perm (λ y. ltb_ℤ y.timestamp x.timestamp ≡ false) (perm-insert e xs)
        (ground (arith, h), w.0),
    insert-InOrder e xs w.1,
  )
  | inr h ↦ rw h (
    (
      h,
      All-map (λ y. ltb_ℤ y.timestamp x.timestamp ≡ false)
          (λ y. ltb_ℤ y.timestamp e.timestamp ≡ false) xs (λ y k. ground (arith, h, k)) w.0,
    ),
    w,
  )
]

take_first-InOrder :
    (p q : List (Event ℤ)) (e : Event ℤ) → InOrder p → take_first p ≡ some (e, q) → InOrder (e ∷ q)
take_first-InOrder [] q e w h = absurd (cc h)
take_first-InOrder (x ∷ xs) q e w h =
    subst {A = Event ℤ × List (Event ℤ)} (λ r. InOrder (r.0 ∷ r.1))
      (ap (elim [ none ↦ (x, xs) | some r ↦ r ]) h) w

Heap-InOrder : (q : List (Event ℤ)) → Heap sorted q → InOrder q
Heap-InOrder _ Heap.empty = tt
Heap-InOrder _ (Heap.pushed e p q h k) =
    subst InOrder (sym k) (insert-InOrder e q (Heap-InOrder q h))
Heap-InOrder _ (Heap.popped e p q h k) = (take_first-InOrder p q e (Heap-InOrder p h) k).1

abbrev pub IsNat : ℤ → Type 0
IsNat a = ltb_ℤ a (pos 0) ≡ false

pub sorted-PopsLeast : PopsLeast sorted IsNat
sorted-PopsLeast = record {
  pop_least = λ p q e h w k. (take_first-InOrder p q e (Heap-InOrder p h) k).0;
}

divided_lem : (a q : ℤ) → IsNat a → quotient a (pos 1_000_000) ≡ some q → IsNat q
unfolding floor_div
divided_lem (pos n) q h e = subst IsNat (ap (elim [ none ↦ pos 0 | some r ↦ r ]) e) (ground arith)
divided_lem (negsuc n) q h e = absurd (ground (arith, h))

summed_lem : (a b : ℤ) → IsNat a → IsNat b → IsNat (a +ℤ b) × (ltb_ℤ (a +ℤ b) a ≡ false)
unfolding ◌+ℤ◌
summed_lem (pos a) (pos b) h k = (ground arith, ground arith)
summed_lem (negsuc a) b h k = absurd (ground (arith, h))
summed_lem (pos a) (negsuc b) h k = absurd (ground (arith, k))

pub whole-IsTimes : IsTimes whole IsNat
whole-IsTimes = record {
  zero = refl;
  positive = λ a h. ground (arith, h);
  nonneg = λ a h. h;
  divided = λ a q h e. divided_lem a q h e;
  irrefl = λ a. ground arith;
  summed = λ a b h k. (summed_lem a b h k).0;
  sum_ge = λ a b h k. (summed_lem a b h k).1;
  trans = λ a b c ha hb hc h k. ground (arith, h, k);
}
