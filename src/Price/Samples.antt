-- ===== src/Price/Samples.antt =====
-- A sampler over whole numbers, for tests: it draws the first of what there is.
use liquidity_arena.Prelude.{
  ℕ, zero, suc, ◌+◌, ◌≡◌, ◌≢◌, ◌<◌, refl, Option, none, some, List, [], ◌∷◌, map, length, arith,
  inl,
}
use liquidity_arena.Prelude.Int.{ℤ, pos, negsuc}
use liquidity_arena.Numeric.{Sampler, IsSampler, IsDivision, sum, literal, Among}
use liquidity_arena.Numeric.Whole.{whole, whole_numpy, quotient}
use liquidity_arena.Agents.Samples.{counter}

abbrev first_index : List ℤ → ℕ → Option (ℕ × ℕ)
first_index [] s = none
first_index (p ∷ ps) s = some (0, s + 1)

abbrev first_item : List ℤ → ℕ → Option (ℤ × ℕ)
first_item [] s = none
first_item (x ∷ xs) s = some (x, s + 1)

instance abbrev pub firsts : Sampler ℤ ℕ
firsts = record {
  normal = λ m d s. some (pos 1, s + 1);
  choice = first_index;
  pick = first_item;
  poisson = λ lam s. some (2, s + 1);
}

chosen_lem : (ps : List ℤ) (k s s' : ℕ) → first_index ps s ≡ some (k, s') → k < length ps
chosen_lem [] k s s' e = absurd (ground arith)
chosen_lem (p ∷ ps) k s s' e = ground arith

choice_draws_lem :
    (ns : List ℕ) (s : ℕ)
    → sum ns ≡ 100
    → (k : ℕ) × (s' : ℕ) × (first_index (map (λ n. literal n 2) ns) s ≡ some (k, s'))
choice_draws_lem [] s h = absurd (omega arith)
choice_draws_lem (n ∷ ns) s h = (0, s + 1, refl)

picked_lem : (xs : List ℤ) (v : ℤ) (s s' : ℕ) → first_item xs s ≡ some (v, s') → Among v xs
picked_lem [] v s s' e = absurd (ground arith)
picked_lem (x ∷ xs) v s s' e = inl (ground arith)

pub firsts-IsSampler : IsSampler firsts
firsts-IsSampler = record {
  chosen = chosen_lem;
  choice_draws = choice_draws_lem;
  picked = picked_lem;
  pick_draws = λ x xs s. (x, s + 1, refl);
}

divides_lem : (a b : ℤ) → b ≢ pos 0 → (q : ℤ) × (quotient a b ≡ some q)
divides_lem a (pos zero) h = absurd (h refl)
divides_lem a (pos (suc n)) h = (_, refl)
divides_lem a (negsuc n) h = (_, refl)

pub whole-IsDivision : IsDivision whole
whole-IsDivision = record { divides = divides_lem }
