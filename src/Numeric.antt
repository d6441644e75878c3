-- ===== src/Numeric.antt =====
-- What the agents of simulation/agents use of Python's `float` and of numpy's `Generator`. Neither
-- is code of the repository that can be computed here, so both are parameters: a type of floats
-- with its operations, and a type of generator states. Laws are asked for where they are used.
pub mod Whole
use liquidity_arena.Prelude.{
  ℕ, ◌+◌, ◌-◌, ◌^◌, ◌<◌, ◌≢◌, ◌⊎◌, [], ◌∷◌, map, length, ◌≡◌, Bool, true, false, Option, List,
  if◌then◌else◌, some,
}
use liquidity_arena.Prelude.Int.{ℤ, pos, negsuc, ◌≤ℤ◌, ◌<ℤ◌}

-- `none` is an exception: a division by zero, or the integer of a NaN or an infinity.
pub record Float (F : Type 0) : Type 0 where
  -- The conversion of an integer, and the literal n / 10 ^ k.
  pub of_int : ℤ → F
  pub literal : ℕ → ℕ → F
  pub infinity : F
  pub neg : F → F
  pub add : F → F → F
  pub sub : F → F → F
  pub mul : F → F → F
  pub div : F → F → Option F
  pub lt : F → F → Bool
  -- `int(x)` and `int(round(x))`
  pub trunc : F → Option ℤ
  pub round : F → Option ℤ

module _ {F : Type 0} ⦃fl : Float F⦄ where
  infixl 65 ◌⊕◌ ◌⊖◌
  infixl 70 ◌⊗◌
  abbrev pub ◌⊕◌ : F → F → F
  a ⊕ b = fl.add a b

  abbrev pub ◌⊖◌ : F → F → F
  a ⊖ b = fl.sub a b

  abbrev pub ◌⊗◌ : F → F → F
  a ⊗ b = fl.mul a b

  abbrev pub lt : F → F → Bool
  lt a b = fl.lt a b

  -- `max(a, b)`: the first of the two unless the second is greater.
  abbrev pub fmax : F → F → F
  fmax a b = if fl.lt a b then b else a

  abbrev pub of_int : ℤ → F
  of_int n = fl.of_int n

  abbrev pub literal : ℕ → ℕ → F
  literal n k = fl.literal n k

-- Functions of numpy. `quotient` is the division of numpy's scalars, which gives an infinity or a
-- NaN for a division by zero.
pub record Numpy (F : Type 0) : Type 0 where
  pub diff : List F → List F
  pub mean : List F → F
  pub std : List F → F
  pub var : List F → F
  pub sqrt : F → F
  pub quotient : F → F → F
  pub log : F → F
  pub exp : F → F

-- A generator gives a value and its next state. `integers low high` draws from low to high - 1, and
-- raises if there is nothing to draw from, or if the range is not one of int64.
pub record Rng (F S : Type 0) : Type 0 where
  pub random : S → F × S
  pub uniform : F → F → S → F × S
  pub integers : ℤ → ℤ → S → Option (ℤ × S)

-- What numpy's documentation says of `integers`, whose draws are of the type int64.
pub record IsRng {F S : Type 0} (g : Rng F S) : Type 0 where
  pub in_range :
      (low high v : ℤ) (s s' : S) → g.integers low high s ≡ some (v, s') → (low ≤ℤ v) × (v <ℤ high)
  pub draws :
      (low high : ℤ) (s : S)
      → negsuc (2 ^ 63 - 1) ≤ℤ low
      → low <ℤ high
      → high ≤ℤ pos (2 ^ 63)
      → (v : ℤ) × (s' : S) × (g.integers low high s ≡ some (v, s'))

-- The other draws of a generator. `normal` raises for a negative scale; `choice` draws an index by
-- its probabilities and raises if they are none; `pick` draws an item and raises if there is none;
-- `poisson` raises for a rate that is negative or too large.
pub record Sampler (F S : Type 0) : Type 0 where
  pub normal : F → F → S → Option (F × S)
  pub choice : List F → S → Option (ℕ × S)
  pub pick : List ℤ → S → Option (ℤ × S)
  pub poisson : F → S → Option (ℕ × S)

-- The sum of a list, and that a value is among its items.
abbrev pub sum : List ℕ → ℕ
sum [] = 0
sum (n ∷ ns) = n + sum ns

abbrev pub Among : ℤ → List ℤ → Type 0
Among v [] = ⊥
Among v (x ∷ xs) = (v ≡ x) ⊎ Among v xs

-- What numpy's documentation says of `normal`, `choice` and `pick`. Probabilities are given in
-- hundredths.
pub record IsSampler {F S : Type 0} ⦃fl : Float F⦄ (sp : Sampler F S) : Type 0 where
  pub chosen : (ps : List F) (k : ℕ) (s s' : S) → sp.choice ps s ≡ some (k, s') → k < length ps
  pub choice_draws :
      (ns : List ℕ) (s : S)
      → sum ns ≡ 100
      → (k : ℕ) × (s' : S) × (sp.choice (map (λ n. literal n 2) ns) s ≡ some (k, s'))
  pub picked : (xs : List ℤ) (v : ℤ) (s s' : S) → sp.pick xs s ≡ some (v, s') → Among v xs
  pub pick_draws :
      (x : ℤ) (xs : List ℤ) (s : S) → (v : ℤ) × (s' : S) × (sp.pick (x ∷ xs) s ≡ some (v, s'))

-- What Python's documentation says of `/` on integers.
pub record IsDivision {F : Type 0} (fl : Float F) : Type 0 where
  pub divides : (a b : ℤ) → b ≢ pos 0 → (q : F) × (fl.div (fl.of_int a) (fl.of_int b) ≡ some q)

-- What Python's documentation says of `<` on floats, a NaN among them.
pub record IsOrder {F : Type 0} (fl : Float F) : Type 0 where
  pub irrefl : (a : F) → fl.lt a a ≡ false
  pub asymm : (a b : F) → fl.lt a b ≡ true → fl.lt b a ≡ false
