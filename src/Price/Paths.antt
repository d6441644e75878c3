-- ===== src/Price/Paths.antt =====
-- `generate` beside `step` of the processes in simulation/market/price_process.py.
use liquidity_arena.Prelude.{
  ℕ, zero, suc, ◌≡◌, refl, sym, ap, ◌∙◌, Option, none, some, List, [], ◌∷◌, ◌>>=◌,
}
use liquidity_arena.Prelude.Int.{ℤ}
use liquidity_arena.Numeric.{Float, of_int, Numpy, Sampler}
use liquidity_arena.Price.Arrays.{as_int64, fill_by}
use liquidity_arena.Price.Diffusion.{
  Gbm, Ou, path, gbm_move, ou_move, gbm_step, ou_step, gbm_generate, ou_generate,
}

-- What two processes have in common: the prices, and the state of the generator.
abbrev pub seen : {P S : Type 0} → (P → S) → Option (List ℤ × P) → Option (List ℤ × S)
seen rng none = none
seen rng (some (prices, p)) = some (prices, rng p)

module _ {P S : Type 0} (rng : P → S) where
  seen-bind_bind :
      {A B : Type 0} (m : Option A) (f : A → Option (List ℤ × S)) (g : A → Option B)
      (k : B → Option (List ℤ × P))
      → ((a : A) → f a ≡ seen rng (g a >>= k))
      → (m >>= f) ≡ seen rng ((m >>= g) >>= k)
  seen-bind_bind none f g k h = refl
  seen-bind_bind (some a) f g k h = h a

  seen-bind :
      {A : Type 0} (m : Option A) (f : A → Option (List ℤ × S)) (g : A → Option (List ℤ × P))
      → ((a : A) → f a ≡ seen rng (g a))
      → (m >>= f) ≡ seen rng (m >>= g)
  seen-bind none f g h = refl
  seen-bind (some a) f g h = h a

  seen-cons :
      (price : ℤ) (r : Option (List ℤ × P))
      → (seen rng r >>= (λ (rest, g). some (price ∷ rest, g)))
        ≡ seen rng (r >>= (λ (rest, p). some (price ∷ rest, p)))
  seen-cons price none = refl
  seen-cons price (some (rest, p)) = refl

module _ {F S P : Type 0} ⦃fl : Float F⦄ (move : F → S → Option (F × S)) (at : F → S → P)
    (rng : P → S) (step : P → Option (ℤ × P)) (kept : (s : F) (g : S) → rng (at s g) ≡ g)
    (steps : (s : F) (g : S)
      → step (at s g)
        ≡ (move s g >>= (λ (s', g'). fl.round s' >>= (λ price. some (price, at s' g'))))) where
  path-fill_by : (n : ℕ) (s : F) (g : S) → path move n s g ≡ seen rng (fill_by step n (at s g))
  unfolding path fill_by
  path-fill_by zero s g = ap (λ r. some ([], r)) (sym (kept s g))
  path-fill_by (suc n) s g = rw (steps s g) (
      seen-bind_bind rng (move s g) _ _ _ (λ (s', g').
        seen-bind_bind rng (fl.round s') _ _ _ (λ price.
          seen-bind rng (as_int64 price) _ _ (λ stored.
            ap (λ r. r >>= (λ (rest, g''). some (stored ∷ rest, g''))) (path-fill_by n s' g')
            ∙ seen-cons rng stored (fill_by step n (at s' g'))))))

module _ {F S : Type 0} ⦃fl : Float F⦄ ⦃np : Numpy F⦄ ⦃sp : Sampler F S⦄ where
  -- For a geometric Brownian motion that starts at its initial price, `generate` gives the prices
  -- that as many calls of `step` give, and raises where they do or where a price fits no `int64`;
  -- the generator ends in the same state, and the current price is left as it was.
  pub gbm_generate-fill_by :
      (n : ℕ) (p : Gbm F S)
      → p.current_price ≡ of_int p.initial_price
      → gbm_generate n p ≡ (
          seen (λ q. q.rng) (fill_by gbm_step n p)
          >>= (λ (prices, g). some (prices, record p { rng = g })))
  unfolding gbm_generate gbm_step
  gbm_generate-fill_by n p h =
      ap (λ r. r >>= (λ (prices, g). some (prices, record p { rng = g })))
        (path-fill_by (gbm_move p) (λ s g. record p { current_price = s; rng = g }) (λ q. q.rng)
            gbm_step (λ s g. refl) (λ s g. refl) n (of_int p.initial_price) p.rng
          ∙ ap (λ x. seen (λ q. q.rng) (fill_by gbm_step n (record p { current_price = x })))
              (sym h))

  -- For a process of Ornstein and Uhlenbeck that starts at its initial price likewise.
  pub ou_generate-fill_by :
      (n : ℕ) (p : Ou F S)
      → p.current_price ≡ of_int p.initial_price
      → ou_generate n p ≡ (
          seen (λ q. q.rng) (fill_by ou_step n p)
          >>= (λ (prices, g). some (prices, record p { rng = g })))
  unfolding ou_generate ou_step
  ou_generate-fill_by n p h =
      ap (λ r. r >>= (λ (prices, g). some (prices, record p { rng = g })))
        (path-fill_by (ou_move p) (λ s g. record p { current_price = s; rng = g }) (λ q. q.rng)
            ou_step (λ s g. refl) (λ s g. refl) n (of_int p.initial_price) p.rng
          ∙ ap (λ x. seen (λ q. q.rng) (fill_by ou_step n (record p { current_price = x })))
              (sym h))
