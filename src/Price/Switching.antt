-- ===== src/Price/Switching.antt =====
-- The regimes of `RegimeSwitchingProcess` in simulation/market/price_process.py as a step relation.
use liquidity_arena.Prelude.{
  ℕ, zero, suc, ◌<◌, length, ◌+◌, ◌≡◌, ◌≢◌, refl, subst, ◌⊎◌, inl, inr, true, false, [], ◌∷◌, map,
  arith,
}
use liquidity_arena.Prelude.Int.{ℤ, pos, negsuc, neg, max}
use liquidity_arena.Prelude.Results.{by_case, Gives, Gives-bind}
use liquidity_arena.Numeric.{
  Float, ◌⊕◌, ◌⊗◌, of_int, literal, lt, Numpy, Rng, Sampler, IsSampler, IsDivision, sum, Among, ◌⊖◌,
}
use liquidity_arena.Price.Regimes.{
  Regime, calm, volatile, news, regime_of, same_regime, RegimeProcess, transitions, jump_on, enter,
  switch, maybe_switch_regime,
}

same_regime_refl : (r : Regime) → same_regime r r ≡ true
same_regime_refl calm = refl
same_regime_refl volatile = refl
same_regime_refl news = refl

same_regime-ne : (r s : Regime) → same_regime r s ≡ false → r ≢ s
same_regime-ne r s e h = cc (same_regime_refl r)

regime_of-Gives : (k : ℕ) → k < 3 → Gives (λ r. Unit {0}) (regime_of k)
regime_of-Gives zero h = (calm, refl, tt)
regime_of-Gives (suc zero) h = (volatile, refl, tt)
regime_of-Gives (suc (suc zero)) h = (news, refl, tt)
regime_of-Gives (suc (suc (suc n))) h = absurd (omega arith)

up_or_down : (v : ℤ) → Among v (negsuc 0 ∷ pos 1 ∷ []) → (v ≡ negsuc 0) ⊎ (v ≡ pos 1)
up_or_down v (inl down) = inl down
up_or_down v (inr (inl up)) = inr up
up_or_down v (inr (inr none_left)) = absurd none_left

max-ne-zero : (d : ℤ) → max d (pos 1) ≢ pos 0
unfolding max
max-ne-zero d h = absurd (ground arith)

transitions-sum : (r : Regime) → sum (transitions r) ≡ 100
transitions-sum calm = refl
transitions-sum volatile = refl
transitions-sum news = refl

transitions-length : (F : Type 0) (f : ℕ → F) (r : Regime) → length (map f (transitions r)) ≡ 3
transitions-length F f calm = refl
transitions-length F f volatile = refl
transitions-length F f news = refl

module _ {F S : Type 0} ⦃fl : Float F⦄ where
  -- What one check for a switch may do, whatever the draws are: count one step more in the regime,
  -- or enter another regime with the count at zero; the price jumps exactly on entering the news,
  -- by the jump size up or down. The generator ends in the state `s`.
  pub data Switches (p : RegimeProcess F S) : RegimeProcess F S → Type 0 where
    stays : (s : S) → Switches p (record p { steps_in_regime = p.steps_in_regime + 1; rng = s })
    moves :
        (r : Regime) (s : S)
        → r ≢ p.current_regime
        → r ≢ news
        → Switches p (record p { current_regime = r; steps_in_regime = 0; rng = s })
    jumps :
        (direction : ℤ) (s : S)
        → (direction ≡ negsuc 0) ⊎ (direction ≡ pos 1)
        → news ≢ p.current_regime
        → Switches p (record p {
          current_regime = news;
          steps_in_regime = 0;
          current_price = p.current_price ⊕ of_int direction ⊗ (p.regimes news).jump_size;
          rng = s;
        })

module _ {F S : Type 0} ⦃fl : Float F⦄ ⦃np : Numpy F⦄ ⦃g : Rng F S⦄ ⦃sp : Sampler F S⦄
    (laws : IsSampler sp) (division : IsDivision fl) where
  -- The process that has counted one more step.
  abbrev counted : RegimeProcess F S → S → RegimeProcess F S
  counted p s = record p { steps_in_regime = p.steps_in_regime + 1; rng = s }

  jump_on-Gives :
      (r : Regime) (p : RegimeProcess F S) (s : S)
      → r ≢ p.current_regime
      → Gives
          (Switches p)
          (jump_on r (record p { current_regime = r; steps_in_regime = 0; rng = s }))
  jump_on-Gives calm p s h = (_, refl, moves calm s h (cc))
  jump_on-Gives volatile p s h = (_, refl, moves volatile s h (cc))
  jump_on-Gives news p s h =
      let directions = negsuc 0 ∷ pos 1 ∷ [] in
      let (v, s', e) = laws.pick_draws (negsuc 0) (pos 1 ∷ []) s in
      Gives-bind (λ (r : ℤ × S). Among r.0 directions) (Switches p) (sp.pick directions s) _
        ((v, s'), e, laws.picked directions v s s' e)
        (λ (v, s') a. (_, refl, jumps v s' (up_or_down v a) h))

  enter-Gives :
      (r : Regime) (p : RegimeProcess F S) (s : S) → Gives (Switches p) (enter r (counted p s))
  enter-Gives r p s =
      by_case (Gives (Switches p)) (same_regime r p.current_regime) (λ e. (_, refl, stays s))
        (λ e. jump_on-Gives r p s (same_regime-ne r p.current_regime e))

  switch-Gives : (p : RegimeProcess F S) (s : S) → Gives (Switches p) (switch (counted p s))
  unfolding switch
  switch-Gives p s =
      let f : ℕ → F = λ n. literal n 2 in
      let row = transitions p.current_regime in
      let (k, s', e) = laws.choice_draws row s (transitions-sum p.current_regime) in
      let size = transitions-length F f p.current_regime in
      Gives-bind (λ (r : ℕ × S). r.0 < 3) (Switches p) (sp.choice (map f row) s) _
        ((k, s'), e, subst (λ n. k < n) size (laws.chosen (map f row) k s s' e))
        (λ (k, s') h.
          Gives-bind (λ r. Unit {0}) (Switches p) (regime_of k) _ (regime_of-Gives k h)
            (λ r u. enter-Gives r p s'))

  -- Where numpy's draws and the division of integers do what their documentation says, a check for
  -- a switch raises nothing, whatever is drawn: it counts one more step in the regime, or enters
  -- another regime with the count at zero, and the price changes exactly on entering the news, by
  -- the jump size up or down.
  pub maybe_switch_regime-Switches :
      (p : RegimeProcess F S) → Gives (Switches p) (maybe_switch_regime p)
  unfolding maybe_switch_regime
  maybe_switch_regime-Switches p =
      let d = max (p.regimes p.current_regime).duration_mean (pos 1) in
      let (q, e) = division.divides (neg (pos (p.steps_in_regime + 1))) d (max-ne-zero _) in
      Gives-bind (λ q. Unit {0}) (Switches p)
        (fl.div (of_int (neg (pos (p.steps_in_regime + 1)))) (of_int d)) _ (q, e, tt)
        (λ ratio u.
          by_case (Gives (Switches p))
            (lt (g.random p.rng).0 ((of_int (pos 1) ⊖ np.exp ratio) ⊗ literal 1 1))
            (λ h. switch-Gives p (g.random p.rng).1) (λ h. (_, refl, stays (g.random p.rng).1)))
