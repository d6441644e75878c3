-- ===== src/Price/Hawkes.antt =====
-- simulation/market/price_process.py: `HawkesProcess`. `none` is an exception.
use liquidity_arena.Prelude.{
  ℕ, zero, suc, ◌+◌, Option, none, some, List, [], ◌∷◌, ◌++◌, ◌>>=◌, if◌then◌else◌,
}
use liquidity_arena.Prelude.Int.{pos}
use liquidity_arena.Numeric.{Float, ◌⊕◌, ◌⊖◌, ◌⊗◌, of_int, literal, lt, fmax, Numpy, Rng, Sampler}

pub record HawkesProcess (F S : Type 0) : Type 0 where
  pub mu : F
  pub alpha : F
  pub beta : F
  pub rng : S
  pub event_times : List F
  pub current_time : F

module _ {F : Type 0} ⦃fl : Float F⦄ where
  -- The events that are later than the cutoff.
  unfoldable pub prune : F → List F → List F
  prune cutoff [] = []
  prune cutoff (t ∷ ts) = let rest = prune cutoff ts in if lt cutoff t then t ∷ rest else rest

module _ {F S : Type 0} ⦃fl : Float F⦄ where
  -- `__init__`, whose assertion fails unless alpha / beta < 1.
  unfoldable pub new_hawkes : F → F → F → S → Option (HawkesProcess F S)
  new_hawkes base excitation decay seeded = do
    ratio ← fl.div excitation decay
    let process : HawkesProcess F S = record {
      mu = base;
      alpha = excitation;
      beta = decay;
      rng = seeded;
      event_times = [];
      current_time = of_int (pos 0);
    }
    if lt ratio (of_int (pos 1)) then some process else none

  abbrev pub branching_ratio : HawkesProcess F S → Option F
  branching_ratio h = fl.div h.alpha h.beta

  abbrev pub reset : HawkesProcess F S → HawkesProcess F S
  reset h = record h { event_times = []; current_time = of_int (pos 0) }

module _ {F S : Type 0} ⦃fl : Float F⦄ ⦃np : Numpy F⦄ where
  unfoldable pub add_kernels : HawkesProcess F S → List F → F → F
  add_kernels h [] lam = lam
  add_kernels h (t ∷ ts) lam =
      add_kernels h ts (lam ⊕ h.alpha ⊗ np.exp (fl.neg h.beta ⊗ (h.current_time ⊖ t)))

  unfoldable pub intensity : HawkesProcess F S → F
  intensity h = add_kernels h h.event_times h.mu

module _ {F S : Type 0} ⦃fl : Float F⦄ ⦃np : Numpy F⦄ ⦃g : Rng F S⦄ where
  -- "Poisson thinning": the loop over the candidates left.
  unfoldable pub thin : ℕ → F → ℕ → HawkesProcess F S → Option (ℕ × HawkesProcess F S)
  thin zero lam_bar n_events h = some (n_events, h)
  thin (suc candidates) lam_bar n_events h = do
    let (draw, s) = g.random h.rng
    ratio ← fl.div (intensity h) (fmax lam_bar (literal 1 10))
    let h' = record h { rng = s }
    let accepted = record h' { event_times = h.event_times ++ h.current_time ∷ [] }
    let hit = lt draw ratio
    thin candidates lam_bar (if hit then n_events + 1 else n_events) (if hit then accepted else h')

module _ {F S : Type 0} ⦃fl : Float F⦄ ⦃np : Numpy F⦄ ⦃g : Rng F S⦄ ⦃sp : Sampler F S⦄ where
  unfoldable pub hawkes_step : F → HawkesProcess F S → Option (ℕ × HawkesProcess F S)
  hawkes_step dt h = do
    let now = h.current_time ⊕ dt
    memory ← fl.div (of_int (pos 10)) h.beta
    let h' = record h { current_time = now; event_times = prune (now ⊖ memory) h.event_times }
    let lam_bar = intensity h' ⊕ h.alpha
    (candidates, s) ← sp.poisson (lam_bar ⊗ dt) h.rng
    thin candidates lam_bar 0 (record h' { rng = s })
