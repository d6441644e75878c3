-- ===== src/Price/Arrivals.antt =====
-- The events of `HawkesProcess` in simulation/market/price_process.py.
use liquidity_arena.Prelude.{
  ℕ, zero, suc, ◌+◌, ◌≤◌, ◌≡◌, refl, sym, ap, ◌∙◌, Bool, true, false, Bool-cases, inl, inr, some,
  List, [], ◌∷◌, ◌++◌, append-nil, append_assoc, replicate, arith, if◌then◌else◌,
}
use liquidity_arena.Prelude.Int.{pos}
use liquidity_arena.Prelude.Results.{Every, Every-bind, Every-bind_of, Every-mono, Every-some}
use liquidity_arena.Numeric.{Float, ◌⊕◌, ◌⊖◌, ◌⊗◌, of_int, literal, lt, fmax, Numpy, Rng, Sampler}
use liquidity_arena.Price.Hawkes.{HawkesProcess, prune, add_kernels, intensity, thin, hawkes_step}

module _ {F : Type 0} ⦃fl : Float F⦄ where
  -- The second list has exactly the times of the first that are later than the cutoff, in order.
  pub data Later (cutoff : F) : List F → List F → Type 0 where
    nothing : Later cutoff [] []
    keep :
        {t : F} {ts ks : List F}
        → lt cutoff t ≡ true
        → Later cutoff ts ks
        → Later cutoff (t ∷ ts) (t ∷ ks)
    drop :
        {t : F} {ts ks : List F}
        → lt cutoff t ≡ false
        → Later cutoff ts ks
        → Later cutoff (t ∷ ts) ks

  prune-Later : (cutoff : F) (ts : List F) → Later cutoff ts (prune cutoff ts)
  unfolding prune
  prune-Later cutoff [] = nothing
  prune-Later cutoff (t ∷ ts) = elim (Bool-cases (lt cutoff t)) [
    | inl e ↦ rw e (keep e (prune-Later cutoff ts))
    | inr e ↦ rw e (drop e (prune-Later cutoff ts))
  ]

module _ {F : Type 0} ⦃fl : Float F⦄ ⦃np : Numpy F⦄ where
  -- The rate behind the events at the times: the base rate, and for each event in order the
  -- excitation, decayed since.
  abbrev pub rate_at : (now excitation decay : F) → List F → F → F
  rate_at now excitation decay [] lam = lam
  rate_at now excitation decay (t ∷ ts) lam =
      rate_at now excitation decay ts (lam ⊕ excitation ⊗ np.exp (fl.neg decay ⊗ (now ⊖ t)))

module _ {F S : Type 0} ⦃fl : Float F⦄ ⦃np : Numpy F⦄ where
  add_kernels-rate :
      (h : HawkesProcess F S) (ts : List F) (lam : F)
      → add_kernels h ts lam ≡ rate_at h.current_time h.alpha h.beta ts lam
  unfolding add_kernels
  add_kernels-rate h [] lam = refl
  add_kernels-rate h (t ∷ ts) lam = add_kernels-rate h ts _

  intensity-rate :
      (h : HawkesProcess F S)
      → intensity h ≡ rate_at h.current_time h.alpha h.beta h.event_times h.mu
  unfolding intensity
  intensity-rate h = add_kernels-rate h h.event_times h.mu

module _ {F S : Type 0} where
  -- From the first process to the second, k events happened at the current time.
  pub record Excites (k : ℕ) (h h' : HawkesProcess F S) : Type 0 where
    pub events : h'.event_times ≡ h.event_times ++ replicate k h.current_time
    pub clock : h'.current_time ≡ h.current_time
    pub base : h'.mu ≡ h.mu
    pub excitation : h'.alpha ≡ h.alpha
    pub decay : h'.beta ≡ h.beta

  Excites-zero : (h : HawkesProcess F S) (s : S) → Excites 0 h (record h { rng = s })
  Excites-zero h s = record {
    events = sym (append-nil h.event_times);
    clock = refl;
    base = refl;
    excitation = refl;
    decay = refl;
  }

  Excites-suc :
      (k : ℕ) (h h' : HawkesProcess F S) (s : S)
      → Excites k (record h { rng = s; event_times = h.event_times ++ h.current_time ∷ [] }) h'
      → Excites (suc k) h h'
  Excites-suc k h h' s x = record {
    events =
        x.events ∙ append_assoc h.event_times (h.current_time ∷ []) (replicate k h.current_time);
    clock = x.clock;
    base = x.base;
    excitation = x.excitation;
    decay = x.decay;
  }

  Excites-rng :
      (k : ℕ) (h h' : HawkesProcess F S) (s : S)
      → Excites k (record h { rng = s }) h'
      → Excites k h h'
  Excites-rng k h h' s x = record {
    events = x.events;
    clock = x.clock;
    base = x.base;
    excitation = x.excitation;
    decay = x.decay;
  }

  -- Of the candidates some are accepted, and counted behind n.
  pub record Thins (candidates n : ℕ) (h : HawkesProcess F S) (r : ℕ × HawkesProcess F S)
      : Type 0 where
    pub accepted : ℕ
    pub bounded : accepted ≤ candidates
    pub counted : r.0 ≡ n + accepted
    pub excites : Excites accepted h r.1

  advance :
      (candidates n : ℕ) (h : HawkesProcess F S) (s : S) (hit : Bool) (r : ℕ × HawkesProcess F S)
      → let h' = record h { rng = s } in
        let accepted = record h' { event_times = h.event_times ++ h.current_time ∷ [] } in
        Thins candidates (if hit then n + 1 else n) (if hit then accepted else h') r
        → Thins (suc candidates) n h r
  advance candidates n h s true r x = record {
    accepted = suc x.accepted;
    bounded = omega (arith, x.bounded);
    counted = omega (arith, x.counted);
    excites = Excites-suc x.accepted h r.1 s x.excites;
  }
  advance candidates n h s false r x = record {
    accepted = x.accepted;
    bounded = omega (arith, x.bounded);
    counted = x.counted;
    excites = Excites-rng x.accepted h r.1 s x.excites;
  }

module _ {F S : Type 0} ⦃fl : Float F⦄ ⦃np : Numpy F⦄ ⦃g : Rng F S⦄ where
  thin-Thins :
      (candidates : ℕ) (lam_bar : F) (n : ℕ) (h : HawkesProcess F S)
      → Every (Thins candidates n h) (thin candidates lam_bar n h)
  unfolding thin
  thin-Thins zero lam_bar n h = record {
    accepted = 0;
    bounded = omega arith;
    counted = omega arith;
    excites = Excites-zero h h.rng;
  }
  thin-Thins (suc candidates) lam_bar n h =
      let (draw, s) = g.random h.rng in
      let h' = record h { rng = s } in
      let accepted = record h' { event_times = h.event_times ++ h.current_time ∷ [] } in
      Every-bind (Thins (suc candidates) n h) (fl.div (intensity h) (fmax lam_bar (literal 1 10))) _
        (λ ratio.
          let hit = lt draw ratio in
          Every-mono (Thins candidates (if hit then n + 1 else n) (if hit then accepted else h'))
            (Thins (suc candidates) n h) _ (λ r x. advance candidates n h s hit r x)
            (thin-Thins candidates lam_bar (if hit then n + 1 else n)
              (if hit then accepted else h')))

module _ {F S : Type 0} ⦃fl : Float F⦄ ⦃np : Numpy F⦄ ⦃g : Rng F S⦄ ⦃sp : Sampler F S⦄ where
  -- What a step by dt gives: the time, the events that are kept, and the new ones.
  pub record Arrives (dt : F) (h : HawkesProcess F S) (r : ℕ × HawkesProcess F S) : Type 0 where
    pub clock : r.1.current_time ≡ h.current_time ⊕ dt
    pub memory : F
    pub remembers : fl.div (of_int (pos 10)) h.beta ≡ some memory
    pub kept : List F
    pub recent : Later (h.current_time ⊕ dt ⊖ memory) h.event_times kept
    pub events : r.1.event_times ≡ kept ++ replicate r.0 (h.current_time ⊕ dt)
    pub candidates : ℕ
    pub rng : S
    pub drawn :
        sp.poisson ((rate_at (h.current_time ⊕ dt) h.alpha h.beta kept h.mu ⊕ h.alpha) ⊗ dt) h.rng
        ≡ some (candidates, rng)
    pub bounded : r.0 ≤ candidates
    pub base : r.1.mu ≡ h.mu
    pub excitation : r.1.alpha ≡ h.alpha
    pub decay : r.1.beta ≡ h.beta

  hawkes_step-Every : (dt : F) (h : HawkesProcess F S) → Every (Arrives dt h) (hawkes_step dt h)
  unfolding hawkes_step
  hawkes_step-Every dt h =
      Every-bind_of (Arrives dt h) (fl.div (of_int (pos 10)) h.beta) _ (λ memory' em.
        let now = h.current_time ⊕ dt in
        let h' = record h {
          current_time = now;
          event_times = prune (now ⊖ memory') h.event_times;
        } in
        let bar' = intensity h' ⊕ h.alpha in
        Every-bind_of (Arrives dt h) (sp.poisson (bar' ⊗ dt) h.rng) _ (λ (candidates', s) ep.
          Every-mono (Thins candidates' 0 (record h' { rng = s })) (Arrives dt h) _
            (λ r x. record {
              clock = x.excites.clock;
              memory = memory';
              remembers = em;
              events =
                  x.excites.events
                  ∙ ap (λ n. h'.event_times ++ replicate n now) (sym (omega (arith, x.counted)));
              kept = h'.event_times;
              recent = prune-Later (now ⊖ memory') h.event_times;
              candidates = candidates';
              rng = s;
              drawn =
                  ap (λ a. sp.poisson ((a ⊕ h.alpha) ⊗ dt) h.rng) (sym (intensity-rate h')) ∙ ep;
              bounded = omega (arith, x.bounded, x.counted);
              base = x.excites.base;
              excitation = x.excites.excitation;
              decay = x.excites.decay;
            })
            (thin-Thins candidates' bar' 0 (record h' { rng = s }))))

  -- A step that raises nothing moves the time on by dt, forgets exactly the events that are not
  -- later than 10 / beta before it, draws the number of candidates for the rate that the kept events
  -- give at the new time, raised by alpha, and returns the number of the events that it adds behind them,
  -- all at the new time and no more of them than the candidates drawn; the parameters stay.
  pub hawkes_step-Arrives :
      (dt : F) (h h' : HawkesProcess F S) (n : ℕ)
      → hawkes_step dt h ≡ some (n, h')
      → Arrives dt h (n, h')
  hawkes_step-Arrives dt h h' n e =
      Every-some (Arrives dt h) (hawkes_step dt h) (n, h') (hawkes_step-Every dt h) e
