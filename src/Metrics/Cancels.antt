-- ===== src/Metrics/Cancels.antt =====
-- `record_cancel` of simulation/metrics.py.
use mathlib.Core.List.{reverse, reverse-append, reverse-reverse, reverse-cons}
use liquidity_arena.Prelude.{
  ℕ, ◌+◌, ◌≡◌, refl, sym, ap, subst, ◌∙◌, ◌⊎◌, inl, inr, true, false, List, [], ◌∷◌, ◌++◌, All,
  All-append, Bool-cases, append_assoc,
}
use liquidity_arena.Metrics.{
  QuoteRecord, MetricsEngine, is_live, cancelled, cancel_first, record_cancel,
}

All-reverse {ℓ κ} : {A : Type ℓ} (P : A → Type κ) (xs : List A) → All P xs → All P (reverse xs)
All-reverse P [] h = tt
All-reverse P (x ∷ xs) h =
    subst (All P) (sym (reverse-cons x xs))
      (All-append P (reverse xs) (x ∷ []) (All-reverse P xs h.1) (h.0, tt))

reverse-middle {ℓ} :
    {A : Type ℓ} (xs : List A) (y : A) (zs : List A)
    → reverse (xs ++ y ∷ zs) ≡ reverse zs ++ y ∷ reverse xs
reverse-middle xs y zs =
    reverse-append xs (y ∷ zs)
    ∙ ap (λ r. r ++ reverse xs) (reverse-cons y zs)
    ∙ append_assoc (reverse zs) (y ∷ []) (reverse xs)

module _ {F : Type 0} where
  -- No quote of this id is live.
  abbrev NoneLive : ℕ → List (QuoteRecord F) → Type 0
  NoneLive oid qs = All (λ q. is_live oid q ≡ false) qs

  -- Nothing changes since no quote of this id is live, or the last live one is stamped.
  abbrev pub CancelsLast : ℕ → F → List (QuoteRecord F) → List (QuoteRecord F) → Type 0
  CancelsLast oid time qs qs' =
      NoneLive oid qs × (qs' ≡ qs)
      ⊎ ((before : List (QuoteRecord F)) × (q : QuoteRecord F) × (behind : List (QuoteRecord F))
          × (qs ≡ before ++ q ∷ behind)
          × (is_live oid q ≡ true)
          × NoneLive oid behind
          × (qs' ≡ before ++ cancelled time q ∷ behind))

  cancel_first-cases :
      (oid : ℕ) (time : F) (qs : List (QuoteRecord F))
      → NoneLive oid qs × (cancel_first oid time qs ≡ qs)
        ⊎ ((before : List (QuoteRecord F)) × (q : QuoteRecord F) × (behind : List (QuoteRecord F))
            × (qs ≡ before ++ q ∷ behind)
            × (is_live oid q ≡ true)
            × NoneLive oid before
            × (cancel_first oid time qs ≡ before ++ cancelled time q ∷ behind))
  cancel_first-cases oid time [] = inl (tt, refl)
  cancel_first-cases oid time (q ∷ qs) = elim (Bool-cases (is_live oid q)) [
    | inl e ↦ inr ([], q, qs, refl, e, tt, rw e refl)
    | inr e ↦ elim (cancel_first-cases oid time qs) [
      | inl (h, same) ↦ inl ((e, h), rw e (ap (λ t. q ∷ t) same))
      | inr (before, r, behind, split, live, h, new) ↦
          inr
            (q ∷ before, r, behind, ap (λ t. q ∷ t) split, live, (e, h), rw e (ap (λ t. q ∷ t) new))
    ]
  ]

  -- `record_cancel` counts one cancel and changes nothing but the quotes: no quote if none of this
  -- id is live (not cancelled yet), and otherwise only the last live one, which gets the time.
  pub record_cancel-CancelsLast :
      (oid : ℕ) (time : F) (e : MetricsEngine F)
      → CancelsLast oid time e.quotes (record_cancel oid time e).quotes
        × (record_cancel oid time e ≡ record e {
          quotes = (record_cancel oid time e).quotes;
          total_cancels = e.total_cancels + 1;
        })
  unfolding record_cancel
  record_cancel-CancelsLast oid time e = (
    elim (cancel_first-cases oid time (reverse e.quotes)) [
      | inl (h, same) ↦ inl (
        subst (NoneLive oid) (reverse-reverse e.quotes) (All-reverse _ (reverse e.quotes) h),
        ap (λ qs. reverse qs) same ∙ reverse-reverse e.quotes,
      )
      | inr (before, q, behind, split, live, h, new) ↦ inr (
        reverse behind,
        q,
        reverse before,
        sym (reverse-reverse e.quotes)
            ∙ ap (λ qs. reverse qs) split
            ∙ reverse-middle before q behind,
        live,
        All-reverse _ before h,
        ap (λ qs. reverse qs) new ∙ reverse-middle before (cancelled time q) behind,
      )
    ],
    refl,
  )
