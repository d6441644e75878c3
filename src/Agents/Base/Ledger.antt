-- ===== src/Agents/Base/Ledger.antt =====
-- The books that `BaseAgent` of simulation/agents/base_agent.py keeps: its statistics against the
-- list `_fill_prices` of the fills that it took.
use liquidity_arena.Prelude.{
  ℕ, ◌≡◌, refl, sym, ap, ◌∙◌, List, [], ◌∷◌, ◌++◌, arith, length, length-append, Option-cases, inl,
  inr,
}
use liquidity_arena.Prelude.Int.{ℤ, pos, ◌+ℤ◌, neg, abs, int_laws}
use liquidity_arena.Numeric.{Float, ◌⊕◌, of_int}
use liquidity_arena.Wire.Messages.{FillMsg}
use liquidity_arena.Agents.Base.{
  AgentOrder, BaseAgent, new_agent, next_order_id, track_order, find_active, signed_qty, cash,
  apply_fill, on_fill, update_unrealized_pnl, cancel_all,
}

-- The net position and the traded volume of a list of fills (price, signed quantity).
abbrev pub net : List (ℤ × ℤ) → ℤ
net [] = pos 0
net ((p, q) ∷ fs) = q +ℤ net fs

abbrev pub volume : List (ℤ × ℤ) → ℤ
volume [] = pos 0
volume ((p, q) ∷ fs) = abs q +ℤ volume fs

net-snoc : (fs : List (ℤ × ℤ)) (p q : ℤ) → net (fs ++ (p, q) ∷ []) ≡ net fs +ℤ q
net-snoc [] p q = omega int_laws
net-snoc (f ∷ fs) p q = rw (net-snoc fs p q) (omega int_laws)

volume-snoc : (fs : List (ℤ × ℤ)) (p q : ℤ) → volume (fs ++ (p, q) ∷ []) ≡ volume fs +ℤ abs q
volume-snoc [] p q = omega int_laws
volume-snoc (f ∷ fs) p q = rw (volume-snoc fs p q) (omega int_laws)

abs-neg : (q : ℤ) → abs (neg q) ≡ abs q
unfolding abs neg
abs-neg q = ground arith

abs-signed_qty : (o : AgentOrder) (f : FillMsg) → abs (signed_qty o f) ≡ abs f.quantity
abs-signed_qty o f = ground (arith, abs-neg f.quantity)

-- The methods that the simulator and the agents call on a `BaseAgent`.
pub data Method : Type 0 where
  issue : Method
  track : AgentOrder → Method
  fill : FillMsg → Method
  mark : ℤ → Method
  cancel : Method

module _ {F : Type 0} ⦃fl : Float F⦄ where
  -- The cash of a list of fills, added in order to what there was.
  abbrev pub add_cash : F → F → List (ℤ × ℤ) → F
  add_cash tick acc [] = acc
  add_cash tick acc ((p, q) ∷ fs) = add_cash tick (acc ⊕ cash tick p q) fs

  add_cash-snoc :
      (tick acc : F) (fs : List (ℤ × ℤ)) (p q : ℤ)
      → add_cash tick acc (fs ++ (p, q) ∷ []) ≡ add_cash tick acc fs ⊕ cash tick p q
  add_cash-snoc tick acc [] p q = refl
  add_cash-snoc tick acc ((p', q') ∷ fs) p q = add_cash-snoc tick (acc ⊕ cash tick p' q') fs p q

  pub record IsLedger (b : BaseAgent F) : Type 0 where
    pub inventory : b.stats.inventory ≡ net b.fill_prices
    pub fills : b.stats.total_fills ≡ length b.fill_prices
    pub traded : b.stats.total_volume ≡ volume b.fill_prices
    pub realized : b.stats.realized_pnl ≡ add_cash b.tick_size (of_int (pos 0)) b.fill_prices

  apply_fill-IsLedger :
      (oid : ℕ) (o : AgentOrder) (f : FillMsg) (b : BaseAgent F)
      → IsLedger b
      → IsLedger (apply_fill oid o f b)
  unfolding apply_fill
  apply_fill-IsLedger oid o f b l =
      let qty = signed_qty o f in
      record {
        inventory = ap (λ n. n +ℤ qty) l.inventory ∙ sym (net-snoc b.fill_prices f.price qty);
        fills = omega (arith, l.fills, length-append b.fill_prices ((f.price, qty) ∷ []));
        traded =
            ap (λ n. n +ℤ abs f.quantity) l.traded
            ∙ ap (λ n. volume b.fill_prices +ℤ n) (sym (abs-signed_qty o f))
            ∙ sym (volume-snoc b.fill_prices f.price qty);
        realized =
            ap (λ n. n ⊕ cash b.tick_size f.price qty) l.realized
            ∙ sym (add_cash-snoc b.tick_size (of_int (pos 0)) b.fill_prices f.price qty);
      }

  pub on_fill-IsLedger : (f : FillMsg) (b : BaseAgent F) → IsLedger b → IsLedger (on_fill f b)
  unfolding on_fill
  on_fill-IsLedger f b l = elim (Option-cases (find_active f b.active_orders)) [
    | inl e ↦ rw (e, on_fill) l
    | inr ((k, o), e) ↦ rw (e, on_fill) (apply_fill-IsLedger k o f b l)
  ]

  abbrev pub call : Method → BaseAgent F → BaseAgent F
  call issue b = (next_order_id b).1
  call (track o) b = track_order o b
  call (fill f) b = on_fill f b
  call (mark mid) b = update_unrealized_pnl mid b
  call cancel b = (cancel_all b).1

  abbrev pub calls : List Method → BaseAgent F → BaseAgent F
  calls [] b = b
  calls (m ∷ ms) b = calls ms (call m b)

  call-IsLedger : (m : Method) (b : BaseAgent F) → IsLedger b → IsLedger (call m b)
  unfolding next_order_id track_order update_unrealized_pnl cancel_all
  call-IsLedger issue b l = ground arith
  call-IsLedger (track o) b l = ground arith
  call-IsLedger (fill f) b l = on_fill-IsLedger f b l
  call-IsLedger (mark mid) b l = ground arith
  call-IsLedger cancel b l = ground arith

  calls-IsLedger : (ms : List Method) (b : BaseAgent F) → IsLedger b → IsLedger (calls ms b)
  calls-IsLedger [] b l = l
  calls-IsLedger (m ∷ ms) b l = calls-IsLedger ms (call m b) (call-IsLedger m b l)

  -- Whatever calls an agent has received since it was made, its inventory is the sum of the signed
  -- quantities in `_fill_prices`, its fills and volume are their number and the sum of their sizes,
  -- and its realized PnL is the cash of those fills added in order.
  pub new_agent-IsLedger :
      (agent_counter : ℕ) (tick : F) (ms : List Method)
      → IsLedger (calls ms (new_agent agent_counter tick).0)
  unfolding new_agent
  new_agent-IsLedger agent_counter tick ms =
      calls-IsLedger ms (new_agent agent_counter tick).0
        (record { inventory = refl; fills = refl; traded = refl; realized = refl })
