-- ===== src/Agents/Examples.antt =====
-- Runs of the agents on concrete books and fills.
use liquidity_arena.Prelude.{ℕ, ◌≡◌, refl, inl, ◌⊎◌, some, List, [], ◌∷◌, arith, if◌then◌else◌}
use liquidity_arena.Prelude.Int.{ℤ, pos, leb_ℤ}
use liquidity_arena.Prelude.Dict.{lookup, erase}
use liquidity_arena.Wire.Messages.{FillMsg}
use liquidity_arena.Agents.Base.{
  AgentOrder, new_agent, on_fill, find_order, find_active, ids_per_agent,
}
use liquidity_arena.Agents.Base.Ledger.{
  IsLedger, Method, issue, track, fill, mark, cancel, calls, new_agent-IsLedger,
}
use liquidity_arena.Agents.Base.Ids.{id_after, id_after-injective, id_after-overflow}
use liquidity_arena.Agents.Base.Fills.{Booked, on_fill-ours, on_fills, on_fills-keep}
use liquidity_arena.Numeric.Whole.{whole}
use liquidity_arena.Agents.Samples.{counter, resting, agent}

abbrev sold : ℤ → FillMsg
sold qty = record { maker_id = 1; taker_id = 9; price = pos 10000; quantity = qty }

abbrev lifetime : List Method
lifetime = issue ∷ track resting ∷ fill (sold (pos 100)) ∷ mark (pos 9990) ∷ cancel ∷ []

new_agent-IsLedger_example : IsLedger (calls lifetime (new_agent {F = ℤ} 0 (pos 1)).0)
new_agent-IsLedger_example = new_agent-IsLedger {F = ℤ} 0 (pos 1) lifetime

id_after-injective_example : (◌≡◌ {A = ℕ} 3 3) × (◌≡◌ {A = ℕ} 5 5)
id_after-injective_example =
    id_after-injective {F = ℤ} (pos 1) 3 3 5 5 (omega arith) (omega arith) refl

id_after-overflow_example : id_after {F = ℤ} (pos 1) 0 ids_per_agent ≡ id_after {F = ℤ} (pos 1) 1 0
id_after-overflow_example = id_after-overflow {F = ℤ} (pos 1) 0

on_fill-ours_example :
    (k : ℕ) × (o : AgentOrder) × (lookup k agent.active_orders ≡ some o)
    × ((k ≡ 1) ⊎ (k ≡ 9))
    × Booked o.side (pos 10000) (pos 40) agent (on_fill (sold (pos 40)) agent)
    × ((on_fill (sold (pos 40)) agent).stats.total_fills ≡ 1)
    × ((on_fill (sold (pos 40)) agent).active_orders
        ≡ (if leb_ℤ o.quantity (pos 40) then erase k agent.active_orders else agent.active_orders))
on_fill-ours_example = on_fill-ours (sold (pos 40)) agent 1 resting refl (inl refl)

-- The resting order of 100 is filled by 60 and 40, and stays active.
on_fills-keep_example :
    (on_fills (sold (pos 60) ∷ sold (pos 40) ∷ []) agent).active_orders ≡ (1, resting) ∷ []
unfolding find_active find_order
on_fills-keep_example =
    on_fills-keep (sold (pos 60) ∷ sold (pos 40) ∷ []) agent 1 resting
      ((refl, omega arith), ((refl, omega arith), tt))
