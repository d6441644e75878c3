-- ===== src/Simulator/Messages.antt =====
-- What the messages of the engine do to the simulator (simulation/simulator.py).
use liquidity_arena.Prelude.{
  ◌+◌, ◌≡◌, refl, sym, ap, ◌∙◌, Option, none, some, true, List, [], ◌∷◌, ◌++◌, length, append_assoc,
  append-nil, arith,
}
use liquidity_arena.Prelude.Int.{ℤ, pos, half, ◌+ℤ◌}
use liquidity_arena.Numeric.{Float, of_int}
use liquidity_arena.Wire.Messages.{FillMsg, BookUpdateMsg}
use liquidity_arena.Wire.Client.{Message, fill, book_update}
use liquidity_arena.Agents.Base.{BaseAgent, on_fill}
use liquidity_arena.Metrics.{FillRecord, MetricsEngine, record_fill}
use liquidity_arena.Simulator.Traders.{AgentId, Trader, maker, on_base, map_values}
use liquidity_arena.Simulator.State.{Simulator}
use liquidity_arena.Simulator.Exchange.{handle, handle_all}

abbrev pub fills_in : List Message → List FillMsg
fills_in [] = []
fills_in (fill f ∷ ms) = f ∷ fills_in ms
fills_in (book_update update ∷ ms) = fills_in ms

-- The last book of the messages, or the one before them.
abbrev pub last_book : Option BookUpdateMsg → List Message → Option BookUpdateMsg
last_book book [] = book
last_book book (fill f ∷ ms) = last_book book ms
last_book book (book_update update ∷ ms) = last_book (some update) ms

map_values-id :
    {A : Type 0} (f : A → A) (d : List (AgentId × A)) → ((a : A) → f a ≡ a) → map_values f d ≡ d
map_values-id f [] h = refl
map_values-id f ((i, a) ∷ d) h = λ k. (i, h a k) ∷ map_values-id f d h k

map_values-map_values :
    {A : Type 0} (f g h : A → A) (d : List (AgentId × A))
    → ((a : A) → g (f a) ≡ h a)
    → map_values g (map_values f d) ≡ map_values h d
map_values-map_values f g h [] e = refl
map_values-map_values f g h ((i, a) ∷ d) e = λ k. (i, e a k) ∷ map_values-map_values f g h d e k

on_base-id : {F S : Type 0} (t : Trader F S) → on_base (λ b. b) t ≡ t
on_base-id (maker t) = refl
on_base-id _ = refl

on_base-on_base :
    {F S : Type 0} (f g : BaseAgent F → BaseAgent F) (t : Trader F S)
    → on_base g (on_base f t) ≡ on_base (λ b. g (f b)) t
on_base-on_base f g (maker t) = refl
on_base-on_base f g _ = refl

module _ {F : Type 0} ⦃fl : Float F⦄ where
  abbrev pub on_fills : List FillMsg → BaseAgent F → BaseAgent F
  on_fills [] b = b
  on_fills (f ∷ fs) b = on_fills fs (on_fill f b)

  -- The record of a fill: as a maker's purchase at the current time, with the current mid price and
  -- the mid price of the last book, or the current one if there is none.
  abbrev recorded : FillMsg → (time : F) (mid : ℤ) → Option BookUpdateMsg → FillRecord F
  recorded f time mid book = record {
    timestamp = time;
    price = f.price;
    quantity = f.quantity;
    side = pos 0;
    is_maker = true;
    mid_at_fill = mid;
    mid_after_fill =
        some (elim book [ none ↦ mid | some update ↦ half (update.best_bid +ℤ update.best_ask) ]);
    maker_fee = of_int (pos 0);
    taker_fee = of_int (pos 0);
  }

module _ {F S : Type 0} ⦃fl : Float F⦄ where
  -- One record for each fill, with the last book in front of it.
  abbrev pub records : List Message → Simulator F S → List (FillRecord F)
  records [] s = []
  records (fill f ∷ ms) s =
      recorded f s.current_time s.current_mid s.last_book_update ∷ records ms s
  records (book_update update ∷ ms) s = records ms (record s { last_book_update = some update })

  pub record IsHandled (ms : List Message) (s s' : Simulator F S) : Type 0 where
    pub agents : s'.agents ≡ map_values (on_base (λ b. on_fills (fills_in ms) b)) s.agents
    pub book : s'.last_book_update ≡ last_book s.last_book_update ms
    pub fills : s'.metrics.fills ≡ s.metrics.fills ++ records ms s
    pub counted : s'.metrics.total_fills ≡ s.metrics.total_fills + length (fills_in ms)
    pub quotes : s'.metrics.quotes ≡ s.metrics.quotes
    pub clock : s'.current_time ≡ s.current_time

  records-agents :
      (ms : List Message) (s : Simulator F S) (agents' : List (AgentId × Trader F S))
      (m : MetricsEngine F)
      → records ms (record s { agents = agents'; metrics = m }) ≡ records ms s
  records-agents [] s agents' m = refl
  records-agents (fill f ∷ ms) s agents' m =
      ap (λ t. recorded f s.current_time s.current_mid s.last_book_update ∷ t)
        (records-agents ms s agents' m)
  records-agents (book_update update ∷ ms) s agents' m =
      records-agents ms (record s { last_book_update = some update }) agents' m

  -- Handling the messages of one read gives every agent every fill, in order, keeps the last of
  -- the books, and records each fill once: with its price and quantity, the current time and mid
  -- price, and the mid price of the last book in front of it, as a purchase by a maker.
  pub handle_all-IsHandled :
      (ms : List Message) (s : Simulator F S) → IsHandled ms s (handle_all ms s)
  unfolding handle_all handle record_fill
  handle_all-IsHandled [] s = record {
    agents = sym (map_values-id (on_base (λ b. b)) s.agents on_base-id);
    book = refl;
    fills = sym (append-nil s.metrics.fills);
    counted = omega arith;
    quotes = refl;
    clock = refl;
  }
  handle_all-IsHandled (book_update update ∷ ms) s =
      let h = handle_all-IsHandled ms (handle (book_update update) s) in
      record {
        agents = h.agents;
        book = h.book;
        fills = h.fills;
        counted = h.counted;
        quotes = h.quotes;
        clock = h.clock;
      }
  handle_all-IsHandled (fill f ∷ ms) s =
      let s₁ = handle (fill f) s in
      let h = handle_all-IsHandled ms s₁ in
      record {
        agents =
            h.agents
            ∙ map_values-map_values (on_base (λ b. on_fill f b))
                (on_base (λ b. on_fills (fills_in ms) b))
                (on_base (λ b. on_fills (fills_in ms) (on_fill f b))) s.agents
                (on_base-on_base (λ b. on_fill f b) (λ b. on_fills (fills_in ms) b));
        book = h.book;
        fills =
            h.fills
            ∙ append_assoc s.metrics.fills
                (recorded f s.current_time s.current_mid s.last_book_update ∷ []) (records ms s₁)
            ∙ ap
                (λ t.
                  s.metrics.fills ++ recorded f s.current_time s.current_mid s.last_book_update ∷ t)
                (records-agents ms s s₁.agents s₁.metrics);
        counted = omega (arith, h.counted);
        quotes = h.quotes;
        clock = h.clock;
      }
