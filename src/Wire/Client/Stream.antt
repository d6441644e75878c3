-- ===== src/Wire/Client/Stream.antt =====
-- `poll` of simulation/market/tcp_client.py as a reader of a byte stream.
use liquidity_arena.Prelude.{
  ℕ, zero, suc, ◌≤◌, ◌≡◌, refl, sym, ap, ◌∙◌, Option, none, some, List, [], ◌++◌, arith, length,
  Option-cases, inl, inr, ◌⊎◌,
}
use liquidity_arena.Wire.Client.{
  Message, Fault, Outcome, returned, raised, Drained, split_frame, decode, deliver, drain,
  drain_all,
}
use liquidity_arena.Wire.Client.Framing.{split_frame-append, split_frame-lt}

Outcome-cases :
    {A : Type 0} (o : Outcome A) → ((a : A) × (o ≡ returned a)) ⊎ ((e : Fault) × (o ≡ raised e))
Outcome-cases (returned a) = inl (a, refl)
Outcome-cases (raised e) = inr (e, refl)

-- The rounds of `drain` in terms of the first message.
drain-none :
    (n : ℕ) (buffer : List ℕ)
    → split_frame buffer ≡ none
    → drain n buffer ≡ record { messages = []; buffer = buffer; fault = none }
unfolding drain
drain-none zero buffer e = refl
drain-none (suc n) buffer e = ground arith

drain-raised :
    (n : ℕ) (buffer : List ℕ) {t : ℕ} {payload rest : List ℕ} {f : Fault}
    → split_frame buffer ≡ some (t, payload, rest)
    → decode t payload ≡ raised f
    → drain (suc n) buffer ≡ record { messages = []; buffer = rest; fault = some f }
unfolding drain
drain-raised n buffer e d = ground arith

drain-returned :
    (n : ℕ) (buffer : List ℕ) {t : ℕ} {payload rest : List ℕ} {m : Option Message}
    → split_frame buffer ≡ some (t, payload, rest)
    → decode t payload ≡ returned m
    → drain (suc n) buffer ≡ deliver m (drain n rest)
unfolding drain
drain-returned n buffer e d = ground arith

-- What reading a buffer to its end means, with no count of rounds: stop where no whole message is
-- left, stop behind a message that raises, and otherwise go on behind the message.
pub data Drains : List ℕ → Drained → Type 0 where
  done :
      {buffer : List ℕ}
      → split_frame buffer ≡ none
      → Drains buffer (record { messages = []; buffer = buffer; fault = none })
  broken :
      {buffer rest payload : List ℕ} {t : ℕ} {f : Fault}
      → split_frame buffer ≡ some (t, payload, rest)
      → decode t payload ≡ raised f
      → Drains buffer (record { messages = []; buffer = rest; fault = some f })
  next :
      {buffer rest payload : List ℕ} {t : ℕ} {m : Option Message} {d : Drained}
      → split_frame buffer ≡ some (t, payload, rest)
      → decode t payload ≡ returned m
      → Drains rest d
      → Drains buffer (deliver m d)

drain-Drains : (n : ℕ) (buffer : List ℕ) → length buffer ≤ n → Drains buffer (drain n buffer)
drain-Drains zero buffer h = elim (Option-cases (split_frame buffer)) [
  | inl e ↦ rw (drain-none zero buffer e) (done e)
  | inr ((t, payload, rest), e) ↦ absurd (omega (arith, split_frame-lt buffer e))
]
drain-Drains (suc n) buffer h = elim (Option-cases (split_frame buffer)) [
  | inl e ↦ rw (drain-none (suc n) buffer e) (done e)
  | inr ((t, payload, rest), e) ↦ elim (Outcome-cases (decode t payload)) [
    | inr (f, ef) ↦ rw (drain-raised n buffer e ef) (broken e ef)
    | inl (m, em) ↦
        let shorter : length rest ≤ n = omega (arith, split_frame-lt buffer e) in
        rw (drain-returned n buffer e em) (next e em (drain-Drains n rest shorter))
  ]
]

-- Relates `drain` and `Drains` at every number of rounds that covers the buffer.
Drains-eq-drain :
    (n : ℕ) {buffer : List ℕ} {d : Drained}
    → Drains buffer d
    → length buffer ≤ n
    → d ≡ drain n buffer
Drains-eq-drain n {buffer} (done e) h = sym (drain-none n buffer e)
Drains-eq-drain zero {buffer} (broken e ef) h = absurd (omega (arith, split_frame-lt buffer e))
Drains-eq-drain (suc n) {buffer} (broken e ef) h = sym (drain-raised n buffer e ef)
Drains-eq-drain zero {buffer} (next e em r) h = absurd (omega (arith, split_frame-lt buffer e))
Drains-eq-drain (suc n) {buffer} (next {rest = rest} {m = m} e em r) h =
    let shorter : length rest ≤ n = omega (arith, split_frame-lt buffer e) in
    rw (drain-returned n buffer e em) (ap (deliver m) (Drains-eq-drain n r shorter))

-- The loop of `poll` reads a buffer to its end, and in one way only.
pub drain_all_iff :
    (buffer : List ℕ) (d : Drained)
    → (Drains buffer d → d ≡ drain_all buffer) × (d ≡ drain_all buffer → Drains buffer d)
drain_all_iff buffer d = (
  λ r. Drains-eq-drain (length buffer) r (omega arith),
  λ e. rw e (drain-Drains (length buffer) buffer (omega arith)),
)

-- The messages of one reading in front of those of the next.
abbrev pub before : List Message → Drained → Drained
before ms d = record d { messages = ms ++ d.messages }

pub Drains-append :
    (b : List ℕ) {a : List ℕ} {d e : Drained}
    → Drains a d
    → d.fault ≡ none
    → Drains (d.buffer ++ b) e
    → Drains (a ++ b) (before d.messages e)
Drains-append b (done _) h r = r
Drains-append b (broken _ _) h r = cc
Drains-append b {a} (next {m = none} es em s) h r =
    next (split_frame-append a b es) em (Drains-append b s h r)
Drains-append b {a} (next {m = some m} es em s) h r =
    next (split_frame-append a b es) em (Drains-append b s h r)

-- A message that raises does so whatever follows, and what follows stays in the buffer.
pub Drains-append_fault :
    (b : List ℕ) {a : List ℕ} {d : Drained} {f : Fault}
    → Drains a d
    → d.fault ≡ some f
    → Drains (a ++ b) (record d { buffer = d.buffer ++ b })
Drains-append_fault b (done _) h = cc
Drains-append_fault b {a} (broken es ef) h = broken (split_frame-append a b es) ef
Drains-append_fault b {a} (next {m = none} es em s) h =
    next (split_frame-append a b es) em (Drains-append_fault b s h)
Drains-append_fault b {a} (next {m = some m} es em s) h =
    next (split_frame-append a b es) em (Drains-append_fault b s h)

-- A reading that raises nothing leaves no whole message.
pub Drains-rest :
    {a : List ℕ} {d : Drained} → Drains a d → d.fault ≡ none → split_frame d.buffer ≡ none
Drains-rest (done e) h = e
Drains-rest (broken _ _) h = cc
Drains-rest (next {m = none} _ _ r) h = Drains-rest r h
Drains-rest (next {m = some m} _ _ r) h = Drains-rest r h

pub Drains-unique : {a : List ℕ} {d e : Drained} → Drains a d → Drains a e → d ≡ e
Drains-unique {a} {d} {e} r s = (drain_all_iff a d).0 r ∙ sym ((drain_all_iff a e).0 s)
