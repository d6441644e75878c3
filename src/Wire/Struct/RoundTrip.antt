-- ===== src/Wire/Struct/RoundTrip.antt =====
-- `struct.pack` and `struct.unpack` undo one another.
use liquidity_arena.Prelude.{
  ℕ, ◌≡◌, refl, some, List, [], ◌∷◌, ◌++◌, arith, length, take, drop, All, Option-cases, inl, inr,
  length-append, take-append_self, drop-append_self, take-append-drop, All-take, All-drop, subst,
  ◌<◌, ◌^◌, length-take, length-drop, All-append,
}
use liquidity_arena.Prelude.Int.{ℤ}
use liquidity_arena.Wire.Struct.{
  Code, width, IsByte, calcsize, to_bits, le_bytes, le_value, pack, read, unpack,
}
use liquidity_arena.Wire.Struct.Integers.{
  length-le_bytes, le_bytes-IsByte, le_value-le_bytes, le_value-lt, le_bytes-le_value, to_bits-some,
  to_bits-of_bits,
}

-- What a successful call has packed: a pattern for the first value, and the rest.
pub pack-cons :
    (c : Code) (cs : List Code) (v : ℤ) (vs : List ℤ) {bs : List ℕ}
    → pack (c ∷ cs) (v ∷ vs) ≡ some bs
    → (n : ℕ) × (rest : List ℕ) × (to_bits c v ≡ some n)
      × (pack cs vs ≡ some rest)
      × (bs ≡ le_bytes (width c) n ++ rest)
unfolding pack
pack-cons c cs v vs e = elim (Option-cases (to_bits c v)) [
  | inl out ↦ absurd (ground arith)
  | inr (n, en) ↦ elim (Option-cases (pack cs vs)) [
    | inl bad ↦ absurd (ground arith)
    | inr (rest, er) ↦ (n, rest, en, er, ground arith)
  ]
]

-- Packed bytes are as many as the format says, and are read back as the values.
pub pack-some :
    (cs : List Code) (vs : List ℤ) (bs : List ℕ)
    → pack cs vs ≡ some bs
    → (length bs ≡ calcsize cs) × All IsByte bs × (read cs bs ≡ vs)
unfolding pack read
pack-some [] [] bs e = ground arith
pack-some [] (v ∷ vs) bs e = cc
pack-some (c ∷ cs) [] bs e = cc
pack-some (c ∷ cs) (v ∷ vs) bs e =
    let (n, rest, en, er, eb) = pack-cons c cs v vs e in
    let (size, bytes, back) = pack-some cs vs rest er in
    let (small, value) = to_bits-some c v en in
    let head = le_bytes (width c) n in
    let hl = length-le_bytes (width c) n in
    let read_value = le_value-le_bytes (width c) n small in
    rw eb (
      omega (arith, length-append head rest),
      All-append IsByte head rest (le_bytes-IsByte (width c) n) bytes,
      rw (
        take-append_self (width c) head rest hl,
        drop-append_self (width c) head rest hl,
        read_value,
        value,
        back,
      ),
    )

-- Bytes as many as the format says are the packing of the values that are read from them.
pub pack-read :
    (cs : List Code) (bs : List ℕ)
    → All IsByte bs
    → length bs ≡ calcsize cs
    → pack cs (read cs bs) ≡ some bs
unfolding pack read
pack-read [] [] h e = refl
pack-read [] (b ∷ bs) h e = absurd (omega arith)
pack-read (c ∷ cs) bs h e =
    let w = width c in
    let size : length (take w bs) ≡ w = omega (arith, length-take w bs) in
    let head = take w bs in
    let small : le_value head < 256 ^ w = rw size at (le_value-lt head (All-take IsByte w bs h)) in
    let again : le_bytes w (le_value head) ≡ head =
      subst (λ k. le_bytes k (le_value head) ≡ head) size
        (le_bytes-le_value head (All-take IsByte w bs h)) in
    let rest =
      pack-read cs (drop w bs) (All-drop IsByte w bs h) (omega (arith, length-drop w bs)) in
    rw (to_bits-of_bits c (le_value head) small, rest, again, take-append-drop w bs)

-- If `pack` succeeds, `unpack` reads the same values back from its bytes.
pub unpack-pack :
    (cs : List Code) (vs : List ℤ) (bs : List ℕ) → pack cs vs ≡ some bs → unpack cs bs ≡ some vs
unfolding unpack
unpack-pack cs vs bs e = let (size, _, back) = pack-some cs vs bs e in ground arith

-- Every byte string that `unpack` accepts is the packing of the values it returns.
pub pack-unpack :
    (cs : List Code) (bs : List ℕ) (vs : List ℤ)
    → All IsByte bs
    → unpack cs bs ≡ some vs
    → pack cs vs ≡ some bs
unfolding unpack
pack-unpack cs bs vs h e = ground (arith, pack-read cs bs h)
