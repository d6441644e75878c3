-- ===== src/Wire/Struct/Integers.antt =====
-- One value of `struct`: its bit pattern and its bytes determine it.
use native.Mathlib.Nat.{pow-suc}
use liquidity_arena.Prelude.{
  ℕ, zero, suc, ◌+◌, ◌*◌, ◌/◌, ◌%◌, ◌^◌, ◌<◌, ◌≡◌, refl, some, List, [], ◌∷◌, arith, length, All,
  ap,
}
use liquidity_arena.Prelude.Int.{ℤ}
use liquidity_arena.Wire.Struct.{Code, patterns, IsByte, to_bits, of_bits, le_bytes, le_value}

pub length-le_bytes : (w n : ℕ) → length (le_bytes w n) ≡ w
unfolding le_bytes
length-le_bytes zero n = refl
length-le_bytes (suc w) n = ap suc (length-le_bytes w (n / 256))

pub le_bytes-IsByte : (w n : ℕ) → All IsByte (le_bytes w n)
unfolding le_bytes
le_bytes-IsByte zero n = tt
le_bytes-IsByte (suc w) n = (omega arith, le_bytes-IsByte w (n / 256))

pub le_value-le_bytes : (w n : ℕ) → n < 256 ^ w → le_value (le_bytes w n) ≡ n
unfolding le_bytes le_value
le_value-le_bytes zero n h = omega arith
le_value-le_bytes (suc w) n h =
    let small : n / 256 < 256 ^ w = omega (arith, pow-suc 256 w) in
    omega (arith, le_value-le_bytes w (n / 256) small)

pub le_value-lt : (bs : List ℕ) → All IsByte bs → le_value bs < 256 ^ length bs
unfolding le_value
le_value-lt [] h = omega arith
le_value-lt (b ∷ bs) h = omega (arith, pow-suc 256 (length bs), le_value-lt bs h.1)

pub le_bytes-le_value : (bs : List ℕ) → All IsByte bs → le_bytes (length bs) (le_value bs) ≡ bs
unfolding le_bytes le_value
le_bytes-le_value [] h = refl
le_bytes-le_value (b ∷ bs) h =
    let low : (b + 256 * le_value bs) % 256 ≡ b = omega arith in
    let high : (b + 256 * le_value bs) / 256 ≡ le_value bs = omega arith in
    rw (low, high, le_bytes-le_value bs h.1)

-- A value in range has a pattern of its width, and is read back from it.
pub to_bits-some :
    (c : Code) (v : ℤ) {n : ℕ} → to_bits c v ≡ some n → (n < patterns c) × (of_bits c n ≡ v)
unfolding to_bits of_bits
to_bits-some Code.u8 v e = ground arith
to_bits-some Code.u32 v e = ground arith
to_bits-some Code.u64 v e = ground arith
to_bits-some Code.i32 v e = ground arith
to_bits-some Code.i64 v e = ground arith

pub to_bits-of_bits : (c : Code) (n : ℕ) → n < patterns c → to_bits c (of_bits c n) ≡ some n
unfolding to_bits of_bits
to_bits-of_bits Code.u8 n h = ground arith
to_bits-of_bits Code.u32 n h = ground arith
to_bits-of_bits Code.u64 n h = ground arith
to_bits-of_bits Code.i32 n h = ground arith
to_bits-of_bits Code.i64 n h = ground arith
