-- ===== src/Wire/Struct.antt =====
-- What simulation/market/tcp_client.py uses of Python's `struct`: little-endian formats with no
-- padding ("<"), over the format characters B, I, Q, i and q. A byte string is a list of numbers
-- below 256, a value is a Python integer, and `none` is `struct.error`.
pub mod Integers
pub mod RoundTrip
use liquidity_arena.Prelude.{
  ℕ, zero, suc, ◌+◌, ◌-◌, ◌*◌, ◌/◌, ◌%◌, ◌^◌, ◌<◌, Option, none, some, List, [], ◌∷◌, ◌++◌, ◌==◌,
  ltb, if◌then◌else◌, ◌>>=◌, length, take, drop,
}
use liquidity_arena.Prelude.Int.{ℤ, pos, negsuc}

-- The format characters: B, I and Q unsigned, i and q signed.
pub data Code : Type 0 where
  u8 u32 u64 i32 i64 : Code

abbrev pub width : Code → ℕ
width Code.u8 = 1
width Code.u32 = 4
width Code.u64 = 8
width Code.i32 = 4
width Code.i64 = 8

-- How many bit patterns a value of the code has.
abbrev pub patterns : Code → ℕ
patterns c = 256 ^ width c

abbrev pub IsByte : ℕ → Type 0
IsByte b = b < 256

-- `struct.calcsize`
abbrev pub calcsize : List Code → ℕ
calcsize [] = 0
calcsize (c ∷ cs) = width c + calcsize cs

-- The bit pattern of a value, as a number; `none` if the value is out of the code's range.
unfoldable pub unsigned_bits : ℕ → ℤ → Option ℕ
unsigned_bits m (pos n) = if ltb n m then some n else none
unsigned_bits m (negsuc n) = none

-- Two's complement: -(n + 1) is m - (n + 1).
unfoldable pub signed_bits : ℕ → ℤ → Option ℕ
signed_bits m (pos n) = if ltb n (m / 2) then some n else none
signed_bits m (negsuc n) = if ltb n (m / 2) then some (m - 1 - n) else none

unfoldable pub to_bits : Code → ℤ → Option ℕ
unfolding unsigned_bits signed_bits
to_bits Code.u8 v = unsigned_bits (2 ^ 8) v
to_bits Code.u32 v = unsigned_bits (2 ^ 32) v
to_bits Code.u64 v = unsigned_bits (2 ^ 64) v
to_bits Code.i32 v = signed_bits (2 ^ 32) v
to_bits Code.i64 v = signed_bits (2 ^ 64) v

unfoldable pub of_signed : ℕ → ℕ → ℤ
of_signed m n = if ltb n (m / 2) then pos n else negsuc (m - 1 - n)

unfoldable pub of_bits : Code → ℕ → ℤ
unfolding of_signed
of_bits Code.u8 n = pos n
of_bits Code.u32 n = pos n
of_bits Code.u64 n = pos n
of_bits Code.i32 n = of_signed (2 ^ 32) n
of_bits Code.i64 n = of_signed (2 ^ 64) n

-- The w low bytes of a number, the lowest first.
unfoldable pub le_bytes : ℕ → ℕ → List ℕ
le_bytes zero n = []
le_bytes (suc w) n = (n % 256) ∷ le_bytes w (n / 256)

unfoldable pub le_value : List ℕ → ℕ
le_value [] = 0
le_value (b ∷ bs) = b + 256 * le_value bs

-- `struct.pack`: as many values as codes, each in the range of its code.
unfoldable pub pack : List Code → List ℤ → Option (List ℕ)
unfolding to_bits le_bytes
pack [] [] = some []
pack [] (v ∷ vs) = none
pack (c ∷ cs) [] = none
pack (c ∷ cs) (v ∷ vs) = do
  n ← to_bits c v
  bytes ← pack cs vs
  some (le_bytes (width c) n ++ bytes)

-- The values of the codes, read one behind the other.
unfoldable pub read : List Code → List ℕ → List ℤ
unfolding of_bits le_value
read [] bs = []
read (c ∷ cs) bs = of_bits c (le_value (take (width c) bs)) ∷ read cs (drop (width c) bs)

-- `struct.unpack`: the buffer must have the format's size.
unfoldable pub unpack : List Code → List ℕ → Option (List ℤ)
unfolding read
unpack cs bs = if length bs == calcsize cs then some (read cs bs) else none
