-- ===== src/Base/Word.antt =====
-- The 32-bit integers of the source's bit operators, as numbers below 2 ^ 32 in two's complement.
-- `x & 0xff` is `x % 256` and `x & 0xffff` is `x % 65536`; `x >>> k` is `x / 2 ^ k`.
use Prim.Native.Nat.{ℕ, ◌+◌, ◌-◌, ◌*◌, ◌/◌, ◌%◌, ◌^◌}

abbrev pub byte : ℕ → ℕ
byte n = n % 256

abbrev pub word : ℕ → ℕ
word n = n % 65536

-- `lo | (hi << 8)` of two bytes.
abbrev pub pair : ℕ → ℕ → ℕ
pair hi lo = hi * 256 + lo

-- `(n & 0xff00) >>> 8`
abbrev pub high : ℕ → ℕ
high n = n / 256 % 256

-- Bit `k`: `n & (1 << k) ? 1 : 0`.
abbrev pub bit : ℕ → ℕ → ℕ
bit k n = n / 2 ^ k % 2

-- `m - n` as a bit pattern.
abbrev pub int_sub : ℕ → ℕ → ℕ
int_sub m n = (m + 2 ^ 32 - n) % 2 ^ 32
