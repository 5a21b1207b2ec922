-- ===== src/Z80/Laws/Parity.antt =====
-- The parity table of constants.ts against a count of bits.
use debug.Base.{
  ℕ, zero, suc, ◌+◌, ◌/◌, ◌%◌, ◌<◌, ◌≡◌, refl, ◌==◌, ==_iff, true, holds_below, test-holds_below,
}
use debug.Base.{flag}
use debug.Z80.Constants.{parity_bits}
use debug.Z80.Alu.{parity}

-- The ones among the low `k` bits.
unfoldable pub ones : ℕ → ℕ → ℕ
ones zero n = 0
ones (suc k) n = n % 2 + ones k (n / 2)

parity_table : holds_below (λ n. parity n == flag (ones 8 n % 2 == 0)) 256 ≡ true
unfolding holds_below parity parity_bits ones
parity_table = refl

-- For every byte the table's entry, which AND, OR, XOR, the rotates, DAA and IN store in P, is 1
-- if the byte has an even number of ones, and 0 if it has an odd number.
pub parity_even : (n : ℕ) → n < 256 → parity n ≡ flag (ones 8 n % 2 == 0)
parity_even n h =
    (==_iff _ _).0
      (test-holds_below (λ n. parity n == flag (ones 8 n % 2 == 0)) 256 n h parity_table)
