-- ===== src/Base/BitLaws.antt =====
-- The native bit operations at variables: the lowest digit, and bounds.
use Prim.Native.Nat.{ℕ, zero, suc, ◌+◌, ◌*◌, ◌/◌, ◌%◌, ◌^◌, ◌≤◌, ◌<◌, min, max, digits, bitwise}
use Prim.Native.Nat.{bit_and, bit_or, bit_and-bitwise, bit_or-bitwise}
use mathlib.Core.Path.{◌≡◌, refl}
use native.Mathlib.Nat.{pow-suc, le_refl}
use native.Mathlib.Omega.{arith}

module _ (rest : ℕ → ℕ) (op : ℕ → ℕ → ℕ) where
  -- Fuel above the first number changes nothing.
  digits-fuel :
      (x y : ℕ) (n : ℕ) → x ≤ n → (k : ℕ) → x ≤ k → digits rest op n x y ≡ digits rest op k x y
  digits-fuel (suc x) y (suc n) p (suc k) q =
      rw (digits-fuel (suc x / 2) (y / 2) n (omega arith) k (omega arith))
  digits-fuel (suc x) y zero p k q = absurd (omega arith)
  digits-fuel (suc x) y (suc n) p zero q = absurd (omega arith)
  digits-fuel zero y (suc n) p (suc k) q = refl
  digits-fuel zero y (suc n) p zero q = refl
  digits-fuel zero y zero p (suc k) q = refl
  digits-fuel zero y zero p zero q = refl

  bitwise_digit :
      (x y : ℕ)
      → bitwise rest op (suc x) y ≡ bitwise rest op (suc x / 2) (y / 2) * 2 + op (suc x % 2) (y % 2)
  bitwise_digit x y =
      omega (arith, digits-fuel (suc x / 2) (y / 2) x (omega arith) (suc x / 2) (le_refl _))

bit_or_digit : (x y : ℕ) → bit_or x y ≡ bit_or (x / 2) (y / 2) * 2 + max (x % 2) (y % 2)
bit_or_digit zero y = simp bit_or-bitwise (omega arith)
bit_or_digit (suc x) y = simp bit_or-bitwise (bitwise_digit (λ z. z) max x y)

bit_and_digit : (x y : ℕ) → bit_and x y ≡ bit_and (x / 2) (y / 2) * 2 + min (x % 2) (y % 2)
bit_and_digit zero y = simp bit_and-bitwise (omega arith)
bit_and_digit (suc x) y = simp bit_and-bitwise (bitwise_digit (λ z. 0) min x y)

-- `x & y` is at most `x`.
bit_and-le_within : (n x y : ℕ) → x ≤ n → bit_and x y ≤ x
bit_and-le_within n zero y h = omega (arith, bit_and-bitwise 0 y)
bit_and-le_within zero (suc x) y h = absurd (omega arith)
bit_and-le_within (suc n) (suc x) y h =
    omega (arith, bit_and_digit (suc x) y, bit_and-le_within n (suc x / 2) (y / 2) (omega arith))

pub bit_and-le : (x y : ℕ) → bit_and x y ≤ x
bit_and-le x y = bit_and-le_within x x y (le_refl x)

-- `x | y` fits the bits that both fit.
pub bit_or-lt : (k x y : ℕ) → x < 2 ^ k → y < 2 ^ k → bit_or x y < 2 ^ k
bit_or-lt zero x y p q =
    let e : x ≡ 0 = omega arith in let g : y ≡ 0 = omega arith in rw (e, g) (omega arith)
bit_or-lt (suc k) x y p q =
    omega (arith, bit_or_digit x y, pow-suc 2 k, bit_or-lt k (x / 2) (y / 2) p' q')
  where
    p' : x / 2 < 2 ^ k
    p' = omega (arith, pow-suc 2 k)

    q' : y / 2 < 2 ^ k
    q' = omega (arith, pow-suc 2 k)
