-- ===== src/Base/Tests.antt =====
-- Boolean tests on the native numbers, the conditional, and a flag as 0 or 1.
use Prim.Native.Nat.{ℕ, ◌<◌, compare, Ordering}
use mathlib.Core.Path.{◌≡◌, refl}
use mathlib.Core.Logic.{◌↔◌, ◌⊎◌, inl, inr}
use mathlib.Core.Bool.{Bool, true, false}
use mathlib.Core.Option.{Option, none, some}
use native.Mathlib.Omega.{arith}

abbrev pub ltb : ℕ → ℕ → Bool
ltb m n = elim (compare m n) [ Ordering.lt ↦ true | _ ↦ false ]

abbrev pub leb : ℕ → ℕ → Bool
leb m n = elim (compare m n) [ Ordering.gt ↦ false | _ ↦ true ]

infix 50 ◌==◌
abbrev pub ◌==◌ : ℕ → ℕ → Bool
m == n = elim (compare m n) [ Ordering.eq ↦ true | _ ↦ false ]

infix 1 if◌then◌else◌
abbrev pub if◌then◌else◌ {ℓ} : {A : Type ℓ} → Bool → A → A → A
if true then x else y = x
if false then x else y = y

-- The `? 1 : 0` of the source.
abbrev pub flag : Bool → ℕ
flag true = 1
flag false = 0

pub ==_iff : (m n : ℕ) → ((m == n) ≡ true) ↔ (m ≡ n)
==_iff m n = ground arith

pub ltb→lt : (m n : ℕ) → ltb m n ≡ true → m < n
ltb→lt m n h = ground arith

pub lt→ltb : (m n : ℕ) → m < n → ltb m n ≡ true
lt→ltb m n h = ground arith

pub Bool-cases : (t : Bool) → (t ≡ true) ⊎ (t ≡ false)
Bool-cases true = inl refl
Bool-cases false = inr refl

pub Option-cases {ℓ} : {A : Type ℓ} (o : Option A) → (o ≡ none) ⊎ ((v : A) × (o ≡ some v))
Option-cases none = inl refl
Option-cases (some v) = inr (v, refl)

-- A conditional whose test is known.
pub if_true {ℓ} : {A : Type ℓ} (test : Bool) (p q : A) → test ≡ true → (if test then p else q) ≡ p
if_true test p q e = rw e refl

pub if_false {ℓ} : {A : Type ℓ} (test : Bool) (p q : A) → test ≡ false → (if test then p else q) ≡ q
if_false test p q e = rw e refl
