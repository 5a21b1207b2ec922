-- ===== src/Base/Lists.antt =====
-- Lists indexed by native numbers, and a predicate on all their elements.
use Prim.Native.Nat.{ℕ, zero, suc}
use mathlib.Core.List.{List, [], ◌∷◌, ◌++◌}

module _ {ℓ} {A : Type ℓ} where
  abbrev pub length : List A → ℕ
  length [] = 0
  length (x ∷ xs) = suc (length xs)

  -- `xs[i] ?? v`.
  abbrev pub get_or : List A → ℕ → A → A
  get_or [] i v = v
  get_or (x ∷ xs) zero v = x
  get_or (x ∷ xs) (suc i) v = get_or xs i v

  abbrev pub replicate : ℕ → A → List A
  replicate zero x = []
  replicate (suc n) x = x ∷ replicate n x

-- The rows of a table, one behind the other.
abbrev pub concat {ℓ} : {A : Type ℓ} → List (List A) → List A
concat [] = []
concat (row ∷ rows) = row ++ concat rows

abbrev pub All {ℓ κ} : {A : Type ℓ} → (A → Type κ) → List A → Type κ
All P [] = Unit
All P (x ∷ xs) = P x × All P xs

module _ {ℓ κ} {A : Type ℓ} (P : A → Type κ) where
  pub All-append : (xs ys : List A) → All P xs → All P ys → All P (xs ++ ys)
  All-append [] ys p q = q
  All-append (x ∷ xs) ys p q = (p.0, All-append xs ys p.1 q)

  pub All-concat : (rows : List (List A)) → All (All P) rows → All P (concat rows)
  All-concat [] p = tt
  All-concat (row ∷ rows) p = All-append row (concat rows) p.0 (All-concat rows p.1)

  pub All-replicate : (n : ℕ) (x : A) → P x → All P (replicate n x)
  All-replicate zero x p = tt
  All-replicate (suc n) x p = (p, All-replicate n x p)

  -- What holds of every entry and of the default holds of what a look-up gives.
  pub All-get_or : (xs : List A) (i : ℕ) (v : A) → All P xs → P v → P (get_or xs i v)
  All-get_or [] i v p q = q
  All-get_or (x ∷ xs) zero v p q = p.0
  All-get_or (x ∷ xs) (suc i) v p q = All-get_or xs i v p.1 q

-- A pair, to write the entries of an `All` one below the other.
infixr 20 ◌◂◌
abbrev pub ◌◂◌ {ℓ κ} : {A : Type ℓ} {B : Type κ} → A → B → A × B
first ◂ rest = (first, rest)
