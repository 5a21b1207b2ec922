-- ===== src/Z80/Laws/Stepping/Search.antt =====
-- What holds of every opcode of a set or a switch holds of the one that is found.
use debug.Base.{
  ℕ, ==_iff, inl, inr, Bool-cases, ◌≡◌, ◌==◌, Bool, true, Option, some, none, List, [], ◌∷◌, All,
}
use debug.Z80.StepOver.{has, find_case}

-- What holds of every case of a switch holds of the one found.
abbrev pub FoundAs : (ℕ → Bool → Type 0) → ℕ → Option Bool → Type 0
FoundAs P opcode none = Unit
FoundAs P opcode (some taken) = P opcode taken

pub find_case-FoundAs :
    (P : ℕ → Bool → Type 0) (cases : List (ℕ × Bool)) (opcode : ℕ)
    → All (λ c. P c.0 c.1) cases
    → FoundAs P opcode (find_case cases opcode)
unfolding find_case
find_case-FoundAs P [] opcode h = tt
find_case-FoundAs P ((x, taken) ∷ rest) opcode h = elim (Bool-cases (x == opcode)) [
  | inl e ↦ rw (e, ← (==_iff x opcode).0 e) h.0
  | inr e ↦ rw e (find_case-FoundAs P rest opcode h.1)
]

pub has-All :
    (P : ℕ → Type 0) (opcodes : List ℕ) (opcode : ℕ)
    → All P opcodes
    → has opcodes opcode ≡ true
    → P opcode
unfolding has
has-All P [] opcode h e = cc
has-All P (x ∷ rest) opcode h e = elim (Bool-cases (x == opcode)) [
  | inl e' ↦ rw (← (==_iff x opcode).0 e') h.0
  | inr e' ↦ has-All P rest opcode h.1 (rw e' at e)
]
