-- ===== src/Z80/Laws/Copying/Bytes.antt =====
-- What a copy of bytes leaves in the cells.
use debug.Base.{
  ℕ, zero, suc, ◌+◌, ◌-◌, ◌≤◌, ◌<◌, ◌≡◌, ◌==◌, ◌∙◌, ap, sym, refl, arith, false, word, List,
}
use debug.Z80.Hardware.{Range, is_rom_address, store}
use debug.Z80.Laws.Copying.Turn.{poke, copy_bytes}

pub poke_elsewhere :
    (rom : List Range) (addr value other : ℕ) (memory : ℕ → ℕ)
    → (other == addr) ≡ false
    → poke rom addr value memory other ≡ memory other
unfolding poke store
poke_elsewhere rom addr value other memory h = ground arith

poke_there :
    (rom : List Range) (addr value : ℕ) (memory : ℕ → ℕ)
    → is_rom_address rom addr ≡ false
    → poke rom addr value memory addr ≡ value
unfolding poke store
poke_there rom addr value memory h = ground arith

copy_bytes_frame :
    (rom : List Range) (n source target addr : ℕ) (memory : ℕ → ℕ)
    → addr < 65536
    → target < 65536
    → n ≤ word (addr + 65536 - target)
    → copy_bytes rom n source target memory addr ≡ memory addr
unfolding copy_bytes
copy_bytes_frame rom zero source target addr memory a t apart = refl
copy_bytes_frame rom (suc n) source target addr memory a t apart =
    copy_bytes_frame rom n (word (source + 1)) (word (target + 1)) addr _ a (omega arith)
      (omega arith)
    ∙ poke_elsewhere rom target (memory source) addr memory (ground arith)

-- A copy upwards whose target does not start inside its source.
pub copy_bytes_lem :
    (rom : List Range) (n i source target : ℕ) (memory : ℕ → ℕ)
    → i < n
    → n ≤ 65536
    → source < 65536
    → target < 65536
    → n ≤ word (target + 65536 - source)
    → is_rom_address rom (word (target + i)) ≡ false
    → copy_bytes rom n source target memory (word (target + i)) ≡ memory (word (source + i))
unfolding copy_bytes
copy_bytes_lem rom zero i source target memory h b s t apart ram = absurd (omega arith)
copy_bytes_lem rom (suc n) zero source target memory h b s t apart ram =
    let here : word (target + 0) ≡ target = omega arith in
    let there : word (source + 0) ≡ source = omega arith in
    ap (λ addr. copy_bytes rom (suc n) source target memory addr) here
    ∙ copy_bytes_frame rom n (word (source + 1)) (word (target + 1)) target _ t (omega arith)
        (omega arith)
    ∙ poke_there rom target (memory source) memory (ap (is_rom_address rom) (sym here) ∙ ram)
    ∙ ap memory (sym there)
copy_bytes_lem rom (suc n) (suc i) source target memory h b s t apart ram =
    let here : word (target + suc i) ≡ word (word (target + 1) + i) = omega arith in
    let there : word (word (source + 1) + i) ≡ word (source + suc i) = omega arith in
    ap (λ addr. copy_bytes rom (suc n) source target memory addr) here
    ∙ copy_bytes_lem rom n i (word (source + 1)) (word (target + 1))
        (poke rom target (memory source) memory) (omega arith) (omega arith) (omega arith)
        (omega arith) (omega arith) (ap (is_rom_address rom) (sym here) ∙ ram)
    ∙ ap (poke rom target (memory source) memory) there
    ∙ poke_elsewhere rom target (memory source) (word (source + suc i)) memory (ground arith)
