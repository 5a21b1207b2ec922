-- ===== src/Z80/Laws/Copying/Next.antt =====
-- From one turn at an LDIR to the next, and what all of them come to.
use debug.Base.{ℕ, suc, ◌+◌, ◌<◌, ◌≡◌, ◌==◌, ◌∙◌, ap, arith, true, false, word}
use debug.Z80.Hardware.{Machine, mem_read}
use debug.Z80.Registers.{Pair, get_pair}
use debug.Z80.Runtime.{is_block_repeat_instruction}
use debug.Z80.Valid.Registers.{get_pair-lt}
use debug.Z80.Laws.Copying.Bytes.{poke_elsewhere}
use debug.Z80.Laws.Copying.Turn.{copy_bytes, Copying, Turns}

-- The next turn starts as this one did.
pub Turns-Copying : (k : ℕ) (m m' : Machine) → Copying (suc k) m → Turns (suc k) m m' → Copying k m'
Turns-Copying k m m' c t = record {
  valid = t.valid;
  running = t.running;
  bound = omega (arith, c.bound);
  count = t.count;
  first = kept m.cpu.pc m'.cpu.pc stays first_other ∙ c.first;
  second =
      kept (word (m.cpu.pc + 1)) (word (m'.cpu.pc + 1)) (ap (λ pc. word (pc + 1)) stays)
        second_other
      ∙ c.second;
  first_apart = omega (arith, stays, t.target, c.first_apart, c.valid.cpu.pc, c.bound, de);
  second_apart = omega (arith, stays, t.target, c.second_apart, c.valid.cpu.pc, c.bound, de);
  quiet = ap (λ io. io.on_tick) t.io ∙ c.quiet;
}
  where
    stays : m'.cpu.pc ≡ m.cpu.pc
    stays = ground (arith, t.pc)

    de : get_pair Pair.de m.cpu < 65536
    de = get_pair-lt Pair.de m.cpu c.valid.cpu

    first_other : (m.cpu.pc == get_pair Pair.de m.cpu) ≡ false
    first_other = ground (arith, c.first_apart)

    second_other : (word (m.cpu.pc + 1) == get_pair Pair.de m.cpu) ≡ false
    second_other = ground (arith, c.second_apart)

    kept :
        (addr addr' : ℕ)
        → addr' ≡ addr
        → (addr == get_pair Pair.de m.cpu) ≡ false
        → m'.hardware.memory addr' ≡ m.hardware.memory addr
    kept addr addr' e h =
        ap m'.hardware.memory e
        ∙ ap (λ memory. memory addr) t.memory
        ∙ poke_elsewhere m.hardware.rom_ranges (get_pair Pair.de m.cpu)
            (m.hardware.memory (get_pair Pair.hl m.cpu)) addr m.hardware.memory h

pub repeats :
    (k : ℕ) (m : Machine) → Copying k m → is_block_repeat_instruction m.cpu.pc (mem_read m) ≡ true
unfolding is_block_repeat_instruction mem_read
repeats k m c =
    let e : word (word m.cpu.pc) ≡ m.cpu.pc = omega (arith, c.valid.cpu.pc) in
    let e' : word (word (word m.cpu.pc + 1)) ≡ word (m.cpu.pc + 1) = omega arith in
    let first : m.hardware.memory (word (word m.cpu.pc)) ≡ 0xed =
      ap m.hardware.memory e ∙ c.first in
    let second : m.hardware.memory (word (word (word m.cpu.pc + 1))) ≡ 0xb0 =
      ap m.hardware.memory e' ∙ c.second in
    ground (arith, first, second)

-- What a step leaves: the copy made, the pairs past it, the count at 0, and PC past the instruction.
pub record IsCopied (k : ℕ) (m m' : Machine) : Type 0 where
  pub memory :
      m'.hardware.memory
      ≡ copy_bytes m.hardware.rom_ranges
          (suc k)
          (get_pair Pair.hl m.cpu)
          (get_pair Pair.de m.cpu)
          m.hardware.memory
  pub count : get_pair Pair.bc m'.cpu ≡ 0
  pub source : get_pair Pair.hl m'.cpu ≡ word (get_pair Pair.hl m.cpu + suc k)
  pub target : get_pair Pair.de m'.cpu ≡ word (get_pair Pair.de m.cpu + suc k)
  pub pc : m'.cpu.pc ≡ word (m.cpu.pc + 2)
  pub running : m'.cpu.halted ≡ false

-- The last turn, and one that others follow.
pub Turns-IsCopied : (m m' : Machine) → Turns 0 m m' → IsCopied 0 m m'
unfolding copy_bytes
Turns-IsCopied m m' t = record {
  memory = t.memory;
  count = t.count;
  source = t.source;
  target = t.target;
  pc = t.pc;
  running = t.running;
}

pub IsCopied-next :
    (k : ℕ) (m m' m'' : Machine) → Turns (suc k) m m' → IsCopied k m' m'' → IsCopied (suc k) m m''
unfolding copy_bytes
IsCopied-next k m m' m'' t h = record {
  memory =
      h.memory
      ∙ ap
          (λ rom.
            copy_bytes rom (suc k) (get_pair Pair.hl m'.cpu) (get_pair Pair.de m'.cpu)
              m'.hardware.memory)
          t.rom_ranges
      ∙ ap
          (λ hl.
            copy_bytes m.hardware.rom_ranges (suc k) hl (get_pair Pair.de m'.cpu)
              m'.hardware.memory)
          t.source
      ∙ ap
          (λ de.
            copy_bytes m.hardware.rom_ranges (suc k) (word (get_pair Pair.hl m.cpu + 1)) de
              m'.hardware.memory)
          t.target
      ∙ ap
          (λ memory.
            copy_bytes m.hardware.rom_ranges (suc k) (word (get_pair Pair.hl m.cpu + 1))
              (word (get_pair Pair.de m.cpu + 1)) memory)
          t.memory;
  count = h.count;
  source = omega (arith, h.source, t.source);
  target = omega (arith, h.target, t.target);
  pc = ground (arith, h.pc, t.pc);
  running = h.running;
}
