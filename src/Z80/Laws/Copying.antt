-- ===== src/Z80/Laws/Copying.antt =====
-- LDIR in one step of the debugger against a copy of bytes.
pub mod Round
pub mod Turn
pub mod Bytes
pub mod Next
use debug.Base.{
  ℕ, zero, suc, ◌+◌, ◌-◌, ◌≤◌, ◌<◌, ◌≡◌, ◌==◌, ◌%◌, ◌∙◌, ap, sym, refl, subst, arith, Bool, true,
  false, not, ◌&&◌, ◌||◌, none, some, leb, word, byte, int_sub, if◌then◌else◌, if_true, if_false,
  get_or, List, Option,
}
use debug.Z80.State.{Cpu}
use debug.Z80.Hardware.{
  Machine, Handler, Hardware, Range, TickResult, mem_read, mem_write, write_memory, store, on_cpu,
  is_rom_address,
}
use debug.Z80.Registers.{Pair, get_pair, set_pair}
use debug.Z80.Processor.{execute, take_delayed, finish_delayed}
use debug.Z80.Runtime.{
  RunResult, Reason, breakpoint, stopped, set_halted, execute_and_tick, io_tick, tick_stops,
  take_interrupt, tick_interrupt, is_block_repeat_instruction, max_block_repeat_iterations,
  step_loop, step_runtime,
}
use debug.Z80.Valid.{IsValidCpu, IsValid}
use debug.Z80.Valid.Memory.{mem_read-lt}
use debug.Z80.Valid.Registers.{get_pair-lt}
use debug.Z80.Valid.Processor.{execute-IsValid}
use debug.Z80.Valid.Runtime.{execute_and_tick-IsValid}
use debug.Z80.Laws.Opcodes.{run, execute-run}
use debug.Z80.Laws.Stepping.Extended.{ed_instruction, run-ed_instruction}
use debug.Z80.Laws.Copying.Round.{Copies, round-Copies, round_pc}
use debug.Z80.Laws.Copying.Bytes.{poke_elsewhere, copy_bytes_lem}
use debug.Z80.Laws.Copying.Turn.{poke, copy_bytes, Copying, Turns, Copying-Turns, Copying-goes_on}
use debug.Z80.Laws.Copying.Next.{Turns-Copying, repeats, IsCopied, Turns-IsCopied, IsCopied-next}

-- A turn of the loop, as its three tests leave it.
loop_turn :
    (left start total : ℕ) (m : Machine)
    → let (cycles, stop, m') = execute_and_tick m in
      step_loop (suc left) start total m ≡ (
        if stop
        then stopped false breakpoint (some (total + cycles)) m'
        else if leb 0x10000 m'.cpu.pc || m'.cpu.halted
        then stopped true Reason.halt (some (total + cycles)) (on_cpu set_halted m')
        else if word m'.cpu.pc == start && is_block_repeat_instruction start (mem_read m')
        then step_loop left start (total + cycles) m'
        else stopped false breakpoint (some (total + cycles)) m')
unfolding step_loop
loop_turn left start total m = refl

not_left :
    (m' : Machine)
    → m'.cpu.pc < 65536
    → m'.cpu.halted ≡ false
    → (leb 0x10000 m'.cpu.pc || m'.cpu.halted) ≡ false
not_left m' h e = ground arith

-- With no stop and no halt the loop goes on just if PC has stayed.
loop_rest :
    (k left total : ℕ) (m : Machine)
    → Copying k m
    → let (cycles, stop, m') = execute_and_tick m in
      step_loop (suc left) m.cpu.pc total m ≡ (
        if word m'.cpu.pc == m.cpu.pc && is_block_repeat_instruction m.cpu.pc (mem_read m')
        then step_loop left m.cpu.pc (total + cycles) m'
        else stopped false breakpoint (some (total + cycles)) m')
loop_rest k left total m c =
    let t = Copying-Turns k m c in
    loop_turn left m.cpu.pc total m
    ∙ if_false (execute_and_tick m).1 _ _ (Copying-goes_on k m c)
    ∙ if_false (leb 0x10000 (execute_and_tick m).2.cpu.pc || (execute_and_tick m).2.cpu.halted) _ _
        (not_left (execute_and_tick m).2 t.valid.cpu.pc t.running)

step_loop-IsCopied :
    (k left total : ℕ) (m : Machine)
    → k < left
    → Copying k m
    → IsCopied k m (step_loop left m.cpu.pc total m).1
step_loop-IsCopied k zero total m h c = absurd (omega arith)
step_loop-IsCopied zero (suc left) total m h c =
    subst (λ run. IsCopied 0 m run.1) (sym (loop_rest 0 left total m c ∙ if_false _ _ _ moved))
      (Turns-IsCopied m (execute_and_tick m).2 t)
  where
    t : Turns 0 m (execute_and_tick m).2
    t = Copying-Turns 0 m c

    moved :
        (word (execute_and_tick m).2.cpu.pc == m.cpu.pc
          && is_block_repeat_instruction m.cpu.pc (mem_read (execute_and_tick m).2))
        ≡ false
    moved = ground (arith, t.pc, c.valid.cpu.pc)
step_loop-IsCopied (suc k) (suc left) total m h c =
    subst (λ run. IsCopied (suc k) m run.1)
      (sym (loop_rest (suc k) left total m c ∙ if_true _ _ _ stayed))
      (IsCopied-next k m m' _ t (
        subst (λ start. IsCopied k m' (step_loop left start (total + (execute_and_tick m).0) m').1)
          same (step_loop-IsCopied k left (total + (execute_and_tick m).0) m' (omega arith) c')))
  where
    m' : Machine
    m' = (execute_and_tick m).2

    t : Turns (suc k) m m'
    t = Copying-Turns (suc k) m c

    c' : Copying k m'
    c' = Turns-Copying k m m' c t

    same : m'.cpu.pc ≡ m.cpu.pc
    same = ground (arith, t.pc)

    stayed :
        (word m'.cpu.pc == m.cpu.pc && is_block_repeat_instruction m.cpu.pc (mem_read m')) ≡ true
    stayed = ground (
      arith,
      same,
      c.valid.cpu.pc,
      subst (λ pc. is_block_repeat_instruction pc (mem_read m') ≡ true) same (repeats k m' c'),
    )

-- From an LDIR with `suc k` bytes to copy, none of them onto the instruction itself, and a platform
-- that does nothing at its ticks, one step of the debugger makes the whole copy: memory is that of
-- `copy_bytes`, BC is 0, HL and DE stand past the bytes, and PC past the instruction.
pub step_runtime-IsCopied : (k : ℕ) (m : Machine) → Copying k m → IsCopied k m (step_runtime m).1
unfolding step_runtime
step_runtime-IsCopied k m c =
    subst (λ run. IsCopied k m run.1)
      (sym (
        if_false m.cpu.halted (stopped true Reason.halt (some 0) m)
          (step_loop max_block_repeat_iterations (word m.cpu.pc) 0 m) c.running))
      (subst (λ pc. IsCopied k m (step_loop max_block_repeat_iterations pc 0 m).1) in_range
        (step_loop-IsCopied k max_block_repeat_iterations 0 m (omega (arith, c.bound)) c))
  where
    in_range : m.cpu.pc ≡ word m.cpu.pc
    in_range = omega (arith, c.valid.cpu.pc)

-- From an LDIR with `suc k` bytes to copy, none of them onto the instruction itself, and a
-- platform that does nothing at its ticks: where the target does not start inside the source,
-- every target cell that is RAM holds after one step of the debugger the byte that its source
-- cell held before it.
pub step_runtime_copies :
    (k i : ℕ) (m : Machine)
    → Copying k m
    → i < suc k
    → suc k ≤ word (get_pair Pair.de m.cpu + 65536 - get_pair Pair.hl m.cpu)
    → is_rom_address m.hardware.rom_ranges (word (get_pair Pair.de m.cpu + i)) ≡ false
    → (step_runtime m).1.hardware.memory (word (get_pair Pair.de m.cpu + i))
      ≡ m.hardware.memory (word (get_pair Pair.hl m.cpu + i))
step_runtime_copies k i m c h apart ram =
    ap (λ memory. memory (word (get_pair Pair.de m.cpu + i))) (step_runtime-IsCopied k m c).memory
    ∙ copy_bytes_lem m.hardware.rom_ranges (suc k) i (get_pair Pair.hl m.cpu)
        (get_pair Pair.de m.cpu) m.hardware.memory h (omega (arith, c.bound))
        (get_pair-lt Pair.hl m.cpu c.valid.cpu) (get_pair-lt Pair.de m.cpu c.valid.cpu) apart ram
