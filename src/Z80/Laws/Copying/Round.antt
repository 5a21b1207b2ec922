-- ===== src/Z80/Laws/Copying/Round.antt =====
-- One round of LDIR as an instruction.
use debug.Base.{ℕ, ◌+◌, ◌<◌, ◌≡◌, ◌==◌, ◌∙◌, ap, refl, arith, Bool, word, int_sub, if◌then◌else◌}
use debug.Z80.State.{Cpu}
use debug.Z80.Hardware.{Machine, Handler, mem_read, mem_write, on_cpu}
use debug.Z80.Registers.{Pair, get_pair, set_pair}
use debug.Z80.Jump.{set_pc, add_cycles}
use debug.Z80.Block.{bc_left, do_ldi, transfer, transfer_flags, repeat_while}
use debug.Z80.Decode.Operands.{inc_r, fetch}
use debug.Z80.Decode.Ed.{ed_instructions}
use debug.Z80.Processor.{take_delayed, finish_delayed}
use debug.Z80.Valid.{IsValidCpu}
use debug.Z80.Laws.Opcodes.{run}
use debug.Z80.Laws.Stepping.Extended.{ed_instruction}

-- One transfer, as a step from a machine to another.
pub record Copies (m m' : Machine) : Type 0 where
  pub count : get_pair Pair.bc m'.cpu ≡ word (get_pair Pair.bc m.cpu + 65535)
  pub source : get_pair Pair.hl m'.cpu ≡ word (get_pair Pair.hl m.cpu + 1)
  pub target : get_pair Pair.de m'.cpu ≡ word (get_pair Pair.de m.cpu + 1)
  pub halted : m'.cpu.halted ≡ m.cpu.halted
  pub hardware :
      m'.hardware
      ≡ (mem_write (get_pair Pair.de m.cpu) (mem_read m (get_pair Pair.hl m.cpu)) m).hardware

do_ldi-Copies : (m : Machine) → IsValidCpu m.cpu → Copies m (do_ldi m)
unfolding do_ldi transfer transfer_flags get_pair set_pair mem_write
do_ldi-Copies m v = record {
  count = ground arith;
  source = ground arith;
  target = ground arith;
  halted = ground arith;
  hardware = refl;
}

do_ldi_pc : (m : Machine) → (do_ldi m).cpu.pc ≡ m.cpu.pc
unfolding do_ldi transfer transfer_flags get_pair set_pair mem_write
do_ldi_pc m = ground arith

do_ldi_bytes : (m : Machine) → ((do_ldi m).cpu.b < 256) × ((do_ldi m).cpu.c < 256)
unfolding do_ldi transfer transfer_flags get_pair set_pair mem_write
do_ldi_bytes m = ground arith

ldir : Handler
ldir m = repeat_while bc_left do_ldi m

if-hardware :
    (test : Bool) (f : Cpu → Cpu) (m : Machine)
    → (if test then on_cpu f m else m).hardware ≡ m.hardware
if-hardware test f m = ground arith

ldir-Copies : (m : Machine) → IsValidCpu m.cpu → Copies m (ldir m)
unfolding ldir repeat_while get_pair
ldir-Copies m v =
    let step = do_ldi-Copies m v in
    record {
      count = ground (arith, step.count);
      source = ground (arith, step.source);
      target = ground (arith, step.target);
      halted = ground (arith, step.halted);
      hardware =
          if-hardware (bc_left (do_ldi m).cpu)
            (λ cpu. set_pc (word (int_sub cpu.pc 2)) (add_cycles 5 cpu)) (do_ldi m)
          ∙ step.hardware;
    }

ldir_pc :
    (m : Machine)
    → IsValidCpu m.cpu
    → (ldir m).cpu.pc
      ≡ (if get_pair Pair.bc m.cpu == 1 then m.cpu.pc else word (int_sub m.cpu.pc 2))
unfolding ldir repeat_while get_pair
ldir_pc m v = ground (arith, do_ldi_pc m, do_ldi_bytes m, (do_ldi-Copies m v).count)

-- The start of the instruction: R has stepped twice and PC stands at the second byte.
abbrev opened : Machine → Machine
opened m = (fetch (on_cpu inc_r (on_cpu (λ cpu. inc_r (take_delayed cpu)) m))).1

opened-IsValidCpu : (m : Machine) → IsValidCpu m.cpu → IsValidCpu (opened m).cpu
unfolding fetch inc_r take_delayed
opened-IsValidCpu m v = ground arith

opened_lem :
    (m : Machine)
    → (get_pair Pair.bc (opened m).cpu ≡ get_pair Pair.bc m.cpu)
      × (get_pair Pair.hl (opened m).cpu ≡ get_pair Pair.hl m.cpu)
      × (get_pair Pair.de (opened m).cpu ≡ get_pair Pair.de m.cpu)
      × ((opened m).cpu.halted ≡ m.cpu.halted)
      × ((opened m).cpu.pc ≡ word (m.cpu.pc + 1))
unfolding fetch inc_r take_delayed get_pair
opened_lem m = ground arith

-- What follows the instruction leaves the pairs and the halt as they are.
closed_lem :
    (m m' : Machine)
    → m' ≡ run (ed_instruction 0xb0) m
    → (get_pair Pair.bc m'.cpu ≡ get_pair Pair.bc (ldir (opened m)).cpu)
      × (get_pair Pair.hl m'.cpu ≡ get_pair Pair.hl (ldir (opened m)).cpu)
      × (get_pair Pair.de m'.cpu ≡ get_pair Pair.de (ldir (opened m)).cpu)
      × (m'.cpu.halted ≡ (ldir (opened m)).cpu.halted)
      × (m'.cpu.pc ≡ word ((ldir (opened m)).cpu.pc + 1))
      × (m'.hardware ≡ (ldir (opened m)).hardware)
unfolding run ed_instructions ldir finish_delayed get_pair
closed_lem m m' e = rw e (ground arith)

write_opened :
    (d h : ℕ) (m : Machine)
    → (mem_write d (mem_read (opened m) h) (opened m)).hardware
      ≡ (mem_write d (mem_read m h) m).hardware
unfolding fetch mem_write mem_read
write_opened d h m = refl

-- One round as a whole instruction: PC stays on the instruction until the count is used up.
pub round-Copies :
    (m m' : Machine) → IsValidCpu m.cpu → m' ≡ run (ed_instruction 0xb0) m → Copies m m'
round-Copies m m' v e =
    let start = opened_lem m in
    let end = closed_lem m m' e in
    let inner = ldir-Copies (opened m) (opened-IsValidCpu m v) in
    record {
      count = end.0 ∙ inner.count ∙ ap (λ n. word (n + 65535)) start.0;
      source = end.1 ∙ inner.source ∙ ap (λ n. word (n + 1)) start.1;
      target = end.2 ∙ inner.target ∙ ap (λ n. word (n + 1)) start.2;
      halted = end.3 ∙ inner.halted ∙ start.3;
      hardware =
          end.5
          ∙ inner.hardware
          ∙ ap
              (λ d.
                (mem_write d (mem_read (opened m) (get_pair Pair.hl (opened m).cpu))
                  (opened m)).hardware)
              start.2
          ∙ ap
              (λ h.
                (mem_write (get_pair Pair.de m.cpu) (mem_read (opened m) h) (opened m)).hardware)
              start.1
          ∙ write_opened (get_pair Pair.de m.cpu) (get_pair Pair.hl m.cpu) m;
    }

pub round_pc :
    (m m' : Machine)
    → IsValidCpu m.cpu
    → m' ≡ run (ed_instruction 0xb0) m
    → m'.cpu.pc ≡ (if get_pair Pair.bc m.cpu == 1 then word (m.cpu.pc + 2) else m.cpu.pc)
round_pc m m' v e =
    let start = opened_lem m in
    let end = closed_lem m m' e in
    let inner = ldir_pc (opened m) (opened-IsValidCpu m v) in
    ground (arith, v.pc, start.0, start.4, end.4, inner)
