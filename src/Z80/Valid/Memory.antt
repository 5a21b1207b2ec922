-- ===== src/Z80/Valid/Memory.antt =====
-- Reads, writes, the ports, the stack and the program counter.
use debug.Base.{ℕ, ◌+◌, ◌<◌, arith, Bool, byte, word, if◌then◌else◌}
use debug.Z80.State.{Cpu}
use debug.Z80.Hardware.{
  Hardware, Machine, store, mem_read, write_memory, mem_write, io_read, io_write, on_cpu,
}
use debug.Z80.Stack.{push_byte, push_word, pop_word}
use debug.Z80.Jump.{
  operand_word, skip, jump, relative_jump, call, return, do_conditional_absolute_jump,
  do_conditional_relative_jump, do_conditional_call, do_conditional_return, do_reset, land_at,
  add_cycles,
}
use debug.Z80.Decode.Operands.{fetch, fetch_word, inc_r, write_word, read_word}
use debug.Z80.Valid.{IsValid, Keeps, KeepsCpu}

-- Every cell holds a byte.
abbrev pub HoldsBytes : Hardware → Type 0
HoldsBytes hardware = (addr : ℕ) → hardware.memory addr < 256

pub write_memory-HoldsBytes :
    (addr value : ℕ) (hw : Hardware) → HoldsBytes hw → HoldsBytes (write_memory addr value hw)
unfolding write_memory store
write_memory-HoldsBytes addr value hw h other = ground (arith, h other)

pub mem_read-lt : (m : Machine) (addr : ℕ) → IsValid m → mem_read m addr < 256
unfolding mem_read
mem_read-lt m addr v = v.memory (word addr)

pub on_cpu-Keeps : (f : Cpu → Cpu) → KeepsCpu f → Keeps (on_cpu f)
on_cpu-Keeps f keep m v = record { cpu = keep m.cpu v.cpu; memory = v.memory }

pub mem_write-Keeps : (addr value : ℕ) → Keeps (mem_write addr value)
unfolding mem_write
mem_write-Keeps addr value m v = record {
  cpu = v.cpu;
  memory = write_memory-HoldsBytes (word addr) (byte value) m.hardware v.memory;
}

pub write_word-Keeps : (addr value : ℕ) → Keeps (write_word addr value)
unfolding write_word
write_word-Keeps addr value m v = mem_write-Keeps _ _ _ (mem_write-Keeps _ _ m v)

pub io_read-IsValid : (port : ℕ) (m : Machine) → IsValid m → IsValid (io_read port m).1
unfolding io_read
io_read-IsValid port m v = record { cpu = v.cpu; memory = v.memory }

pub io_read-lt : (port : ℕ) (m : Machine) → (io_read port m).0 < 256
unfolding io_read
io_read-lt port m = omega arith

pub io_write-Keeps : (port value : ℕ) → Keeps (io_write port value)
unfolding io_write
io_write-Keeps port value m v = record { cpu = v.cpu; memory = v.memory }

pub skip-Keeps : (k : ℕ) → Keeps (skip k)
skip-Keeps k = on_cpu-Keeps _ (λ cpu v. omega arith)

pub land_at-Keeps : (address : ℕ) → Keeps (land_at address)
land_at-Keeps address = on_cpu-Keeps _ (λ cpu v. omega arith)

pub add_cycles-Keeps : (k : ℕ) → Keeps (on_cpu (add_cycles k))
add_cycles-Keeps k = on_cpu-Keeps _ (λ cpu v. omega arith)

pub inc_r-IsValidCpu : KeepsCpu inc_r
unfolding inc_r
inc_r-IsValidCpu cpu v = omega arith

pub fetch-IsValid : (m : Machine) → IsValid m → IsValid (fetch m).1
unfolding fetch
fetch-IsValid m v = skip-Keeps 1 m v

pub fetch-lt : (m : Machine) → IsValid m → (fetch m).0 < 256
unfolding fetch
fetch-lt m v = mem_read-lt _ _ (skip-Keeps 1 m v)

pub fetch_word-IsValid : (m : Machine) → IsValid m → IsValid (fetch_word m).1
unfolding fetch_word
fetch_word-IsValid m v = skip-Keeps 1 _ (skip-Keeps 1 m v)

pub read_word-lt : (addr : ℕ) (m : Machine) → IsValid m → read_word addr m < 65536
unfolding read_word
read_word-lt addr m v = omega (arith, mem_read-lt m addr v, mem_read-lt m (word (addr + 1)) v)

pub fetch_word-lt : (m : Machine) → IsValid m → (fetch_word m).0 < 65536
unfolding fetch_word
fetch_word-lt m v = omega (arith, fetch-lt m v, fetch-lt (fetch m).1 (fetch-IsValid m v))

pub operand_word-lt : (m : Machine) → IsValid m → operand_word m < 65536
unfolding operand_word
operand_word-lt m v =
    omega (arith, mem_read-lt m (word (m.cpu.pc + 1)) v, mem_read-lt m (word (m.cpu.pc + 2)) v)

pub push_byte-Keeps : (value : ℕ) → Keeps (push_byte value)
unfolding push_byte
push_byte-Keeps value m v =
    mem_write-Keeps _ _ _ (record { cpu = omega (arith, v.cpu); memory = v.memory })

pub push_word-Keeps : (value : ℕ) → Keeps (push_word value)
unfolding push_word
push_word-Keeps value m v = push_byte-Keeps _ _ (push_byte-Keeps _ m v)

pub pop_word-IsValid : (m : Machine) → IsValid m → IsValid (pop_word m).1
unfolding pop_word
pop_word-IsValid m v = record { cpu = omega (arith, v.cpu); memory = v.memory }

pub pop_word-lt : (m : Machine) → IsValid m → (pop_word m).0 < 65536
unfolding pop_word mem_read
pop_word-lt m v = omega (arith, v.memory (word m.cpu.sp), v.memory (word (word (m.cpu.sp + 1))))

pub jump-Keeps : Keeps jump
unfolding jump
jump-Keeps m v = land_at-Keeps _ m v

pub relative_jump-Keeps : Keeps relative_jump
unfolding relative_jump
relative_jump-Keeps m v = record { cpu = omega (arith, v.cpu); memory = v.memory }

pub call-Keeps : Keeps call
unfolding call
call-Keeps m v = jump-Keeps _ (push_word-Keeps _ m v)

pub return-Keeps : Keeps return
unfolding return
return-Keeps m v = land_at-Keeps _ _ (pop_word-IsValid m v)

pub do_reset-Keeps : (address : ℕ) → Keeps (do_reset address)
unfolding do_reset
do_reset-Keeps address m v = land_at-Keeps _ _ (push_word-Keeps _ m v)

-- A conditional handler keeps what both of its branches keep.
pub if-IsValid :
    (test : Bool) {m m' : Machine} → IsValid m → IsValid m' → IsValid (if test then m else m')
if-IsValid Bool.true v v' = v
if-IsValid Bool.false v v' = v'

pub do_conditional_absolute_jump-Keeps : (t : Bool) → Keeps (do_conditional_absolute_jump t)
unfolding do_conditional_absolute_jump
do_conditional_absolute_jump-Keeps t m v = if-IsValid t (jump-Keeps m v) (skip-Keeps 2 m v)

pub do_conditional_relative_jump-Keeps : (t : Bool) → Keeps (do_conditional_relative_jump t)
unfolding do_conditional_relative_jump
do_conditional_relative_jump-Keeps t m v =
    if-IsValid t (relative_jump-Keeps _ (add_cycles-Keeps 5 m v)) (skip-Keeps 1 m v)

pub do_conditional_call-Keeps : (t : Bool) → Keeps (do_conditional_call t)
unfolding do_conditional_call
do_conditional_call-Keeps t m v =
    if-IsValid t (call-Keeps _ (add_cycles-Keeps 7 m v)) (skip-Keeps 2 m v)

pub do_conditional_return-Keeps : (t : Bool) → Keeps (do_conditional_return t)
unfolding do_conditional_return
do_conditional_return-Keeps t m v = if-IsValid t (return-Keeps _ (add_cycles-Keeps 6 m v)) v
