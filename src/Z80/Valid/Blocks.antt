-- ===== src/Z80/Valid/Blocks.antt =====
-- The block operations, and the ED and DD handlers that stand in the tables.
use debug.Base.{ℕ, arith, Bool}
use debug.Z80.State.{Flags, Cpu}
use debug.Z80.Registers.{Reg, Pair, get_pair}
use debug.Z80.Hardware.{Machine, Handler, mem_read}
use debug.Z80.Block.{
  inc_pair, dec_pair, transfer_flags, transfer, search_flags, set_p, compare_step, dec_b, set_n,
  input_step, output_step, repeat_while,
}
use debug.Z80.Decode.Operands.{fetch_word}
use debug.Z80.Decode.Ed.{
  in_flags, do_in, in_reg, in_none, out_value, retn, ld_a_i, ld_a_r, digit_flags, rrd, rld,
  ld_mem_sp, ld_sp_mem,
}
use debug.Z80.Valid.{IsValidFlags, IsValid, Keeps, KeepsCpu}
use debug.Z80.Valid.Registers.{set_pair-IsValidCpu}
use debug.Z80.Valid.Arithmetic.{do_cp-IsValidCpu, do_dec-KeepsByte}
use debug.Z80.Valid.Memory.{
  on_cpu-Keeps, mem_write-Keeps, write_word-Keeps, io_read-IsValid, io_read-lt, io_write-Keeps,
  fetch_word-IsValid, read_word-lt, return-Keeps, if-IsValid,
}
use debug.Z80.Valid.Transfers.{set_flags-IsValid, set_reg-IsValid}

-- `inc_pair` and `dec_pair`, as the way that a block operation goes.
abbrev pub KeepsMove : (Pair → Cpu → Cpu) → Type 0
KeepsMove move = (q : Pair) → KeepsCpu (move q)

pub inc_pair-KeepsMove : KeepsMove inc_pair
inc_pair-KeepsMove q cpu v = set_pair-IsValidCpu q _ cpu v

pub dec_pair-KeepsMove : KeepsMove dec_pair
dec_pair-KeepsMove q cpu v = set_pair-IsValidCpu q _ cpu v

transfer_flags-IsValidCpu : (n : ℕ) → KeepsCpu (transfer_flags n)
unfolding transfer_flags
transfer_flags-IsValidCpu n cpu v = ground arith

search_flags-IsValidCpu : (n : ℕ) → KeepsCpu (search_flags n)
unfolding search_flags
search_flags-IsValidCpu n cpu v = omega (arith, v, do_cp-IsValidCpu n cpu v)

set_p-IsValidCpu : (n : ℕ) → KeepsCpu (set_p n)
unfolding set_p
set_p-IsValidCpu n cpu v = ground arith

dec_b-IsValidCpu : KeepsCpu dec_b
unfolding dec_b
dec_b-IsValidCpu cpu v = omega (arith, v, do_dec-KeepsByte cpu.b cpu.flags v.b v.flags)

set_n-IsValidCpu : KeepsCpu set_n
set_n-IsValidCpu cpu v = omega (arith, v)

module _ (move : Pair → Cpu → Cpu) (keep : KeepsMove move) where
  pub transfer-Keeps : Keeps (transfer move)
  unfolding transfer
  transfer-Keeps m v =
      let v1 = mem_write-Keeps (get_pair Pair.de m.cpu) (mem_read m (get_pair Pair.hl m.cpu)) m v in
      let moved = keep Pair.hl _ (keep Pair.de _ v1.cpu) in
      record {
        cpu = transfer_flags-IsValidCpu _ _ (dec_pair-KeepsMove Pair.bc _ moved);
        memory = v1.memory;
      }

  pub compare_step-Keeps : Keeps (compare_step move)
  unfolding compare_step
  compare_step-Keeps m v =
      let moved = keep Pair.hl _ (search_flags-IsValidCpu _ m.cpu v.cpu) in
      record { cpu = set_p-IsValidCpu _ _ (dec_pair-KeepsMove Pair.bc _ moved); memory = v.memory }

  pub input_step-Keeps : Keeps (input_step move)
  unfolding input_step
  input_step-Keeps m v =
      on_cpu-Keeps _ (λ cpu v. set_n-IsValidCpu _ (keep Pair.hl cpu v)) _
        (mem_write-Keeps _ _ _ (io_read-IsValid _ _ (on_cpu-Keeps dec_b dec_b-IsValidCpu m v)))

  pub output_step-Keeps : Keeps (output_step move)
  unfolding output_step
  output_step-Keeps m v =
      on_cpu-Keeps _ (λ cpu v. set_n-IsValidCpu _ (dec_b-IsValidCpu _ (keep Pair.hl cpu v))) _
        (io_write-Keeps _ _ m v)

pub repeat_while-Keeps :
    (more : Cpu → Bool) (step : Handler) → Keeps step → Keeps (repeat_while more step)
unfolding repeat_while
repeat_while-Keeps more step keep m v =
    let v' = keep m v in
    if-IsValid (more (step m).cpu) (record { cpu = omega (arith, v'.cpu); memory = v'.memory }) v'

in_flags-IsValidFlags : (n : ℕ) (f : Flags) → IsValidFlags f → IsValidFlags (in_flags n f)
unfolding in_flags
in_flags-IsValidFlags n f v = ground arith

do_in-IsValid : (port : ℕ) (m : Machine) → IsValid m → IsValid (do_in port m).1
unfolding do_in
do_in-IsValid port m v =
    let v' = io_read-IsValid port m v in
    set_flags-IsValid _ _ (in_flags-IsValidFlags _ _ v'.cpu.flags) v'

pub in_reg-Keeps : (r : Reg) → Keeps (in_reg r)
unfolding in_reg do_in
in_reg-Keeps r m v =
    set_reg-IsValid r _ _ (io_read-lt (get_pair Pair.bc m.cpu) m) (do_in-IsValid _ m v)

pub in_none-Keeps : Keeps in_none
unfolding in_none
in_none-Keeps m v = do_in-IsValid _ m v

pub out_value-Keeps : (value : Cpu → ℕ) → Keeps (out_value value)
unfolding out_value
out_value-Keeps value m v = io_write-Keeps _ _ m v

pub retn-Keeps : Keeps retn
unfolding retn
retn-Keeps m v =
    let v' = return-Keeps m v in record { cpu = omega (arith, v'.cpu); memory = v'.memory }

pub ld_a_i-IsValidCpu : KeepsCpu ld_a_i
unfolding ld_a_i
ld_a_i-IsValidCpu cpu v = ground arith

pub ld_a_r-IsValidCpu : KeepsCpu ld_a_r
unfolding ld_a_r
ld_a_r-IsValidCpu cpu v = omega (arith, v)

digit_flags-IsValidCpu : KeepsCpu digit_flags
unfolding digit_flags
digit_flags-IsValidCpu cpu v = omega (arith, v, in_flags-IsValidFlags cpu.a cpu.flags v.flags)

pub rrd-Keeps : Keeps rrd
unfolding rrd
rrd-Keeps m v =
    on_cpu-Keeps digit_flags digit_flags-IsValidCpu _
      (mem_write-Keeps _ _ _ (set_reg-IsValid Reg.a _ m (omega arith) v))

pub rld-Keeps : Keeps rld
unfolding rld
rld-Keeps m v =
    on_cpu-Keeps digit_flags digit_flags-IsValidCpu _
      (mem_write-Keeps _ _ _ (set_reg-IsValid Reg.a _ m (omega arith) v))

pub ld_mem_sp-Keeps : Keeps ld_mem_sp
unfolding ld_mem_sp
ld_mem_sp-Keeps m v = write_word-Keeps _ _ _ (fetch_word-IsValid m v)

pub ld_sp_mem-Keeps : Keeps ld_sp_mem
unfolding ld_sp_mem
ld_sp_mem-Keeps m v =
    let v' = fetch_word-IsValid m v in
    let low = read_word-lt (fetch_word m).0 _ v' in
    record { cpu = omega (arith, low, v'.cpu); memory = v'.memory }
