-- ===== src/Z80/Valid/Indexed.antt =====
-- The handlers of decode-dd.ts.
use debug.Base.{ℕ, ◌/◌, ◌<◌, arith, byte}
use debug.Z80.State.{Cpu}
use debug.Z80.Registers.{Reg}
use debug.Z80.Hardware.{Machine, on_cpu}
use debug.Z80.Rotate.{ByteOp}
use debug.Z80.Decode.Operands.{fetch_word}
use debug.Z80.Decode.Dd.{
  indexed, ld_ix_nn, ld_mem_ix, ld_ix_mem, op_ixh, op_ixl, ld_ixh_n, ld_ixl_n, op_indexed,
  ld_indexed_n, ld_reg_indexed, ld_indexed_reg, alu_indexed, pop_ix, ex_sp_ix, set_ix,
}
use debug.Z80.Valid.{IsValid, Keeps, KeepsCpu}
use debug.Z80.Valid.Arithmetic.{KeepsByte}
use debug.Z80.Valid.Memory.{
  mem_read-lt, on_cpu-Keeps, mem_write-Keeps, write_word-Keeps, fetch-IsValid, fetch-lt,
  fetch_word-IsValid, fetch_word-lt, read_word-lt, pop_word-IsValid, pop_word-lt,
}
use debug.Z80.Valid.Transfers.{set_flags-IsValid, set_reg-IsValid}

set_ix-IsValid :
    (n : ℕ) (m : Machine) → n < 65536 → IsValid m → IsValid (on_cpu (λ cpu. set_ix n cpu) m)
set_ix-IsValid n m h v = record { cpu = omega (arith, h, v.cpu); memory = v.memory }

indexed-IsValid : (m : Machine) → IsValid m → IsValid (indexed m).1
unfolding indexed
indexed-IsValid m v = fetch-IsValid m v

pub ld_ix_nn-Keeps : Keeps ld_ix_nn
unfolding ld_ix_nn
ld_ix_nn-Keeps m v = set_ix-IsValid _ _ (fetch_word-lt m v) (fetch_word-IsValid m v)

pub ld_mem_ix-Keeps : Keeps ld_mem_ix
unfolding ld_mem_ix
ld_mem_ix-Keeps m v = write_word-Keeps _ _ _ (fetch_word-IsValid m v)

pub ld_ix_mem-Keeps : Keeps ld_ix_mem
unfolding ld_ix_mem
ld_ix_mem-Keeps m v =
    let v' = fetch_word-IsValid m v in
    set_ix-IsValid _ _ (read_word-lt (fetch_word m).0 (fetch_word m).1 v') v'

pub op_ixh-IsValidCpu : (op : ByteOp) → KeepsByte op → KeepsCpu (op_ixh op)
unfolding op_ixh
op_ixh-IsValidCpu op keep cpu v =
    omega (arith, v, keep (cpu.ix / 256) cpu.flags (omega arith) v.flags)

pub op_ixl-IsValidCpu : (op : ByteOp) → KeepsByte op → KeepsCpu (op_ixl op)
unfolding op_ixl
op_ixl-IsValidCpu op keep cpu v =
    omega (arith, v, keep (byte cpu.ix) cpu.flags (omega arith) v.flags)

pub ld_ixh_n-Keeps : Keeps ld_ixh_n
unfolding ld_ixh_n
ld_ixh_n-Keeps m v =
    let v' = fetch-IsValid m v in
    record { cpu = omega (arith, fetch-lt m v, v'.cpu); memory = v'.memory }

pub ld_ixl_n-Keeps : Keeps ld_ixl_n
unfolding ld_ixl_n
ld_ixl_n-Keeps m v =
    let v' = fetch-IsValid m v in record { cpu = omega (arith, v'.cpu); memory = v'.memory }

pub op_indexed-Keeps : (op : ByteOp) → KeepsByte op → Keeps (op_indexed op)
unfolding op_indexed
op_indexed-Keeps op keep m v =
    let v1 = indexed-IsValid m v in
    let kept =
      keep _ (indexed m).1.cpu.flags (mem_read-lt (indexed m).1 (indexed m).0 v1) v1.cpu.flags in
    mem_write-Keeps _ _ _ (set_flags-IsValid _ _ kept.1 v1)

pub ld_indexed_n-Keeps : Keeps ld_indexed_n
unfolding ld_indexed_n
ld_indexed_n-Keeps m v = mem_write-Keeps _ _ _ (fetch-IsValid _ (indexed-IsValid m v))

pub ld_reg_indexed-Keeps : (r : Reg) → Keeps (ld_reg_indexed r)
unfolding ld_reg_indexed
ld_reg_indexed-Keeps r m v =
    let v1 = indexed-IsValid m v in set_reg-IsValid r _ _ (mem_read-lt _ _ v1) v1

pub ld_indexed_reg-Keeps : (r : Reg) → Keeps (ld_indexed_reg r)
unfolding ld_indexed_reg
ld_indexed_reg-Keeps r m v = mem_write-Keeps _ _ _ (indexed-IsValid m v)

pub alu_indexed-Keeps : (op : ℕ → Cpu → Cpu) → ((n : ℕ) → KeepsCpu (op n)) → Keeps (alu_indexed op)
unfolding alu_indexed
alu_indexed-Keeps op keep m v = on_cpu-Keeps _ (keep _) _ (indexed-IsValid m v)

pub pop_ix-Keeps : Keeps pop_ix
unfolding pop_ix
pop_ix-Keeps m v = set_ix-IsValid _ _ (pop_word-lt m v) (pop_word-IsValid m v)

pub ex_sp_ix-Keeps : Keeps ex_sp_ix
unfolding ex_sp_ix
ex_sp_ix-Keeps m v = write_word-Keeps _ _ _ (set_ix-IsValid _ m (read_word-lt m.cpu.sp m v) v)
