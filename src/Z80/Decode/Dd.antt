-- ===== src/Z80/Decode/Dd.antt =====
-- decode-dd.ts and decode-fd.ts: the table of the DD opcodes, a row for each sixteen, and the two
-- prefixes over it.
use debug.Base.{ℕ, ◌+◌, ◌*◌, ◌/◌, ◌%◌, List, [], ◌∷◌, ◌++◌, concat, get_or, replicate}
use debug.Base.{byte, word, high, int_sub}
use debug.Z80.State.{Cpu}
use debug.Z80.Constants.{cycle_counts, cycle_counts_dd}
use debug.Z80.Registers.{Reg, Pair, get_reg, set_reg, get_pair}
use debug.Z80.Hardware.{Machine, Handler, mem_read, mem_write, on_cpu}
use debug.Z80.Alu.{
  get_signed_offset_byte, do_add, do_adc, do_sub, do_sbc, do_and, do_xor, do_or, do_cp, do_inc,
  do_dec,
}
use debug.Z80.Alu16.{do_ix_add}
use debug.Z80.Rotate.{ByteOp}
use debug.Z80.Stack.{set_sp, push_word, pop_word}
use debug.Z80.Jump.{add_cycles, land_at}
use debug.Z80.Decode.Operands.{noop, inc_r, fetch, fetch_word, write_word, read_word}
use debug.Z80.Decode.Ddcb.{ddcb_handler}

abbrev pub set_ix : ℕ → Cpu → Cpu
set_ix v cpu = record cpu { ix = v }

abbrev pub set_ixh : ℕ → Cpu → Cpu
set_ixh v cpu = set_ix (v * 256 + byte cpu.ix) cpu

abbrev pub set_ixl : ℕ → Cpu → Cpu
set_ixl v cpu = set_ix (cpu.ix / 256 % 256 * 256 + v) cpu

-- `offset = getSignedOffsetByte(fetched)`, and `(cpu.ix + offset) & 0xffff`.
unfoldable pub indexed : Machine → ℕ × Machine
unfolding fetch
indexed m =
    let (displacement, m') = fetch m in (word (m'.cpu.ix + get_signed_offset_byte displacement), m')

unfoldable pub ld_ix_nn : Handler
unfolding fetch_word
ld_ix_nn m = let (v, m') = fetch_word m in on_cpu (set_ix v) m'

unfoldable pub ld_mem_ix : Handler
unfolding fetch_word write_word
ld_mem_ix m = let (address, m') = fetch_word m in write_word address m'.cpu.ix m'

unfoldable pub ld_ix_mem : Handler
unfolding fetch_word read_word
ld_ix_mem m = let (address, m') = fetch_word m in on_cpu (set_ix (read_word address m')) m'

-- `cpu.ix = (op(cpu.ix >>> 8) << 8) | (cpu.ix & 0xff)`
unfoldable pub op_ixh : ByteOp → Cpu → Cpu
op_ixh op cpu = let (v, f) = op (cpu.ix / 256) cpu.flags in set_ixh v (record cpu { flags = f })

unfoldable pub op_ixl : ByteOp → Cpu → Cpu
op_ixl op cpu = let (v, f) = op (byte cpu.ix) cpu.flags in set_ixl v (record cpu { flags = f })

unfoldable pub ld_ixh_n : Handler
unfolding fetch
ld_ixh_n m = let (v, m') = fetch m in on_cpu (set_ixh v) m'

unfoldable pub ld_ixl_n : Handler
unfolding fetch
ld_ixl_n m = let (v, m') = fetch m in on_cpu (set_ixl (byte v)) m'

-- INC (IX+n) and DEC (IX+n)
unfoldable pub op_indexed : ByteOp → Handler
unfolding indexed
op_indexed op m =
    let (address, m1) = indexed m in
    let (v, f) = op (mem_read m1 address) m1.cpu.flags in
    mem_write address v (on_cpu (λ cpu. record cpu { flags = f }) m1)

unfoldable pub ld_indexed_n : Handler
unfolding indexed fetch
ld_indexed_n m = let (address, m1) = indexed m in let (v, m2) = fetch m1 in mem_write address v m2

unfoldable pub ld_reg_indexed : Reg → Handler
unfolding indexed
ld_reg_indexed r m = let (address, m') = indexed m in on_cpu (set_reg r (mem_read m' address)) m'

unfoldable pub ld_indexed_reg : Reg → Handler
unfolding indexed
ld_indexed_reg r m = let (address, m') = indexed m in mem_write address (get_reg r m'.cpu) m'

unfoldable pub alu_indexed : (ℕ → Cpu → Cpu) → Handler
unfolding indexed
alu_indexed op m = let (address, m') = indexed m in on_cpu (op (mem_read m' address)) m'

unfoldable pub pop_ix : Handler
pop_ix m = let (v, m') = pop_word m in on_cpu (set_ix v) m'

unfoldable pub ex_sp_ix : Handler
unfolding write_word read_word
ex_sp_ix m = write_word m.cpu.sp m.cpu.ix (on_cpu (set_ix (read_word m.cpu.sp m)) m)

abbrev pub add_ix : (Cpu → ℕ) → Handler
add_ix value = on_cpu λ cpu. do_ix_add (value cpu) cpu

abbrev pub ld_reg_ixh : Reg → Handler
ld_reg_ixh r = on_cpu λ cpu. set_reg r (high cpu.ix) cpu

abbrev pub ld_reg_ixl : Reg → Handler
ld_reg_ixl r = on_cpu λ cpu. set_reg r (byte cpu.ix) cpu

abbrev pub ld_ixh_reg : Reg → Handler
ld_ixh_reg r = on_cpu λ cpu. set_ixh (get_reg r cpu) cpu

abbrev pub ld_ixl_reg : Reg → Handler
ld_ixl_reg r = on_cpu λ cpu. set_ixl (get_reg r cpu) cpu

abbrev pub alu_ixh : (ℕ → Cpu → Cpu) → Handler
alu_ixh op = on_cpu λ cpu. op (high cpu.ix) cpu

abbrev pub alu_ixl : (ℕ → Cpu → Cpu) → Handler
alu_ixl op = on_cpu λ cpu. op (byte cpu.ix) cpu

-- The eight opcodes of an ALU operation: only the last three but one are defined.
abbrev pub alu_row : (ℕ → Cpu → Cpu) → List Handler
alu_row op = noop ∷ noop ∷ noop ∷ noop ∷ alu_ixh op ∷ alu_ixl op ∷ alu_indexed op ∷ noop ∷ []

-- The eight opcodes that load a register other than H and L.
abbrev pub ld_row : Reg → List Handler
ld_row r = noop ∷ noop ∷ noop ∷ noop ∷ ld_reg_ixh r ∷ ld_reg_ixl r ∷ ld_reg_indexed r ∷ noop ∷ []

abbrev pub dd_row_0 : List Handler
dd_row_0 = replicate 9 noop ++ add_ix (get_pair Pair.bc) ∷ replicate 6 noop

abbrev pub dd_row_1 : List Handler
dd_row_1 = replicate 9 noop ++ add_ix (get_pair Pair.de) ∷ replicate 6 noop

abbrev pub dd_row_2 : List Handler
dd_row_2 =
    noop
    ∷ ld_ix_nn
    ∷ ld_mem_ix
    ∷ on_cpu (λ cpu. set_ix (word (cpu.ix + 1)) cpu)
    ∷ on_cpu (op_ixh do_inc)
    ∷ on_cpu (op_ixh do_dec)
    ∷ ld_ixh_n
    ∷ noop
    ∷ noop
    ∷ add_ix (λ cpu. cpu.ix)
    ∷ ld_ix_mem
    ∷ on_cpu (λ cpu. set_ix (word (int_sub cpu.ix 1)) cpu)
    ∷ on_cpu (op_ixl do_inc)
    ∷ on_cpu (op_ixl do_dec)
    ∷ ld_ixl_n
    ∷ noop
    ∷ []

abbrev pub dd_row_3 : List Handler
dd_row_3 =
    noop
    ∷ noop
    ∷ noop
    ∷ noop
    ∷ op_indexed do_inc
    ∷ op_indexed do_dec
    ∷ ld_indexed_n
    ∷ noop
    ∷ noop
    ∷ add_ix (λ cpu. cpu.sp)
    ∷ replicate 6 noop

abbrev pub dd_row_6 : List Handler
dd_row_6 =
    ld_ixh_reg Reg.b
    ∷ ld_ixh_reg Reg.c
    ∷ ld_ixh_reg Reg.d
    ∷ ld_ixh_reg Reg.e
    ∷ noop
    ∷ on_cpu (λ cpu. set_ixh (byte cpu.ix) cpu)
    ∷ ld_reg_indexed Reg.h
    ∷ ld_ixh_reg Reg.a
    ∷ ld_ixl_reg Reg.b
    ∷ ld_ixl_reg Reg.c
    ∷ ld_ixl_reg Reg.d
    ∷ ld_ixl_reg Reg.e
    ∷ on_cpu (λ cpu. set_ixl (cpu.ix / 256) cpu)
    ∷ noop
    ∷ ld_reg_indexed Reg.l
    ∷ ld_ixl_reg Reg.a
    ∷ []

abbrev pub dd_row_7 : List Handler
dd_row_7 =
    ld_indexed_reg Reg.b
    ∷ ld_indexed_reg Reg.c
    ∷ ld_indexed_reg Reg.d
    ∷ ld_indexed_reg Reg.e
    ∷ ld_indexed_reg Reg.h
    ∷ ld_indexed_reg Reg.l
    ∷ noop
    ∷ ld_indexed_reg Reg.a
    ∷ ld_row Reg.a

abbrev pub dd_row_e : List Handler
dd_row_e =
    noop
    ∷ pop_ix
    ∷ noop
    ∷ ex_sp_ix
    ∷ noop
    ∷ (λ m. push_word m.cpu.ix m)
    ∷ noop
    ∷ noop
    ∷ noop
    ∷ (λ m. land_at m.cpu.ix m)
    ∷ replicate 6 noop

abbrev pub dd_row_c : List Handler
dd_row_c = replicate 11 noop ++ ddcb_handler ∷ replicate 20 noop

abbrev pub dd_row_f : List Handler
dd_row_f = replicate 9 noop ++ on_cpu (λ cpu. set_sp cpu.ix cpu) ∷ replicate 6 noop

abbrev pub dd_rows : List (List Handler)
dd_rows =
    dd_row_0
    ∷ dd_row_1
    ∷ dd_row_2
    ∷ dd_row_3
    ∷ ld_row Reg.b
    ∷ ld_row Reg.c
    ∷ ld_row Reg.d
    ∷ ld_row Reg.e
    ∷ dd_row_6
    ∷ dd_row_7
    ∷ alu_row do_add
    ∷ alu_row do_adc
    ∷ alu_row do_sub
    ∷ alu_row do_sbc
    ∷ alu_row do_and
    ∷ alu_row do_xor
    ∷ alu_row do_or
    ∷ alu_row do_cp
    ∷ dd_row_c
    ∷ dd_row_e
    ∷ dd_row_f
    ∷ []

unfoldable pub dd_instructions : List Handler
dd_instructions = concat dd_rows

abbrev pub dd_cycles : ℕ → ℕ
dd_cycles opcode1 = get_or cycle_counts_dd opcode1 (get_or cycle_counts 0 0)

unfoldable pub dd_handler : Handler
unfolding dd_instructions fetch inc_r
dd_handler m =
    let (opcode1, m1) = fetch (on_cpu inc_r m) in
    on_cpu (add_cycles (dd_cycles opcode1)) (get_or dd_instructions opcode1 noop m1)

-- IY stands in for IX while the DD handler runs.
unfoldable pub fd_handler : Handler
unfolding dd_instructions fetch inc_r
fd_handler m =
    let (opcode1, m1) = fetch (on_cpu inc_r m) in
    let temp = m1.cpu.ix in
    let m2 = get_or dd_instructions opcode1 noop (on_cpu (λ cpu. set_ix cpu.iy cpu) m1) in
    on_cpu (λ cpu. add_cycles (dd_cycles opcode1) (record cpu { iy = cpu.ix; ix = temp })) m2
