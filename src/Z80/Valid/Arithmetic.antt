-- ===== src/Z80/Valid/Arithmetic.antt =====
-- The arithmetic on A, HL and IX, and the operations on a byte with the flags.
use debug.Base.{ℕ, ◌/◌, ◌%◌, ◌<◌, arith, All, All-get_or, ◌◂◌, byte, bit_and, bit_or, bit_xor}
use debug.Base.{bit_and-le}
use debug.Z80.State.{Flags}
use debug.Z80.Flags.{set_flags_from_byte}
use debug.Z80.Constants.{parity_bits}
use debug.Z80.Alu.{
  parity, do_add, do_adc, do_sub, do_sbc, do_cp, do_and, do_or, do_xor, do_inc, do_dec, do_neg,
  daa_result, daa,
}
use debug.Z80.Alu16.{do_hl_add, do_hl_adc, do_hl_sbc, do_ix_add}
use debug.Z80.Rotate.{
  ByteOp, set_rotate_flags, do_rlc, do_rrc, do_rl, do_rr, do_sla, do_sra, do_sll, do_srl, byte_ops,
  identity_op, get_byte_op,
}
use debug.Z80.Valid.{IsValidFlags, KeepsCpu}

parity_bits-lt : All (λ v. v < 2) parity_bits
unfolding parity_bits
parity_bits-lt = omega arith

pub parity-lt : (n : ℕ) → parity n < 2
unfolding parity
parity-lt n = All-get_or (λ v. v < 2) parity_bits n 0 parity_bits-lt (omega arith)

pub set_flags_from_byte-IsValidFlags : (n : ℕ) → IsValidFlags (set_flags_from_byte n)
unfolding set_flags_from_byte
set_flags_from_byte-IsValidFlags n = omega arith

pub do_add-IsValidCpu : (n : ℕ) → KeepsCpu (do_add n)
unfolding do_add
do_add-IsValidCpu n cpu v = ground arith

pub do_adc-IsValidCpu : (n : ℕ) → KeepsCpu (do_adc n)
unfolding do_adc
do_adc-IsValidCpu n cpu v = ground arith

pub do_sub-IsValidCpu : (n : ℕ) → KeepsCpu (do_sub n)
unfolding do_sub
do_sub-IsValidCpu n cpu v = ground arith

pub do_sbc-IsValidCpu : (n : ℕ) → KeepsCpu (do_sbc n)
unfolding do_sbc
do_sbc-IsValidCpu n cpu v = ground arith

pub do_cp-IsValidCpu : (n : ℕ) → KeepsCpu (do_cp n)
unfolding do_cp
do_cp-IsValidCpu n cpu v = ground arith

pub do_and-IsValidCpu : (n : ℕ) → KeepsCpu (do_and n)
unfolding do_and
do_and-IsValidCpu n cpu v =
    ground (arith, bit_and-le cpu.a (byte n), parity-lt (bit_and cpu.a (byte n)))

pub do_or-IsValidCpu : (n : ℕ) → KeepsCpu (do_or n)
unfolding do_or
do_or-IsValidCpu n cpu v = ground (arith, parity-lt (byte (bit_or n cpu.a)))

pub do_xor-IsValidCpu : (n : ℕ) → KeepsCpu (do_xor n)
unfolding do_xor
do_xor-IsValidCpu n cpu v = ground (arith, parity-lt (byte (bit_xor n cpu.a)))

pub do_neg-IsValidCpu : KeepsCpu do_neg
unfolding do_neg
do_neg-IsValidCpu cpu v = ground arith

pub do_hl_add-IsValidCpu : (n : ℕ) → KeepsCpu (do_hl_add n)
unfolding do_hl_add
do_hl_add-IsValidCpu n cpu v = ground arith

pub do_hl_adc-IsValidCpu : (n : ℕ) → KeepsCpu (do_hl_adc n)
unfolding do_hl_adc
do_hl_adc-IsValidCpu n cpu v = ground arith

pub do_hl_sbc-IsValidCpu : (n : ℕ) → KeepsCpu (do_hl_sbc n)
unfolding do_hl_sbc
do_hl_sbc-IsValidCpu n cpu v = ground arith

pub do_ix_add-IsValidCpu : (n : ℕ) → KeepsCpu (do_ix_add n)
unfolding do_ix_add
do_ix_add-IsValidCpu n cpu v = ground arith

-- A byte operation gives a byte and keeps the flags in range.
abbrev pub KeepsByte : ByteOp → Type 0
KeepsByte op =
    (n : ℕ) (f : Flags) → n < 256 → IsValidFlags f → (op n f).0 < 256 × IsValidFlags (op n f).1

pub do_inc-KeepsByte : KeepsByte do_inc
unfolding do_inc
do_inc-KeepsByte n f h v = ground arith

pub do_dec-KeepsByte : KeepsByte do_dec
unfolding do_dec
do_dec-KeepsByte n f h v = ground arith

set_rotate_flags-IsValidFlags :
    (result carry : ℕ) (f : Flags)
    → carry < 2
    → IsValidFlags f
    → IsValidFlags (set_rotate_flags result carry f)
unfolding set_rotate_flags
set_rotate_flags-IsValidFlags result carry f h v = ground (arith, parity-lt result)

pub do_rlc-KeepsByte : KeepsByte do_rlc
unfolding do_rlc
do_rlc-KeepsByte n f h v = (omega arith, set_rotate_flags-IsValidFlags _ _ f (omega arith) v)

pub do_rrc-KeepsByte : KeepsByte do_rrc
unfolding do_rrc
do_rrc-KeepsByte n f h v = (omega arith, set_rotate_flags-IsValidFlags _ _ f (omega arith) v)

pub do_rl-KeepsByte : KeepsByte do_rl
unfolding do_rl
do_rl-KeepsByte n f h v = (omega arith, set_rotate_flags-IsValidFlags _ _ f (omega arith) v)

pub do_rr-KeepsByte : KeepsByte do_rr
unfolding do_rr
do_rr-KeepsByte n f h v = (omega arith, set_rotate_flags-IsValidFlags _ _ f (omega arith) v)

do_sla-KeepsByte : KeepsByte do_sla
unfolding do_sla
do_sla-KeepsByte n f h v = (omega arith, set_rotate_flags-IsValidFlags _ _ f (omega arith) v)

do_sra-KeepsByte : KeepsByte do_sra
unfolding do_sra
do_sra-KeepsByte n f h v = (omega arith, set_rotate_flags-IsValidFlags _ _ f (omega arith) v)

do_sll-KeepsByte : KeepsByte do_sll
unfolding do_sll
do_sll-KeepsByte n f h v = (omega arith, set_rotate_flags-IsValidFlags _ _ f (omega arith) v)

do_srl-KeepsByte : KeepsByte do_srl
unfolding do_srl
do_srl-KeepsByte n f h v = ground (arith, parity-lt (n / 2 % 128))

byte_ops-KeepsByte : All KeepsByte byte_ops
byte_ops-KeepsByte =
    do_rlc-KeepsByte ◂ do_rrc-KeepsByte ◂ do_rl-KeepsByte ◂ do_rr-KeepsByte ◂ do_sla-KeepsByte
    ◂ do_sra-KeepsByte ◂ do_sll-KeepsByte ◂ do_srl-KeepsByte ◂ tt

pub get_byte_op-KeepsByte : (i : ℕ) → KeepsByte (get_byte_op i)
unfolding get_byte_op
get_byte_op-KeepsByte i =
    All-get_or KeepsByte byte_ops i identity_op byte_ops-KeepsByte (λ n f h v. (h, v))

pub daa-IsValidCpu : KeepsCpu daa
unfolding daa
daa-IsValidCpu cpu v = ground (arith, parity-lt (byte (daa_result cpu)))
