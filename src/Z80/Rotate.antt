-- ===== src/Z80/Rotate.antt =====
-- rotate.ts: each operation takes the flags and a byte, and gives the new byte and flags.
use debug.Base.{ℕ, ◌+◌, ◌*◌, ◌/◌, ◌%◌, ◌==◌, flag, bit, byte, List, [], ◌∷◌, get_or}
use debug.Z80.State.{Flags}
use debug.Z80.Flags.{update_xy_flags}
use debug.Z80.Alu.{parity}

unfoldable pub set_rotate_flags : ℕ → ℕ → Flags → Flags
unfolding update_xy_flags
set_rotate_flags result carry f = update_xy_flags result (record f {
  n = 0;
  h = 0;
  c = carry;
  z = flag (result == 0);
  p = parity result;
  s = bit 7 result;
})

abbrev pub ByteOp : Type 0
ByteOp = ℕ → Flags → ℕ × Flags

abbrev pub rotated : ℕ → ℕ → Flags → ℕ × Flags
rotated result carry f = (result, set_rotate_flags result carry f)

unfoldable pub do_rlc : ByteOp
do_rlc operand f = let carry = bit 7 operand in rotated (byte (operand * 2 + carry)) carry f

unfoldable pub do_rrc : ByteOp
do_rrc operand f = let carry = bit 0 operand in rotated (operand / 2 % 128 + carry * 128) carry f

unfoldable pub do_rl : ByteOp
do_rl operand f = rotated (byte (operand * 2 + f.c)) (bit 7 operand) f

unfoldable pub do_rr : ByteOp
do_rr operand f = rotated (operand / 2 % 128 + f.c * 128) (bit 0 operand) f

unfoldable pub do_sla : ByteOp
do_sla operand f = rotated (byte (operand * 2)) (bit 7 operand) f

unfoldable pub do_sra : ByteOp
do_sra operand f = rotated (operand / 2 % 128 + bit 7 operand * 128) (bit 0 operand) f

unfoldable pub do_sll : ByteOp
do_sll operand f = rotated (byte (operand * 2) + 1) (bit 7 operand) f

-- SRL then clears S, which is clear already.
unfoldable pub do_srl : ByteOp
unfolding set_rotate_flags
do_srl operand f =
    let result = operand / 2 % 128 in
    (result, record (set_rotate_flags result (bit 0 operand) f) { s = 0 })

-- The array that the CB decoders index by the three bits of the operation.
abbrev pub byte_ops : List ByteOp
byte_ops = do_rlc ∷ do_rrc ∷ do_rl ∷ do_rr ∷ do_sla ∷ do_sra ∷ do_sll ∷ do_srl ∷ []

abbrev pub identity_op : ByteOp
identity_op value f = (value, f)

unfoldable pub get_byte_op : ℕ → ByteOp
get_byte_op i = get_or byte_ops i identity_op
