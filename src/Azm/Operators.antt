-- ===== src/Azm/Operators.antt =====
-- packages/azm/src/semantics/unary-operators.ts, binary-operators.ts and byte-functions.ts: the
-- operators of constant expressions, on integers that a double holds exactly.
use debug.Base.{
  ℕ, zero, suc, ◌+◌, ◌-◌, ◌*◌, ◌/◌, ◌%◌, ◌^◌, ◌==◌, ltb, if◌then◌else◌, bit_and, bit_or, bit_xor,
  Option, none, some, ℤ, pos, negsuc,
}
use debug.Azm.Expression.{ByteFunction, UnaryOperator, BinaryOperator}

-- The difference of two numbers.
abbrev pub minus : ℕ → ℕ → ℤ
minus m n = if ltb m n then negsuc (n - m - 1) else pos (m - n)

abbrev pub add_integers : ℤ → ℤ → ℤ
add_integers (pos m) (pos n) = pos (m + n)
add_integers (pos m) (negsuc n) = minus m (n + 1)
add_integers (negsuc m) (pos n) = minus n (m + 1)
add_integers (negsuc m) (negsuc n) = negsuc (m + n + 1)

abbrev pub negate : ℤ → ℤ
negate (pos zero) = pos 0
negate (pos (suc n)) = negsuc n
negate (negsuc n) = pos (n + 1)

abbrev pub magnitude : ℤ → ℕ
magnitude (pos n) = n
magnitude (negsuc n) = n + 1

-- A magnitude with the sign that two signs multiply to.
abbrev pub signed : ℤ → ℤ → ℕ → ℤ
signed (pos l) (pos r) n = pos n
signed (pos l) (negsuc r) n = negate (pos n)
signed (negsuc l) (pos r) n = negate (pos n)
signed (negsuc l) (negsuc r) n = pos n

-- The 32 bits that a bitwise operator reads, and the integer that it gives for them.
abbrev pub to_bits : ℤ → ℕ
to_bits (pos n) = n % 2 ^ 32
to_bits (negsuc n) = 2 ^ 32 - 1 - n % 2 ^ 32

abbrev pub from_bits : ℕ → ℤ
from_bits n = if ltb n (2 ^ 31) then pos n else negsuc (2 ^ 32 - 1 - n)

-- `value >> n`
abbrev pub shift_right : ℤ → ℕ → ℤ
shift_right (pos m) n = pos (m / 2 ^ n)
shift_right (negsuc m) n = negsuc (m / 2 ^ n)

-- `value & 0xff` and `(value >> 8) & 0xff`
abbrev pub low_byte : ℤ → ℕ
low_byte value = to_bits value % 256

abbrev pub high_byte : ℤ → ℕ
high_byte value = to_bits value / 256 % 256

abbrev pub apply_unary_operator : UnaryOperator → ℤ → ℤ
apply_unary_operator UnaryOperator.plus value = value
apply_unary_operator UnaryOperator.minus value = negate value
apply_unary_operator UnaryOperator.complement value = from_bits (2 ^ 32 - 1 - to_bits value)

abbrev pub apply_byte_function : ByteFunction → ℤ → ℤ
apply_byte_function ByteFunction.lsb value = pos (low_byte value)
apply_byte_function ByteFunction.msb value = pos (high_byte value)

-- Dividing by 0 has no value; the quotient is cut towards 0, and the remainder has the sign of the
-- left side.
abbrev pub apply_binary_operator : BinaryOperator → ℤ → ℤ → Option ℤ
apply_binary_operator BinaryOperator.add left right = some (add_integers left right)
apply_binary_operator BinaryOperator.sub left right = some (add_integers left (negate right))
apply_binary_operator BinaryOperator.mul left right =
    some (signed left right (magnitude left * magnitude right))
apply_binary_operator BinaryOperator.div left right =
    if magnitude right == 0
    then none
    else some (signed left right (magnitude left / magnitude right))
apply_binary_operator BinaryOperator.rem left right =
    if magnitude right == 0
    then none
    else some (signed left (pos 0) (magnitude left % magnitude right))
apply_binary_operator BinaryOperator.and left right =
    some (from_bits (bit_and (to_bits left) (to_bits right)))
apply_binary_operator BinaryOperator.xor left right =
    some (from_bits (bit_xor (to_bits left) (to_bits right)))
apply_binary_operator BinaryOperator.or left right =
    some (from_bits (bit_or (to_bits left) (to_bits right)))
apply_binary_operator BinaryOperator.shl left right =
    some (from_bits (to_bits left * 2 ^ (to_bits right % 32) % 2 ^ 32))
apply_binary_operator BinaryOperator.shr left right =
    some (shift_right (from_bits (to_bits left)) (to_bits right % 32))
