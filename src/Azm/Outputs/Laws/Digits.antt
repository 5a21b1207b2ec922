-- ===== src/Azm/Outputs/Laws/Digits.antt =====
-- Hexadecimal digits, read back.
use debug.Base.{
  ℕ, ◌+◌, ◌*◌, ◌/◌, ◌%◌, ◌≤◌, ◌<◌, ◌≡◌, ◌∙◌, ap, arith, none, some, [], ◌∷◌, ◌++◌, pos, byte, high,
  false, if_false, All,
}
use debug.Z80.Loaders.{
  Text, parse_int, trim_start, is_space, scan_digits, digit_value, as_positive, signed_digits,
}
use debug.Azm.Outputs.WriteHex.{to_hex_byte, hex_digit}

digit_value-hex_digit : (d : ℕ) → d < 16 → digit_value (hex_digit d) ≡ some d
unfolding digit_value
digit_value-hex_digit d h = ground arith

first_digit :
    (d : ℕ) (text : Text)
    → d < 16
    → scan_digits (hex_digit d ∷ text) none ≡ scan_digits text (some d)
unfolding scan_digits digit_value
first_digit d text h = ground arith

next_digit :
    (d : ℕ) (text : Text) (v : ℕ)
    → d < 16
    → scan_digits (hex_digit d ∷ text) (some v) ≡ scan_digits text (some (v * 16 + d))
unfolding scan_digits digit_value
next_digit d text v h = ground arith

-- The codes of a record: digits, capital letters and the colon.
abbrev pub IsCode : ℕ → Type 0
IsCode code = (48 ≤ code) × (code ≤ 70)

hex_digit-IsCode : (d : ℕ) → d < 16 → IsCode (hex_digit d)
hex_digit-IsCode d h = (ground arith, ground arith)

pub is_space-IsCode : (code : ℕ) → IsCode code → is_space code ≡ false
unfolding is_space
is_space-IsCode code (low, top) = ground arith

pub trim_start-IsCode :
    (code : ℕ) (text : Text) → IsCode code → trim_start (code ∷ text) ≡ code ∷ text
unfolding trim_start
trim_start-IsCode code text h =
    if_false (is_space code) (trim_start text) (code ∷ text) (is_space-IsCode code h)

-- Two codes are neither a sign nor the prefix 0x.
signed_digits-IsCode :
    (code code' : ℕ) (text : Text)
    → IsCode code
    → IsCode code'
    → signed_digits (code ∷ code' ∷ text) ≡ as_positive (scan_digits (code ∷ code' ∷ text) none)
signed_digits-IsCode code code' text (low, top) (low', top') = ground arith

parse_int-hex_digit :
    (d d' : ℕ) (text : Text)
    → d < 16
    → d' < 16
    → parse_int (hex_digit d ∷ hex_digit d' ∷ text)
      ≡ as_positive (scan_digits text (some (d * 16 + d')))
unfolding parse_int
parse_int-hex_digit d d' text h h' =
    ap signed_digits (trim_start-IsCode (hex_digit d) (hex_digit d' ∷ text) (hex_digit-IsCode d h))
    ∙ signed_digits-IsCode (hex_digit d) (hex_digit d') text (hex_digit-IsCode d h)
        (hex_digit-IsCode d' h')
    ∙ ap as_positive (first_digit d (hex_digit d' ∷ text) h ∙ next_digit d' text d h')

two_digits : (n : ℕ) → n % 256 / 16 * 16 + n % 16 ≡ byte n
two_digits n = omega arith

pub parse_int-to_hex_byte : (n : ℕ) → parse_int (to_hex_byte n) ≡ some (pos (byte n))
unfolding to_hex_byte scan_digits
parse_int-to_hex_byte n =
    parse_int-hex_digit (n % 256 / 16) (n % 16) [] (omega arith) (omega arith)
    ∙ ap (λ v. some (pos v)) (two_digits n)

-- An address of four digits.
pub parse_int-address :
    (address : ℕ)
    → address < 65536
    → parse_int (to_hex_byte (high address) ++ to_hex_byte (byte address)) ≡ some (pos address)
unfolding to_hex_byte scan_digits
parse_int-address address h =
    let m = high address in
    let n = byte address in
    parse_int-hex_digit (m % 256 / 16) (m % 16) _ (omega arith) (omega arith)
    ∙ ap as_positive (
        next_digit (n % 256 / 16) (hex_digit (n % 16) ∷ []) _ (omega arith)
        ∙ next_digit (n % 16) [] _ (omega arith))
    ∙ ap (λ v. some (pos v)) (four_digits address h)
  where
    four_digits :
        (a : ℕ)
        → a < 65536
        → ((high a % 256 / 16 * 16 + high a % 16) * 16 + byte a % 256 / 16) * 16 + byte a % 16 ≡ a
    four_digits a h = omega arith

pub to_hex_byte-IsCode : (n : ℕ) → All IsCode (to_hex_byte n)
unfolding to_hex_byte
to_hex_byte-IsCode n =
    (hex_digit-IsCode (n % 256 / 16) (omega arith), (hex_digit-IsCode (n % 16) (omega arith), tt))
