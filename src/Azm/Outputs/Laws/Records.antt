-- ===== src/Azm/Outputs/Laws/Records.antt =====
-- A record that is written, read back.
use debug.Base.{
  ℕ, zero, suc, ◌+◌, ◌-◌, ◌*◌, ◌≤◌, ◌<◌, ◌≡◌, refl, ◌∙◌, ap, ap₂, arith, some, List, [], ◌∷◌, ◌++◌,
  leb, not, length, pos, byte, high, true, if_false,
}
use debug.Z80.Hardware.{store}
use debug.Z80.Loaders.{
  Text, take, drop, slice, parse_int, load_bytes, load_record, index_of, to_uint8, ParsedHex,
  write_at, load_lines, is_record, count_of, trim_start, scan_digits, digit_value, is_space,
}
use debug.Azm.Outputs.WriteHex.{to_hex_byte, hex_bytes, record_line, to_checksum}
use debug.Azm.Outputs.Laws.Digits.{parse_int-to_hex_byte, parse_int-address}

take-hex_bytes :
    (values : List ℕ) (rest : Text)
    → take (length values * 2) (hex_bytes values ++ rest) ≡ hex_bytes values
unfolding hex_bytes to_hex_byte
take-hex_bytes [] rest = refl
take-hex_bytes (v ∷ vs) rest =
    let two : suc (length vs) * 2 ≡ suc (suc (length vs * 2)) = omega arith in
    ap (λ n. take n (hex_bytes (v ∷ vs) ++ rest)) two
    ∙ ap (λ digits. to_hex_byte v ++ digits) (take-hex_bytes vs rest)

drop-suc-suc : (n : ℕ) (text : Text) → drop (suc (suc n)) text ≡ drop 2 (drop n text)
drop-suc-suc zero text = refl
drop-suc-suc (suc n) [] = refl
drop-suc-suc (suc n) (code ∷ text) = drop-suc-suc n text

-- The bytes one behind the other, from an address on.
abbrev pub write_bytes : ℕ → List ℕ → (ℕ → ℕ) → ℕ → ℕ
write_bytes address [] memory = memory
write_bytes address (v ∷ vs) memory = write_bytes (address + 1) vs (store memory address (byte v))

module _ (address : ℕ) (digits : Text) where
  byte_read :
      (i v : ℕ) (vs : List ℕ)
      → drop (i * 2) digits ≡ hex_bytes (v ∷ vs)
      → to_uint8 (parse_int (slice (i * 2) (i * 2 + 2) digits)) ≡ byte v
  unfolding hex_bytes to_hex_byte to_uint8
  byte_read i v vs e =
      let two : i * 2 + 2 - i * 2 ≡ 2 = omega arith in
      let small : byte (byte v) ≡ byte v = omega arith in
      ap (λ n. to_uint8 (parse_int (take n (drop (i * 2) digits)))) two
      ∙ ap (λ text. to_uint8 (parse_int (take 2 text))) e
      ∙ ap to_uint8 (parse_int-to_hex_byte v)
      ∙ small

  next_byte :
      (i v : ℕ) (vs : List ℕ)
      → drop (i * 2) digits ≡ hex_bytes (v ∷ vs)
      → drop ((i + 1) * 2) digits ≡ hex_bytes vs
  unfolding hex_bytes to_hex_byte
  next_byte i v vs e =
      let two : (i + 1) * 2 ≡ suc (suc (i * 2)) = omega arith in
      ap (λ n. drop n digits) two ∙ drop-suc-suc (i * 2) digits ∙ ap (drop 2) e

  index_of-within :
      (i : ℕ) → address + i < 65536 → index_of (some (pos address)) i ≡ some (address + i)
  index_of-within i h = ground arith

  load_bytes-write_bytes :
      (values : List ℕ) (i : ℕ) (memory : ℕ → ℕ)
      → address + i + length values ≤ 65536
      → drop (i * 2) digits ≡ hex_bytes values
      → load_bytes (length values) i (some (pos address)) digits memory
        ≡ write_bytes (address + i) values memory
  unfolding load_bytes
  load_bytes-write_bytes [] i memory h e = refl
  load_bytes-write_bytes (v ∷ vs) i memory h e =
      let next : address + (i + 1) ≡ address + i + 1 = omega arith in
      ap₂
        (λ location value.
          load_bytes (length vs) (i + 1) (some (pos address)) digits
            (write_at location value memory))
        (index_of-within i (omega arith)) (byte_read i v vs e)
      ∙ load_bytes-write_bytes vs (i + 1) _ (omega arith) (next_byte i v vs e)
      ∙ ap (λ n. write_bytes n vs (store memory (address + i) (byte v))) next

  at_least_2 : (values : List ℕ) (n : ℕ) → 2 ≤ length (hex_bytes values ++ to_hex_byte n)
  unfolding hex_bytes to_hex_byte
  at_least_2 [] n = omega arith
  at_least_2 (v ∷ vs) n = omega (arith, at_least_2 vs n)

-- A line of bytes inside the address space, as `parseIntelHex` takes it.
module _ (address : ℕ) (values : List ℕ) (few : length values < 256)
    (inside : address + length values ≤ 65536) (start : address < 65536) where
  abbrev pub line : Text
  line = record_line (length values) address values

  byte_count : parse_int (slice 1 3 line) ≡ some (pos (length values))
  unfolding record_line to_hex_byte
  byte_count = parse_int-to_hex_byte (length values) ∙ ap (λ n. some (pos n)) small
    where
      small : byte (length values) ≡ length values
      small = omega (arith, few)

  record_address : parse_int (slice 3 7 line) ≡ some (pos address)
  unfolding record_line to_hex_byte
  record_address = parse_int-address address start

  record_digits : slice 9 (9 + length values * 2) line ≡ hex_bytes values
  unfolding record_line to_hex_byte
  record_digits =
      let rest : 9 + length values * 2 - 9 ≡ length values * 2 = omega arith in
      ap
        (λ n. take n (
          hex_bytes values
          ++ to_hex_byte (to_checksum (length values ∷ high address ∷ byte address ∷ 0 ∷ values))))
        rest
      ∙ take-hex_bytes values _

  pub memory-load_record :
      (program : ParsedHex)
      → (load_record line program).memory ≡ write_bytes address values program.memory
  unfolding load_record
  memory-load_record program =
      ap₂
        (λ count place.
          load_bytes (count_of count) 0 place (slice 9 (9 + count_of count * 2) line)
            program.memory)
        byte_count record_address
      ∙ ap (λ digits. load_bytes (length values) 0 (some (pos address)) digits program.memory)
          record_digits
      ∙ load_bytes-write_bytes address (hex_bytes values) values 0 program.memory
          (omega (arith, inside)) refl
      ∙ ap (λ n. write_bytes n values program.memory) (no_offset address)
    where
      no_offset : (n : ℕ) → n + 0 ≡ n
      no_offset n = omega arith

  is_record-line : is_record line ≡ true
  unfolding record_line to_hex_byte
  is_record-line = long _ (at_least_2 0 [] values _)
    where
      long : (n : ℕ) → 2 ≤ n → leb 10 (suc (suc (suc (suc (suc (suc (suc (suc n)))))))) ≡ true
      long n h = ground arith

  -- The line is a data record.
  pub load_lines-line :
      (lines : List Text) (program : ParsedHex)
      → load_lines (line ∷ lines) program ≡ load_lines lines (load_record line program)
  unfolding load_lines record_line to_hex_byte parse_int trim_start scan_digits digit_value is_space
  load_lines-line lines program = if_false (not (is_record line)) _ _ (ap not is_record-line)
