-- ===== src/Z80/Loaders.antt =====
-- loaders.ts: `parseIntelHex`. A text is the list of its character codes, and a number that
-- `parseInt` gives is an integer or, where it is NaN, `none`.
use debug.Base.{
  ℕ, zero, suc, ◌+◌, ◌-◌, ◌*◌, ◌^◌, ℤ, pos, negsuc, Bool, false, ◌&&◌, ◌||◌, not, ◌==◌, ltb, leb,
  if◌then◌else◌, byte, Option, none, some, List, [], ◌∷◌, ◌++◌, length,
}
use debug.Z80.Hardware.{store}

abbrev pub Text : Type 0
Text = List ℕ

abbrev pub take : {A : Type 0} → ℕ → List A → List A
take zero items = []
take (suc n) [] = []
take (suc n) (item ∷ items) = item ∷ take n items

abbrev pub drop : {A : Type 0} → ℕ → List A → List A
drop zero items = items
drop (suc n) [] = []
drop (suc n) (item ∷ items) = drop n items

-- `text.slice(start, end)` for a start and an end that are not negative.
abbrev pub slice : ℕ → ℕ → Text → Text
slice start end text = take (end - start) (drop start text)

-- The white space that `trim` and `parseInt` skip.
unfoldable pub is_space : ℕ → Bool
is_space code =
    leb 9 code && leb code 13
    || code == 32
    || code == 0xa0
    || code == 0x1680
    || leb 0x2000 code && leb code 0x200a
    || code == 0x2028
    || code == 0x2029
    || code == 0x202f
    || code == 0x205f
    || code == 0x3000
    || code == 0xfeff

unfoldable pub trim_start : Text → Text
unfolding is_space
trim_start [] = []
trim_start (code ∷ text) = if is_space code then trim_start text else code ∷ text

unfoldable pub trim_end : Text → Text
unfolding is_space
trim_end [] = []
trim_end (code ∷ text) =
    let rest = trim_end text in
    elim rest [
      | [] ↦ if is_space code then [] else code ∷ []
      | other ∷ others ↦ code ∷ other ∷ others
    ]

abbrev pub trim : Text → Text
trim text = trim_end (trim_start text)

abbrev pub starts_break : Text → Bool
starts_break [] = false
starts_break (code ∷ text) = code == 10

-- The first line and the others: a line break, and a carriage return before one, is left out.
unfoldable pub split_first : Text → Text × List Text
split_first [] = ([], [])
split_first (code ∷ text) =
    let (line, lines) = split_first text in
    if code == 10
    then ([], line ∷ lines)
    else if code == 13 && starts_break text
    then (line, lines)
    else (code ∷ line, lines)

-- `text.split(/\r?\n/)`
unfoldable pub split_lines : Text → List Text
unfolding split_first
split_lines text = let (line, lines) = split_first text in line ∷ lines

-- The value of a hexadecimal digit.
unfoldable pub digit_value : ℕ → Option ℕ
digit_value code =
    if leb b'0' code && leb code b'9'
    then some (code - b'0')
    else if leb b'A' code && leb code b'F'
    then some (code - b'A' + 10)
    else if leb b'a' code && leb code b'f'
    then some (code - b'a' + 10)
    else none

-- The longest run of digits, `value` being that of the digits before.
unfoldable pub scan_digits : Text → Option ℕ → Option ℕ
unfolding digit_value
scan_digits [] value = value
scan_digits (code ∷ text) value = elim (digit_value code) [
  | none ↦ value
  | some digit ↦
      scan_digits text (elim value [ none ↦ some digit | some v ↦ some (v * 16 + digit) ])
]

abbrev pub skip_prefix : Text → Text
skip_prefix (zero_code ∷ x_code ∷ text) =
    if zero_code == b'0' && (x_code == b'x' || x_code == b'X')
    then text
    else zero_code ∷ x_code ∷ text
skip_prefix text = text

abbrev pub negated : ℕ → ℤ
negated zero = pos 0
negated (suc n) = negsuc n

abbrev pub as_positive : Option ℕ → Option ℤ
as_positive none = none
as_positive (some n) = some (pos n)

abbrev pub as_negative : Option ℕ → Option ℤ
as_negative none = none
as_negative (some n) = some (negated n)

abbrev pub signed_digits : Text → Option ℤ
signed_digits [] = none
signed_digits (code ∷ text) =
    if code == b'-'
    then as_negative (scan_digits (skip_prefix text) none)
    else if code == b'+'
    then as_positive (scan_digits (skip_prefix text) none)
    else as_positive (scan_digits (skip_prefix (code ∷ text)) none)

-- `parseInt(text, 16)`
unfoldable pub parse_int : Text → Option ℤ
unfolding trim_start scan_digits
parse_int text = signed_digits (trim_start text)

-- A number stored in a `Uint8Array`.
unfoldable pub to_uint8 : Option ℤ → ℕ
to_uint8 none = 0
to_uint8 (some (pos n)) = byte n
to_uint8 (some (negsuc n)) = 255 - byte n

-- `address + i`, where it is an index of the memory.
abbrev pub index_of : Option ℤ → ℕ → Option ℕ
index_of none i = none
index_of (some (pos address)) i = if ltb (address + i) 0x10000 then some (address + i) else none
index_of (some (negsuc n)) i = if leb (n + 1) i then some (i - (n + 1)) else none

pub record ParsedHex : Type 0 where
  pub memory : ℕ → ℕ
  pub start_address : Option ℤ
  pub write_ranges : List (Option ℤ × Option ℤ)

pub data HexResult : Type 0 where
  parsed : ParsedHex → HexResult
  parse_error : Text → HexResult

abbrev pub max_safe_integer : ℕ
max_safe_integer = 2 ^ 53 - 1

-- `Math.min`
abbrev pub min_of : ℤ → ℤ → ℤ
min_of (pos m) (pos n) = if ltb n m then pos n else pos m
min_of (pos m) (negsuc n) = negsuc n
min_of (negsuc m) (pos n) = negsuc m
min_of (negsuc m) (negsuc n) = if ltb m n then negsuc n else negsuc m

unfoldable pub min_number : Option ℤ → Option ℤ → Option ℤ
min_number none n = none
min_number (some m) none = none
min_number (some m) (some n) = some (min_of m n)

abbrev pub add_count : Option ℤ → ℕ → Option ℤ
add_count none count = none
add_count (some (pos n)) count = some (pos (n + count))
add_count (some (negsuc n)) count =
    if leb (n + 1) count then some (pos (count - (n + 1))) else some (negsuc (n - count))

abbrev pub write_at : Option ℕ → ℕ → (ℕ → ℕ) → ℕ → ℕ
write_at none value memory = memory
write_at (some location) value memory = store memory location value

-- The loop over the bytes of a record: `left` rounds from the byte `i` on.
unfoldable pub load_bytes : ℕ → ℕ → Option ℤ → Text → (ℕ → ℕ) → ℕ → ℕ
unfolding parse_int to_uint8 store
load_bytes zero i address digits memory = memory
load_bytes (suc left) i address digits memory =
    load_bytes left (i + 1) address digits (
      write_at (index_of address i) (to_uint8 (parse_int (slice (i * 2) (i * 2 + 2) digits)))
        memory)

-- How many rounds `i < byteCount` allows.
abbrev pub count_of : Option ℤ → ℕ
count_of (some (pos count)) = count
count_of number = 0

-- A data record.
unfoldable pub load_record : Text → ParsedHex → ParsedHex
unfolding parse_int load_bytes min_number
load_record line program =
    let byte_count = count_of (parse_int (slice 1 3 line)) in
    let address = parse_int (slice 3 7 line) in
    record {
      memory = load_bytes byte_count 0 address (slice 9 (9 + byte_count * 2) line) program.memory;
      start_address = min_number program.start_address address;
      write_ranges =
          if ltb 0 byte_count
          then program.write_ranges ++ ((address, add_count address byte_count) ∷ [])
          else program.write_ranges;
    }

abbrev pub is_number : ℕ → Option ℤ → Bool
is_number n (some (pos m)) = m == n
is_number n number = false

abbrev pub is_record : Text → Bool
is_record [] = false
is_record (code ∷ text) = code == b':' && leb 10 (length text)

-- Records of other types than 0 and 1 are passed over.
unfoldable pub load_lines : List Text → ParsedHex → HexResult
unfolding parse_int load_record
load_lines [] program = HexResult.parsed program
load_lines (line ∷ lines) program =
    let record_type = parse_int (slice 7 9 line) in
    let rest =
      load_lines lines (if is_number 0 record_type then load_record line program else program) in
    if not (is_record line)
    then HexResult.parse_error line
    else if is_number 1 record_type
    then HexResult.parsed program
    else rest

-- `.map((l) => l.trim()).filter((l) => l.length > 0)`
unfoldable pub trimmed_lines : List Text → List Text
unfolding trim_start trim_end
trimmed_lines [] = []
trimmed_lines (line ∷ lines) =
    let rest = trimmed_lines lines in
    elim (trim line) [ [] ↦ rest | code ∷ text ↦ trim line ∷ rest ]

abbrev pub with_start : ParsedHex → ParsedHex
with_start program = record program {
  start_address =
      if is_number max_safe_integer program.start_address
      then some (pos 0)
      else program.start_address;
}

abbrev pub finish : HexResult → HexResult
finish (HexResult.parsed program) = HexResult.parsed (with_start program)
finish (HexResult.parse_error line) = HexResult.parse_error line

abbrev pub empty_program : ParsedHex
empty_program = record {
  memory = λ _. 0;
  start_address = some (pos max_safe_integer);
  write_ranges = [];
}

unfoldable pub parse_intel_hex : Text → HexResult
unfolding split_lines trimmed_lines load_lines
parse_intel_hex content = finish (load_lines (trimmed_lines (split_lines content)) empty_program)
