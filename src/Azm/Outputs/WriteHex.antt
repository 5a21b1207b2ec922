-- ===== src/Azm/Outputs/WriteHex.antt =====
-- packages/azm/src/outputs/write-hex.ts: the map of emitted bytes as Intel HEX records.
use debug.Base.{
  ℕ, zero, suc, ◌+◌, ◌-◌, ◌/◌, ◌%◌, ◌==◌, ltb, if◌then◌else◌, byte, high, Option, none, some, List,
  [], ◌∷◌, ◌++◌,
}
use debug.Z80.Loaders.{Text}

abbrev pub hex_digit : ℕ → ℕ
hex_digit n = if ltb n 10 then b'0' + n else b'A' + (n - 10)

-- `(n & 0xff).toString(16).toUpperCase().padStart(2, '0')`
unfoldable pub to_hex_byte : ℕ → Text
to_hex_byte n = hex_digit (n % 256 / 16) ∷ hex_digit (n % 16) ∷ []

abbrev pub sum_of : List ℕ → ℕ
sum_of [] = 0
sum_of (value ∷ values) = byte value + sum_of values

unfoldable pub to_checksum : List ℕ → ℕ
to_checksum values = (256 - sum_of values % 256) % 256

-- The emitted bytes by their addresses, which are distinct.
abbrev pub EmittedByteMap : Type 0
EmittedByteMap = List (ℕ × ℕ)

-- `map.bytes.get(address)`
unfoldable pub get : EmittedByteMap → ℕ → Option ℕ
get [] address = none
get ((key, value) ∷ entries) address = if key == address then some value else get entries address

-- `?? 0`
abbrev pub or_zero : Option ℕ → ℕ
or_zero none = 0
or_zero (some value) = value

-- `[...map.bytes.keys()].sort((a, b) => a - b)`
unfoldable pub insert_address : ℕ → List ℕ → List ℕ
insert_address address [] = address ∷ []
insert_address address (other ∷ others) =
    if ltb other address then other ∷ insert_address address others else address ∷ other ∷ others

unfoldable pub sorted_addresses : EmittedByteMap → List ℕ
unfolding insert_address
sorted_addresses [] = []
sorted_addresses ((key, value) ∷ entries) = insert_address key (sorted_addresses entries)

pub record AddressRange : Type 0 where
  pub start : ℕ
  pub end : ℕ

-- The loop over the addresses after the first, with the segment that is open.
unfoldable pub segments_from : ℕ → ℕ → List ℕ → List AddressRange
segments_from start end [] = record { start = start; end = end } ∷ []
segments_from start end (address ∷ rest) =
    let later = segments_from (if address == end then start else address) (address + 1) rest in
    if address == end then later else record { start = start; end = end } ∷ later

unfoldable pub write_segments : EmittedByteMap → List AddressRange
unfolding segments_from sorted_addresses
write_segments bytes = elim (sorted_addresses bytes) [
  | [] ↦ []
  | first ∷ rest ↦ segments_from first (first + 1) rest
]

abbrev pub row_length : ℕ
row_length = 16

-- `Math.min(16, segment.end - address)`
abbrev pub row_count : ℕ → ℕ → ℕ
row_count address end = if ltb (end - address) row_length then end - address else row_length

-- The bytes of a row.
unfoldable pub row_bytes : EmittedByteMap → ℕ → ℕ → List ℕ
unfolding get
row_bytes bytes address zero = []
row_bytes bytes address (suc count) =
    or_zero (get bytes address) ∷ row_bytes bytes (address + 1) count

-- `data.map(toHexByte).join('')`
unfoldable pub hex_bytes : List ℕ → Text
unfolding to_hex_byte
hex_bytes [] = []
hex_bytes (value ∷ values) = to_hex_byte value ++ hex_bytes values

-- The line of a row of so many bytes.
unfoldable pub record_line : ℕ → ℕ → List ℕ → Text
unfolding hex_bytes to_hex_byte to_checksum
record_line count address values =
    b':' ∷ to_hex_byte count
    ++ to_hex_byte (high address)
    ++ to_hex_byte (byte address)
    ++ (b'0' ∷ b'0' ∷ [])
    ++ hex_bytes values
    ++ to_hex_byte (to_checksum (count ∷ high address ∷ byte address ∷ 0 ∷ values))

-- `for (address = start; address < end; address += 16)`, with fuel for the rounds.
unfoldable pub segment_lines : EmittedByteMap → ℕ → ℕ → ℕ → List Text
unfolding record_line row_bytes
segment_lines bytes zero address end = []
segment_lines bytes (suc fuel) address end =
    let rest = segment_lines bytes fuel (address + row_length) end in
    let count = row_count address end in
    if ltb address end then record_line count address (row_bytes bytes address count) ∷ rest else []

-- A round passes at least one address, so the length of the segment is enough fuel.
unfoldable pub data_lines : EmittedByteMap → List AddressRange → List Text
unfolding segment_lines
data_lines bytes [] = []
data_lines bytes (segment ∷ segments) =
    segment_lines bytes (segment.end - segment.start) segment.start segment.end
    ++ data_lines bytes segments

-- `:00000001FF`
abbrev pub end_line : Text
end_line = b':' ∷ b'0' ∷ b'0' ∷ b'0' ∷ b'0' ∷ b'0' ∷ b'0' ∷ b'0' ∷ b'1' ∷ b'F' ∷ b'F' ∷ []

-- `lines.join(lineEnding) + lineEnding`
unfoldable pub end_lines : Text → List Text → Text
end_lines line_ending [] = []
end_lines line_ending (line ∷ lines) = line ++ (line_ending ++ end_lines line_ending lines)

unfoldable pub write_hex : EmittedByteMap → Text → Text
unfolding data_lines write_segments end_lines
write_hex bytes line_ending =
    end_lines line_ending (data_lines bytes (write_segments bytes) ++ (end_line ∷ []))
