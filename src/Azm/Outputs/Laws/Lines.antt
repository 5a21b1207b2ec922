-- ===== src/Azm/Outputs/Laws/Lines.antt =====
-- The lines of a text that is written, read back.
use debug.Base.{
  All-append, zero, suc, ◌+◌, ◌-◌, true, high, byte, if◌then◌else◌, ℕ, ◌≡◌, refl, ◌∙◌, ap, arith,
  List, [], ◌∷◌, ◌++◌, All, if_false, false, ap₂, ltb, ◌◂◌,
}
use debug.Z80.Loaders.{
  Text, is_space, trim_start, trim_end, trim, split_lines, split_first, trimmed_lines,
}
use debug.Azm.Outputs.WriteHex.{
  EmittedByteMap, AddressRange, to_hex_byte, hex_bytes, record_line, segment_lines, data_lines,
  end_line, end_lines, row_count, row_bytes,
}
use debug.Azm.Outputs.Laws.Digits.{IsCode, is_space-IsCode, trim_start-IsCode, to_hex_byte-IsCode}

-- A line of codes that is not empty.
abbrev pub IsLine : Text → Type 0
IsLine [] = ⊥
IsLine (code ∷ text) = All IsCode (code ∷ text)

trim_end-IsCode : (text : Text) → All IsCode text → trim_end text ≡ text
unfolding trim_end
trim_end-IsCode [] p = refl
trim_end-IsCode (code ∷ []) p = if_false (is_space code) [] (code ∷ []) (is_space-IsCode code p.0)
trim_end-IsCode (code ∷ code' ∷ text) p =
    ap
      (λ rest. elim rest as (λ _. Text) [
        | [] ↦ if is_space code then [] else code ∷ []
        | other ∷ others ↦ code ∷ other ∷ others
      ])
      (trim_end-IsCode (code' ∷ text) p.1)

trim-IsLine : (line : Text) → IsLine line → trim line ≡ line
trim-IsLine [] p = absurd p
trim-IsLine (code ∷ text) p =
    ap trim_end (trim_start-IsCode code text p.0) ∙ trim_end-IsCode (code ∷ text) p

trimmed_lines-IsLine :
    (lines : List Text) → All IsLine lines → trimmed_lines (lines ++ ([] ∷ [])) ≡ lines
unfolding trimmed_lines trim_start trim_end
trimmed_lines-IsLine [] p = refl
trimmed_lines-IsLine ([] ∷ lines) p = absurd p.0
trimmed_lines-IsLine ((code ∷ text) ∷ lines) p =
    ap₂ (λ trimmed rest. elim trimmed as (λ _. List Text) [ [] ↦ rest | _ ∷ _ ↦ trimmed ∷ rest ])
      (trim-IsLine (code ∷ text) p.0) (trimmed_lines-IsLine lines p.1)

-- `\n` or `\r\n`
pub data LineEnding : Type 0 where
  lf crlf : LineEnding

abbrev pub ending : LineEnding → Text
ending LineEnding.lf = 10 ∷ []
ending LineEnding.crlf = 13 ∷ 10 ∷ []

split_first-line :
    (e : LineEnding) (line text : Text)
    → All IsCode line
    → split_first (line ++ (ending e ++ text)) ≡ (line, split_lines text)
unfolding split_lines split_first
split_first-line lf [] text p = refl
split_first-line crlf [] text p = refl
split_first-line e (code ∷ line) text p =
    inner_code code (line ++ (ending e ++ text)) p.0
    ∙ ap (λ split. (code ∷ split.0, split.1)) (split_first-line e line text p.1)
  where
    inner_code :
        (code : ℕ) (text : Text)
        → IsCode code
        → split_first (code ∷ text) ≡ (code ∷ (split_first text).0, (split_first text).1)
    inner_code code text (low, top) = ground arith

codes-IsLine : (line : Text) → IsLine line → All IsCode line
codes-IsLine [] p = tt
codes-IsLine (code ∷ text) p = p

split_lines-end_lines :
    (e : LineEnding) (lines : List Text)
    → All IsLine lines
    → split_lines (end_lines (ending e) lines) ≡ lines ++ ([] ∷ [])
unfolding split_lines end_lines
split_lines-end_lines e [] p = refl
split_lines-end_lines e (line ∷ lines) p =
    ap (λ split. split.0 ∷ split.1)
      (split_first-line e line (end_lines (ending e) lines) (codes-IsLine line p.0))
    ∙ ap (λ rest. line ∷ rest) (split_lines-end_lines e lines p.1)

-- The lines that are written come back as the lines that are read.
pub trimmed_lines-end_lines :
    (e : LineEnding) (lines : List Text)
    → All IsLine lines
    → trimmed_lines (split_lines (end_lines (ending e) lines)) ≡ lines
trimmed_lines-end_lines e lines p =
    ap trimmed_lines (split_lines-end_lines e lines p) ∙ trimmed_lines-IsLine lines p

hex_bytes-IsCode : (values : List ℕ) → All IsCode (hex_bytes values)
unfolding hex_bytes
hex_bytes-IsCode [] = tt
hex_bytes-IsCode (v ∷ vs) =
    All-append IsCode (to_hex_byte v) (hex_bytes vs) (to_hex_byte-IsCode v) (hex_bytes-IsCode vs)

colon-IsCode : IsCode b':'
colon-IsCode = (omega arith, omega arith)

nought-IsCode : IsCode b'0'
nought-IsCode = (omega arith, omega arith)

record_line-IsLine :
    (count address : ℕ) (values : List ℕ) → IsLine (record_line count address values)
unfolding record_line to_hex_byte
record_line-IsLine count address values =
    let count_codes = to_hex_byte-IsCode count in
    let high_codes = to_hex_byte-IsCode (high address) in
    let low_codes = to_hex_byte-IsCode (byte address) in
    colon-IsCode
    ◂ count_codes.0
    ◂ count_codes.1.0
    ◂ high_codes.0
    ◂ high_codes.1.0
    ◂ low_codes.0
    ◂ low_codes.1.0
    ◂ nought-IsCode
    ◂ nought-IsCode
    ◂ All-append IsCode (hex_bytes values) _ (hex_bytes-IsCode values) (to_hex_byte-IsCode _)

end_line-IsLine : IsLine end_line
end_line-IsLine =
    colon-IsCode
    ◂ nought-IsCode
    ◂ nought-IsCode
    ◂ nought-IsCode
    ◂ nought-IsCode
    ◂ nought-IsCode
    ◂ nought-IsCode
    ◂ nought-IsCode
    ◂ (omega arith, omega arith)
    ◂ (omega arith, omega arith)
    ◂ (omega arith, omega arith)
    ◂ tt

segment_lines-IsLine :
    (bytes : EmittedByteMap) (fuel start end : ℕ) → All IsLine (segment_lines bytes fuel start end)
unfolding segment_lines
segment_lines-IsLine bytes zero start end = tt
segment_lines-IsLine bytes (suc fuel) start end =
    elim (ltb start end)
      as (λ test. All IsLine (
        if test
        then record_line (row_count start end) start (row_bytes bytes start (row_count start end))
          ∷ segment_lines bytes fuel (start + 16) end
        else [])) [
          | true ↦ (record_line-IsLine _ _ _, segment_lines-IsLine bytes fuel (start + 16) end)
          | false ↦ tt
        ]

data_lines-IsLine :
    (bytes : EmittedByteMap) (segments : List AddressRange) → All IsLine (data_lines bytes segments)
unfolding data_lines
data_lines-IsLine bytes [] = tt
data_lines-IsLine bytes (segment ∷ segments) =
    All-append IsLine (segment_lines bytes (segment.end - segment.start) segment.start segment.end)
      (data_lines bytes segments) (segment_lines-IsLine bytes _ segment.start segment.end)
      (data_lines-IsLine bytes segments)

pub written-IsLine :
    (bytes : EmittedByteMap) (segments : List AddressRange)
    → All IsLine (data_lines bytes segments ++ (end_line ∷ []))
written-IsLine bytes segments =
    All-append IsLine (data_lines bytes segments) (end_line ∷ []) (data_lines-IsLine bytes segments)
      (end_line-IsLine, tt)
