-- ===== src/Azm/Outputs/Laws/RoundTrip.antt =====
-- A map of bytes, written by the assembler and read by the loader of the runtime.
use debug.Base.{
  ℕ, ◌≡◌, refl, ◌∙◌, ap, true, false, if◌then◌else◌, [], ◌∷◌, ◌++◌, byte, some, ◌||◌, ◌==◌,
}
use debug.Z80.Loaders.{
  HexResult, ParsedHex, parse_intel_hex, load_lines, finish, with_start, empty_program, parse_int,
  trim_start, is_space, scan_digits, digit_value,
}
use debug.Azm.Outputs.WriteHex.{
  EmittedByteMap, get, or_zero, data_lines, write_segments, end_line, write_hex,
}
use debug.Azm.Outputs.Laws.Rows.{value, data_lines-Loads}
use debug.Azm.Outputs.Laws.Segments.{
  has_key, covered-write_segments, IsInside, write_segments-EndsInside,
}
use debug.Azm.Outputs.Laws.Lines.{LineEnding, ending, trimmed_lines-end_lines, written-IsLine}

-- A cell that no entry of the map is for has no byte there.
value-has_key :
    (bytes : EmittedByteMap) (x : ℕ)
    → (if has_key bytes x then value bytes x else 0) ≡ value bytes x
unfolding get
value-has_key [] x = refl
value-has_key ((key, v) ∷ entries) x =
    elim (key == x)
      as (λ test.
        (if test || has_key entries x
          then byte (or_zero (if test then some v else get entries x))
          else 0)
        ≡ byte (or_zero (if test then some v else get entries x))) [
          | true ↦ refl
          | false ↦ value-has_key entries x
        ]

end_of_file : (program : ParsedHex) → load_lines (end_line ∷ []) program ≡ HexResult.parsed program
unfolding load_lines parse_int trim_start is_space scan_digits digit_value
end_of_file program = refl

-- Where the addresses of a map are inside the 64K, the loader accepts the HEX text that the
-- assembler writes of it, with either line ending, and its memory image holds the map's byte in
-- each of the map's cells and 0 in every other.
pub parse_intel_hex-write_hex :
    (bytes : EmittedByteMap) (e : LineEnding)
    → IsInside bytes
    → (program : ParsedHex) × ((parse_intel_hex (write_hex bytes (ending e))
          ≡ HexResult.parsed program)
        × ((x : ℕ) → program.memory x ≡ byte (or_zero (get bytes x))))
unfolding parse_intel_hex write_hex
parse_intel_hex-write_hex bytes e inside =
    let segments = write_segments bytes in
    let (program, (read, cells)) =
      data_lines-Loads bytes segments (write_segments-EndsInside bytes inside) (end_line ∷ [])
        empty_program in
    (
      with_start program,
      (
        ap (λ lines. finish (load_lines lines empty_program))
              (trimmed_lines-end_lines e (data_lines bytes segments ++ (end_line ∷ []))
                (written-IsLine bytes segments))
            ∙ ap finish (read ∙ end_of_file program),
        (λ x.
            cells x
            ∙ ap (λ found. if found then value bytes x else 0) (covered-write_segments bytes x)
            ∙ value-has_key bytes x),
      ),
    )
