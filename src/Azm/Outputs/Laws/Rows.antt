-- ===== src/Azm/Outputs/Laws/Rows.antt =====
-- The rows of a segment and the segments, loaded: which cells they cover, and with what.
use debug.Base.{
  ℕ, zero, suc, ◌+◌, ◌-◌, ◌≤◌, ◌<◌, ◌≡◌, refl, sym, ◌∙◌, ap, arith, ltb, leb, Bool, true, false,
  ◌&&◌, ◌||◌, if◌then◌else◌, List, [], ◌∷◌, ◌++◌, byte, length, All, ◌==◌, subst, fun_ext,
  append_assoc, if_false, ltb→lt, ==_iff,
}
use debug.Z80.Hardware.{store}
use debug.Z80.Loaders.{Text, ParsedHex, load_lines, load_record}
use debug.Azm.Outputs.WriteHex.{
  EmittedByteMap, AddressRange, get, or_zero, row_bytes, row_count, record_line, segment_lines,
  data_lines,
}
use debug.Azm.Outputs.Laws.Records.{write_bytes, memory-load_record, load_lines-line}

abbrev pub within : ℕ → ℕ → ℕ → Bool
within start end x = leb start x && ltb x end

-- The cells of the segments.
abbrev pub covered : List AddressRange → ℕ → Bool
covered [] x = false
covered (segment ∷ segments) x = within segment.start segment.end x || covered segments x

module _ (bytes : EmittedByteMap) where
  -- The byte that the map has for a cell.
  abbrev pub value : ℕ → ℕ
  value x = byte (or_zero (get bytes x))

  -- A cell is the first of a row, or in the rest of it, or outside.
  first_cell :
      (a n x v other : ℕ)
      → x ≡ a
      → (if within (a + 1) (a + 1 + n) x then v else v)
        ≡ (if within a (a + suc n) x then v else other)
  first_cell a n x v other e = ground arith

  later_cell :
      (a n x v other : ℕ)
      → (x == a) ≡ false
      → (if within (a + 1) (a + 1 + n) x then v else other)
        ≡ (if within a (a + suc n) x then v else other)
  later_cell a n x v other e = ground arith

  store-row :
      (memory : ℕ → ℕ) (a n x : ℕ)
      → (if within (a + 1) (a + 1 + n) x then value x else store memory a (value a) x)
        ≡ (if within a (a + suc n) x then value x else memory x)
  unfolding store
  store-row memory a n x =
      elim (x == a)
          as (λ test.
            ((x == a) ≡ test)
            → (if within (a + 1) (a + 1 + n) x then value x else if test then value a else memory x)
              ≡ (if within a (a + suc n) x then value x else memory x)) [
                | true ↦ λ e.
                    let same = (==_iff x a).0 e in
                    subst
                      (λ y.
                        (if within (a + 1) (a + 1 + n) x then value x else value y)
                        ≡ (if within a (a + suc n) x then value x else memory x))
                      same (first_cell a n x (value x) (memory x) same)
                | false ↦ later_cell a n x (value x) (memory x)
              ]
        refl

  write_bytes-row :
      (count address : ℕ) (memory : ℕ → ℕ) (x : ℕ)
      → write_bytes address (row_bytes bytes address count) memory x
        ≡ (if within address (address + count) x then value x else memory x)
  unfolding row_bytes
  write_bytes-row zero a memory x = ground arith
  write_bytes-row (suc n) a memory x =
      write_bytes-row n (a + 1) (store memory a (value a)) x ∙ store-row memory a n x

  length-row_bytes : (count address : ℕ) → length (row_bytes bytes address count) ≡ count
  unfolding row_bytes
  length-row_bytes zero a = refl
  length-row_bytes (suc n) a = ap suc (length-row_bytes n (a + 1))

  -- Loading the lines changes the cells of a set to their bytes of the map.
  abbrev pub Loads : List Text → (ℕ → Bool) → Type 0
  Loads lines covered =
      (rest : List Text) (program : ParsedHex)
      → (program' : ParsedHex) × ((load_lines (lines ++ rest) program ≡ load_lines rest program')
          × ((x : ℕ) → program'.memory x ≡ (if covered x then value x else program.memory x)))

  row-Loads :
      (a count : ℕ)
      → count < 256
      → a + count ≤ 65536
      → a < 65536
      → Loads (record_line count a (row_bytes bytes a count) ∷ []) (within a (a + count))
  row-Loads a count few inside start rest program =
      let values = row_bytes bytes a count in
      let size = length-row_bytes count a in
      subst
        (λ n.
          (program' : ParsedHex) × ((load_lines (record_line n a values ∷ rest) program
              ≡ load_lines rest program')
            × ((x : ℕ)
                → program'.memory x
                  ≡ (if within a (a + count) x then value x else program.memory x))))
        size
        (
          load_record (record_line (length values) a values) program,
          (
            load_lines-line a values (omega (arith, size)) (omega (arith, size)) start rest program,
            (λ x.
                ap (λ memory. memory x)
                  (memory-load_record a values (omega (arith, size)) (omega (arith, size)) start
                    program)
                ∙ write_bytes-row count a program.memory x),
          ),
        )

  module _ (first second : ℕ → Bool) where
    either :
        (v other x : ℕ)
        → (if second x then v else if first x then v else other)
          ≡ (if first x || second x then v else other)
    either v other x = ground arith

    append-Loads :
        (lines lines' : List Text)
        → Loads lines first
        → Loads lines' second
        → Loads (lines ++ lines') (λ x. first x || second x)
    append-Loads lines lines' p q rest program =
        let (program1, (e1, v1)) = p (lines' ++ rest) program in
        let (program2, (e2, v2)) = q rest program1 in
        (
          program2,
          (
            ap (λ all. load_lines all program) (append_assoc lines lines' rest) ∙ e1 ∙ e2,
            (λ x.
                v2 x
                ∙ ap (λ other. if second x then value x else other) (v1 x)
                ∙ either (value x) (program.memory x) x),
          ),
        )

  -- The first row of a segment and the others, or nothing at all.
  split_segment :
      (a e x : ℕ) → a < e → (within a (a + row_count a e) x || within (a + 16) e x) ≡ within a e x
  split_segment a e x h = ground arith

  empty_segment : (a e x : ℕ) → e ≤ a → within a e x ≡ false
  empty_segment a e x h = ground arith

  no_lines : (covered : ℕ → Bool) → ((x : ℕ) → covered x ≡ false) → Loads [] covered
  no_lines covered none_covered rest program = (
    program,
    (refl, (λ x. sym (if_false (covered x) (value x) (program.memory x) (none_covered x)))),
  )

  Loads-cong :
      (lines : List Text) (first second : ℕ → Bool)
      → ((x : ℕ) → first x ≡ second x)
      → Loads lines first
      → Loads lines second
  Loads-cong lines first second e = subst (Loads lines) (fun_ext e)

  segment_lines-Loads :
      (fuel a e : ℕ) → e ≤ 65536 → e - a ≤ fuel → Loads (segment_lines bytes fuel a e) (within a e)
  unfolding segment_lines
  segment_lines-Loads zero a e inside enough =
      no_lines (within a e) (λ x. empty_segment a e x (omega (arith, enough)))
  segment_lines-Loads (suc fuel) a e inside enough =
      elim (ltb a e)
          as (λ test.
            (ltb a e ≡ test)
            → Loads
                (if test
                  then record_line (row_count a e) a (row_bytes bytes a (row_count a e))
                    ∷ segment_lines bytes fuel (a + 16) e
                  else [])
                (within a e)) [
                  | true ↦ λ t.
                      let nonempty = ltb→lt a e t in
                      Loads-cong
                        (record_line (row_count a e) a (row_bytes bytes a (row_count a e))
                          ∷ segment_lines bytes fuel (a + 16) e)
                        (λ x. within a (a + row_count a e) x || within (a + 16) e x) (within a e)
                        (λ x. split_segment a e x nonempty)
                        (append-Loads (within a (a + row_count a e)) (within (a + 16) e)
                          (record_line (row_count a e) a (row_bytes bytes a (row_count a e)) ∷ [])
                          (segment_lines bytes fuel (a + 16) e)
                          (row-Loads a (row_count a e) (few a e) (inside_row a e nonempty inside)
                            (omega arith))
                          (segment_lines-Loads fuel (a + 16) e inside (omega arith)))
                  | false ↦ λ t. no_lines (within a e) (λ x. empty_segment a e x (ground arith))
                ]
        refl
    where
      few : (a e : ℕ) → row_count a e < 256
      few a e = ground arith

      inside_row : (a e : ℕ) → a < e → e ≤ 65536 → a + row_count a e ≤ 65536
      inside_row a e h h' = ground arith

  pub data_lines-Loads :
      (segments : List AddressRange)
      → All (λ segment. segment.end ≤ 65536) segments
      → Loads (data_lines bytes segments) (covered segments)
  unfolding data_lines
  data_lines-Loads [] inside = no_lines (λ _. false) (λ _. refl)
  data_lines-Loads (segment ∷ segments) inside =
      append-Loads (within segment.start segment.end) (covered segments)
        (segment_lines bytes (segment.end - segment.start) segment.start segment.end)
        (data_lines bytes segments)
        (segment_lines-Loads (segment.end - segment.start) segment.start segment.end inside.0
          (omega arith))
        (data_lines-Loads segments inside.1)
