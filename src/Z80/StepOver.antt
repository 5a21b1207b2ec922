-- ===== src/Z80/StepOver.antt =====
-- opcodes.ts and `classifyStepOver` of runtime.ts: whether the instruction at PC is a call, a
-- restart or a return, whether it will be taken, and where the call comes back.
use debug.Base.{ℕ, ◌+◌, ◌==◌, ◌||◌, Bool, true, false, not, Option, none, some, List, [], ◌∷◌}
use debug.Base.{word, if◌then◌else◌}
use debug.Z80.State.{Cpu}

pub data ControlFlowKind : Type 0 where
  call rst ret : ControlFlowKind

pub record StepInfo : Type 0 where
  pub kind : ControlFlowKind
  pub taken : Bool
  pub return_address : Option ℕ

-- `set.has(opcode)`
unfoldable pub has : List ℕ → ℕ → Bool
has [] opcode = false
has (x ∷ xs) opcode = x == opcode || has xs opcode

abbrev pub rst_opcodes : List ℕ
rst_opcodes = 0xc7 ∷ 0xcf ∷ 0xd7 ∷ 0xdf ∷ 0xe7 ∷ 0xef ∷ 0xf7 ∷ 0xff ∷ []

abbrev pub ed_ret_opcodes : List ℕ
ed_ret_opcodes = 0x45 ∷ 0x55 ∷ 0x5d ∷ 0x65 ∷ 0x6d ∷ 0x75 ∷ 0x7d ∷ 0x4d ∷ []

-- The opcodes of a `switch`, each with the test that it makes.
unfoldable pub find_case : List (ℕ × Bool) → ℕ → Option Bool
find_case [] opcode = none
find_case ((x, taken) ∷ rest) opcode = if x == opcode then some taken else find_case rest opcode

abbrev pub call_cases : Cpu → List (ℕ × Bool)
call_cases cpu =
    (0xcd, true)
    ∷ (0xc4, cpu.flags.z == 0)
    ∷ (0xcc, not (cpu.flags.z == 0))
    ∷ (0xd4, cpu.flags.c == 0)
    ∷ (0xdc, not (cpu.flags.c == 0))
    ∷ (0xe4, cpu.flags.p == 0)
    ∷ (0xec, not (cpu.flags.p == 0))
    ∷ (0xf4, cpu.flags.s == 0)
    ∷ (0xfc, not (cpu.flags.s == 0))
    ∷ []

abbrev pub ret_cases : Cpu → List (ℕ × Bool)
ret_cases cpu =
    (0xc9, true)
    ∷ (0xc0, cpu.flags.z == 0)
    ∷ (0xc8, not (cpu.flags.z == 0))
    ∷ (0xd0, cpu.flags.c == 0)
    ∷ (0xd8, not (cpu.flags.c == 0))
    ∷ (0xe0, cpu.flags.p == 0)
    ∷ (0xe8, not (cpu.flags.p == 0))
    ∷ (0xf0, cpu.flags.s == 0)
    ∷ (0xf8, not (cpu.flags.s == 0))
    ∷ []

abbrev pub step_info : ControlFlowKind → Bool → Option ℕ → Option StepInfo
step_info kind taken return_address =
    some (record { kind = kind; taken = taken; return_address = return_address })

-- After `const pc = cpu.pc & 0xffff`.
unfoldable pub classify_at : ℕ → Cpu → (ℕ → ℕ) → Option StepInfo
unfolding find_case has
classify_at pc cpu read =
    let opcode = read pc in
    let opcode2 = read (word (pc + 1)) in
    elim (find_case (call_cases cpu) opcode) [
      | some taken ↦ step_info call taken (some (word (pc + 3)))
      | none ↦
          if has rst_opcodes opcode
          then step_info rst true (some (word (pc + 1)))
          else elim (find_case (ret_cases cpu) opcode) [
            | some taken ↦ step_info ret taken none
            | none ↦
                if opcode == 0xed
                then (if has ed_ret_opcodes opcode2 then step_info ret true none else none)
                else none
          ]
    ]

unfoldable pub classify_step_over : Cpu → (ℕ → ℕ) → Option StepInfo
unfolding classify_at
classify_step_over cpu read = classify_at (word cpu.pc) cpu read
