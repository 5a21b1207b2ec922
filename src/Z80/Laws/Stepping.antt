-- ===== src/Z80/Laws/Stepping.antt =====
-- The debugger's classification of calls, restarts and returns against their execution.
pub mod Promise
pub mod Handlers
pub mod Extended
pub mod Search
use debug.Base.{
  ℕ, ==_iff, inl, inr, Bool-cases, ◌+◌, ◌-◌, ◌*◌, ◌/◌, ◌%◌, ◌≤◌, ◌<◌, ◌≡◌, ◌==◌, ◌∙◌, ap, sym,
  subst, refl, arith, Bool, true, false, not, word, byte, high, int_sub, get_or, Option, some, none,
  List, [], ◌∷◌, All, ◌◂◌, if◌then◌else◌,
}
use debug.Z80.State.{Cpu, Flags}
use debug.Z80.Hardware.{Machine, Hardware, Handler, mem_read, mem_write, on_cpu}
use debug.Z80.Stack.{push_word, push_byte, pop_word}
use debug.Z80.Jump.{
  call, return, skip, add_cycles, set_pc, do_conditional_call, do_conditional_return, do_reset,
  jump, operand_word,
}
use debug.Z80.Constants.{cycle_counts, cycle_counts_ed}
use debug.Z80.Decode.Operands.{inc_r, noop, fetch}
use debug.Z80.Decode.Ed.{retn, ed_instructions, ed_handler}
use debug.Z80.Decode.Primary.{instructions, primary_operation, execute_primary_opcode}
use debug.Z80.Decode.Primary.High.{
  if_nz, if_z, if_nc, if_c, if_po, if_pe, if_p, if_m, call_if, ret_if,
}
use debug.Z80.Processor.{execute, take_delayed, finish_delayed, decode_instruction}
use debug.Z80.StepOver.{
  ControlFlowKind, step_info, classify_at, StepInfo, has, find_case, call_cases, ret_cases,
  rst_opcodes, ed_ret_opcodes, classify_step_over,
}
use debug.Z80.Laws.Opcodes.{run, execute-run}
use debug.Z80.Laws.Stepping.Promise.{
  Pushes, GoesOn, Pops, Follows, Behaves, kind_of, kind_in, IsAsClassified,
}
use debug.Z80.Laws.Stepping.Handlers.{
  CallAs, ReturnAs, RestartAs, calls_follow, returns_follow, restarts_follow,
}
use debug.Z80.Laws.Stepping.Extended.{ed_instruction, run-ed_instruction, ed_returns_follow}
use debug.Z80.Laws.Stepping.Search.{FoundAs, find_case-FoundAs, has-All}

module _ (m m' : Machine) where
  -- A switch in the classification: its cases, or else what follows it.
  switch_Behaves :
      (kind : ControlFlowKind) (address : Option ℕ) (found : Option Bool) (rest : Option StepInfo)
      → FoundAs (λ opcode taken. Follows kind taken address m m') 0 found
      → Behaves rest m m'
      → Behaves (elim found [ some taken ↦ step_info kind taken address | none ↦ rest ]) m m'
  switch_Behaves kind address none rest h h' = h'
  switch_Behaves kind address (some taken) rest h h' = h

  test_Behaves :
      (test : Bool) (p q : Option StepInfo)
      → (test ≡ true → Behaves p m m')
      → Behaves q m m'
      → Behaves (if test then p else q) m m'
  test_Behaves true p q h h' = h refl
  test_Behaves false p q h h' = h'

FoundAs-at :
    (P : ℕ → Bool → Type 0) (opcode : ℕ) (found : Option Bool)
    → FoundAs P opcode found
    → FoundAs (λ _ taken. P opcode taken) 0 found
FoundAs-at P opcode none h = h
FoundAs-at P opcode (some taken) h = h

classify_at-Behaves :
    (m : Machine)
    → Behaves
        (classify_at m.cpu.pc m.cpu (mem_read m))
        m
        (run (execute_primary_opcode (mem_read m m.cpu.pc)) m)
unfolding classify_at
classify_at-Behaves m =
    switch_Behaves m m' ControlFlowKind.call _ (find_case (call_cases m.cpu) opcode) _
      (FoundAs-at (CallAs m) opcode _
        (find_case-FoundAs (CallAs m) (call_cases m.cpu) opcode (calls_follow m)))
      (test_Behaves m m' (has rst_opcodes opcode) _ _
        (has-All (RestartAs m) rst_opcodes opcode (restarts_follow m))
        (switch_Behaves m m' ControlFlowKind.ret _ (find_case (ret_cases m.cpu) opcode) _
          (FoundAs-at (ReturnAs m) opcode _
            (find_case-FoundAs (ReturnAs m) (ret_cases m.cpu) opcode (returns_follow m)))
          (test_Behaves m m' (opcode == 0xed) _ _
            (λ e.
              test_Behaves m m' (has ed_ret_opcodes opcode1) _ _
                (λ e'. extended ((==_iff _ _).0 e) (
                  has-All (λ code. Pops m (run (ed_instruction code) m)) ed_ret_opcodes opcode1
                    (ed_returns_follow m) e'))
                tt)
            tt)))
  where
    opcode : ℕ
    opcode = mem_read m m.cpu.pc

    opcode1 : ℕ
    opcode1 = mem_read m (word (m.cpu.pc + 1))

    m' : Machine
    m' = run (execute_primary_opcode opcode) m

    extended : opcode ≡ 0xed → Pops m (run (ed_instruction opcode1) m) → Pops m m'
    extended e h =
        subst (Pops m)
          (sym (ap (λ code. run (execute_primary_opcode code) m) e ∙ run-ed_instruction m)) h

-- The kind is that of the opcode's bits.
kind-classify_at :
    (pc : ℕ) (cpu : Cpu) (read : ℕ → ℕ)
    → kind_in (classify_at pc cpu read) ≡ kind_of (read pc) (read (word (pc + 1)))
unfolding classify_at find_case has
kind-classify_at pc cpu read = ground arith

-- For a processor that is not halted, with PC a word: the debugger classifies the instruction at PC
-- as a call, a restart or a return exactly where the bits of its opcode say so. Where it classifies
-- it as a call or restart that is taken, its execution pushes the return address that the
-- classification names, and goes on at the word behind the opcode, as it is after the push, or at
-- the restart's address; where it classifies it as a call that is not taken, it goes on at that
-- address with the stack and memory as they were. A taken return goes on at the word that it pops,
-- one that is not taken at the next byte.
pub classify_step_over-IsAsClassified :
    (m : Machine)
    → m.cpu.halted ≡ false
    → m.cpu.pc < 65536
    → IsAsClassified (classify_step_over m.cpu (mem_read m)) m (execute m).1
unfolding classify_step_over
classify_step_over-IsAsClassified m h p =
    subst (λ pc. IsAsClassified (classify_at pc m.cpu (mem_read m)) m (execute m).1) in_range
      record {
        kind = kind-classify_at m.cpu.pc m.cpu (mem_read m);
        behaviour =
            subst (Behaves (classify_at m.cpu.pc m.cpu (mem_read m)) m)
              (sym (execute-run (mem_read m m.cpu.pc) m h refl)) (classify_at-Behaves m);
      }
  where
    in_range : m.cpu.pc ≡ word m.cpu.pc
    in_range = omega arith
