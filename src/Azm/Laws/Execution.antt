-- ===== src/Azm/Laws/Execution.antt =====
-- The bytes of an opcode in memory, and what executing them does.
pub mod Branches
pub mod Indexed
pub mod Bytes
use debug.Base.{get_or, ℕ, ◌+◌, ◌≡◌, refl, ap, ◌∙◌, arith, Bool, true, false, List, [], ◌∷◌, word}
use debug.Z80.State.{Cpu}
use debug.Z80.Hardware.{Machine, Handler, mem_read, on_cpu}
use debug.Z80.Jump.{add_cycles, skip}
use debug.Z80.Constants.{cycle_counts, cycle_counts_ed, cycle_counts_cb}
use debug.Z80.Decode.Operands.{noop, inc_r, fetch}
use debug.Z80.Decode.Primary.{instructions, primary_operation, execute_primary_opcode}
use debug.Z80.Decode.Ed.{ed_instructions, ed_handler}
use debug.Z80.Decode.Cb.{cb_operation, cb_handler}
use debug.Z80.Decode.Dd.{dd_instructions, dd_cycles, dd_handler, fd_handler}
use debug.Z80.Processor.{execute, take_delayed, finish_delayed}
use debug.Z80.Laws.Opcodes.{run, execute-run}
use debug.Z80.Laws.Stepping.Handlers.{counted}
use debug.Z80.Laws.Stepping.Extended.{ed_opcode_read}
use debug.Azm.Laws.Meaning.Core.{extended, with_iy}

-- The cycles are cleared when the instruction is done.
finish_delayed-add_cycles :
    (k : ℕ) (di ei : Bool) (cpu : Cpu)
    → (record (finish_delayed di ei (add_cycles k cpu)) { cycle_counter = 0 })
      ≡ record (finish_delayed di ei cpu) { cycle_counter = 0 }
unfolding finish_delayed
finish_delayed-add_cycles k true true cpu = refl
finish_delayed-add_cycles k true false cpu = refl
finish_delayed-add_cycles k false true cpu = refl
finish_delayed-add_cycles k false false cpu = refl

run-counted : (k : ℕ) (handler : Handler) (m : Machine) → run (counted k handler) m ≡ run handler m
unfolding run
run-counted k handler m =
    let m' = skip 1 (handler (on_cpu (λ cpu. inc_r (take_delayed cpu)) m)) in
    ap (λ cpu. record m' { cpu = cpu })
      (finish_delayed-add_cycles k m.cpu.do_delayed_di m.cpu.do_delayed_ei m'.cpu)

-- The handler that an unprefixed opcode, or one after ED, stands for.
abbrev pub Performs : ℕ → Handler → Type 0
Performs opcode handler = primary_operation opcode ≡ handler

abbrev pub Extends : ℕ → Handler → Type 0
Extends opcode1 handler = get_or ed_instructions opcode1 noop ≡ handler

-- The bytes lie one behind the other from an address on.
abbrev pub StoredAt : Machine → ℕ → List ℕ → Type 0
StoredAt m address [] = Unit
StoredAt m address (code ∷ codes) = (mem_read m address ≡ code) × StoredAt m (address + 1) codes

-- Where the bytes lie at PC, an instruction of the processor is the handler.
abbrev pub Executes : List ℕ → Handler → Type 0
Executes opcode handler =
    (m : Machine)
    → m.cpu.halted ≡ false
    → StoredAt m m.cpu.pc opcode
    → (execute m).1 ≡ run handler m

pub single :
    (opcode : ℕ) (handler : Handler) → Performs opcode handler → Executes (opcode ∷ []) handler
unfolding execute_primary_opcode
single opcode handler p m h stored =
    execute-run opcode m h stored.0
    ∙ run-counted _ (primary_operation opcode) m
    ∙ ap (λ operation. run operation m) p

pub mem_read-word : (m : Machine) (address : ℕ) → mem_read m (word address) ≡ mem_read m address
unfolding mem_read
mem_read-word m address = ground arith

-- An opcode after a prefix: R counts again, and the byte is looked up in a table.
abbrev pub after_prefix : (ℕ → ℕ) → (ℕ → Handler) → Handler
after_prefix cycles table m =
    let (code, m') = fetch (on_cpu inc_r m) in counted (cycles code) (table code) m'

run-after_prefix :
    (cycles : ℕ → ℕ) (table : ℕ → Handler) (code : ℕ) (m : Machine)
    → mem_read m (m.cpu.pc + 1) ≡ code
    → run (after_prefix cycles table) m ≡ run (extended (table code)) m
unfolding run extended
run-after_prefix cycles table code m e =
    ap (λ c. run (λ m'. counted (cycles c) (table c) (fetch (on_cpu inc_r m')).1) m)
      (ed_opcode_read m ∙ mem_read-word m (m.cpu.pc + 1) ∙ e)
    ∙ run-counted (cycles code) (extended (table code)) m

module _ (prefix : ℕ) (cycles : ℕ → ℕ) (table : ℕ → Handler)
    (stands_for : primary_operation prefix ≡ after_prefix cycles table) where
  pub prefixed :
      (code : ℕ) (handler : Handler)
      → table code ≡ handler
      → Executes (prefix ∷ code ∷ []) (extended handler)
  unfolding execute_primary_opcode
  prefixed code handler p m h stored =
      execute-run prefix m h stored.0
      ∙ run-counted _ (primary_operation prefix) m
      ∙ ap (λ operation. run operation m) stands_for
      ∙ run-after_prefix cycles table code m stored.1.0
      ∙ ap (λ operation. run (extended operation) m) p

pub double :
    (opcode1 : ℕ) (handler : Handler)
    → Extends opcode1 handler
    → Executes (0xed ∷ opcode1 ∷ []) (extended handler)
unfolding primary_operation instructions ed_handler
double =
    prefixed 0xed (λ code. get_or cycle_counts_ed code (get_or cycle_counts 0 0))
      (λ code. get_or ed_instructions code noop) refl

pub double_cb :
    (opcode1 : ℕ) (handler : Handler)
    → cb_operation opcode1 ≡ handler
    → Executes (0xcb ∷ opcode1 ∷ []) (extended handler)
unfolding primary_operation instructions cb_handler
double_cb = prefixed 0xcb (λ code. get_or cycle_counts_cb code 0) cb_operation refl

pub double_dd :
    (opcode1 : ℕ) (handler : Handler)
    → get_or dd_instructions opcode1 noop ≡ handler
    → Executes (0xdd ∷ opcode1 ∷ []) (extended handler)
unfolding primary_operation instructions dd_handler
double_dd = prefixed 0xdd dd_cycles (λ code. get_or dd_instructions code noop) refl

pub double_fd :
    (opcode1 : ℕ) (handler : Handler)
    → get_or dd_instructions opcode1 noop ≡ handler
    → Executes (0xfd ∷ opcode1 ∷ []) (extended (with_iy handler))
unfolding primary_operation instructions fd_handler with_iy
double_fd opcode1 handler p =
    prefixed 0xfd dd_cycles (λ code. with_iy (get_or dd_instructions code noop)) refl opcode1
      (with_iy handler) (ap with_iy p)
