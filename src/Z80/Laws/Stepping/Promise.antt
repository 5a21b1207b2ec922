-- ===== src/Z80/Laws/Stepping/Promise.antt =====
-- What the classes of `classifyStepOver` promise of an instruction's execution.
use debug.Base.{
  ℕ, ◌*◌, ◌/◌, ◌%◌, ◌==◌, ◌&&◌, ◌||◌, pair, if◌then◌else◌, ◌+◌, ◌≡◌, Bool, true, false, word,
  Option, some, none,
}
use debug.Z80.Hardware.{Machine, mem_read}
use debug.Z80.Stack.{push_word, pop_word}
use debug.Z80.StepOver.{ControlFlowKind, StepInfo}

-- A taken call and a restart push the return address, an untaken call goes on at it, a taken return
-- goes on at the word that it pops, and an untaken one goes on after its byte.
pub record Pushes (r : ℕ) (m m' : Machine) : Type 0 where
  pub hardware : m'.hardware ≡ (push_word r m).hardware
  pub sp : m'.cpu.sp ≡ (push_word r m).cpu.sp

pub record GoesOn (r : ℕ) (m m' : Machine) : Type 0 where
  pub hardware : m'.hardware ≡ m.hardware
  pub sp : m'.cpu.sp ≡ m.cpu.sp
  pub pc : m'.cpu.pc ≡ r

pub record Pops (m m' : Machine) : Type 0 where
  pub hardware : m'.hardware ≡ m.hardware
  pub sp : m'.cpu.sp ≡ (pop_word m).1.cpu.sp
  pub pc : m'.cpu.pc ≡ word (pop_word m).0

-- A call that is taken goes on at the word behind its opcode, as it stands after the push.
pub record Calls (r : ℕ) (m m' : Machine) : Type 0 where
  pub pushes : Pushes r m m'
  pub pc :
      m'.cpu.pc
      ≡ word (pair (mem_read m' (word (m.cpu.pc + 2))) (mem_read m' (word (m.cpu.pc + 1))))

-- A restart goes on at eight times the middle three bits of its opcode.
pub record Restarts (r opcode : ℕ) (m m' : Machine) : Type 0 where
  pub pushes : Pushes r m m'
  pub pc : m'.cpu.pc ≡ opcode / 8 % 8 * 8

abbrev pub Follows : ControlFlowKind → Bool → Option ℕ → Machine → Machine → Type 0
Follows ControlFlowKind.call true (some r) m m' = Calls r m m'
Follows ControlFlowKind.call false (some r) m m' = GoesOn r m m'
Follows ControlFlowKind.rst true (some r) m m' = Restarts r (mem_read m m.cpu.pc) m m'
Follows ControlFlowKind.ret true none m m' = Pops m m'
Follows ControlFlowKind.ret false none m m' = GoesOn (word (m.cpu.pc + 1)) m m'
Follows kind taken address m m' = ⊥

abbrev pub Behaves : Option StepInfo → Machine → Machine → Type 0
Behaves none m m' = Unit
Behaves (some info) m m' = Follows info.kind info.taken info.return_address m m'

-- The kind of an instruction by the bits of its opcode: 11001101 and 11ccc100 call, 11ttt111
-- restarts, 11001001 and 11ccc000 return, and so does 01xxx101 after ED.
abbrev pub kind_of : ℕ → ℕ → Option ControlFlowKind
kind_of opcode opcode2 =
    if opcode == 0xcd || (opcode / 64 == 3 && opcode % 8 == 4)
    then some ControlFlowKind.call
    else if opcode / 64 == 3 && opcode % 8 == 7
    then some ControlFlowKind.rst
    else if opcode == 0xc9 || (opcode / 64 == 3 && opcode % 8 == 0)
    then some ControlFlowKind.ret
    else if opcode == 0xed && (opcode2 / 64 == 1 && opcode2 % 8 == 5)
    then some ControlFlowKind.ret
    else none

abbrev pub kind_in : Option StepInfo → Option ControlFlowKind
kind_in none = none
kind_in (some info) = some info.kind

-- The kind is that of the opcode at PC, `none` where it is no call, restart or return, and the
-- execution is what the classification says.
pub record IsAsClassified (info : Option StepInfo) (m m' : Machine) : Type 0 where
  pub kind : kind_in info ≡ kind_of (mem_read m m.cpu.pc) (mem_read m (word (m.cpu.pc + 1)))
  pub behaviour : Behaves info m m'
