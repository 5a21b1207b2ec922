-- ===== src/Z80/Hardware.antt =====
-- The machine around the processor: the 64K memory with its ROM ranges and the port callbacks
-- that `createZ80Runtime` of runtime.ts installs. The platform's handlers are not code of this
-- component: they answer from the history of port traffic, and change neither registers nor
-- memory.
use debug.Base.{ℕ, Bool, false, ◌&&◌, ◌||◌, Option, List, [], ◌∷◌}
use debug.Base.{leb, ◌==◌, if◌then◌else◌, byte, word}
use debug.Z80.State.{Cpu}

pub record Range : Type 0 where
  pub start : ℕ
  pub end : ℕ

pub record Interrupt : Type 0 where
  pub non_maskable : Option Bool
  pub bus : Option ℕ

pub record TickResult : Type 0 where
  pub interrupt : Option Interrupt
  pub stop : Bool

-- What the outside world has seen, latest first.
pub data IoEvent : Type 0 where
  read : ℕ → IoEvent
  write : ℕ → ℕ → IoEvent
  tick : IoEvent

pub record IoHandlers : Type 0 where
  pub on_read : List IoEvent → ℕ → ℕ
  pub on_tick : List IoEvent → Option TickResult

pub record Hardware : Type 0 where
  pub memory : ℕ → ℕ
  pub rom_ranges : List Range
  pub io : IoHandlers
  pub history : List IoEvent

pub record Machine : Type 0 where
  pub cpu : Cpu
  pub hardware : Hardware

abbrev pub Handler : Type 0
Handler = Machine → Machine

unfoldable pub is_rom_address : List Range → ℕ → Bool
is_rom_address [] addr = false
is_rom_address (range ∷ ranges) addr =
    leb range.start addr && leb addr range.end || is_rom_address ranges addr

unfoldable pub store : (ℕ → ℕ) → ℕ → ℕ → ℕ → ℕ
store memory addr value other = if other == addr then value else memory other

-- `cb.mem_read`
unfoldable pub mem_read : Machine → ℕ → ℕ
mem_read m addr = m.hardware.memory (word addr)

-- `hardware.memWrite`: a write to ROM is dropped, and a byte is stored.
unfoldable pub write_memory : ℕ → ℕ → Hardware → Hardware
unfolding is_rom_address
write_memory addr value hardware =
    if is_rom_address hardware.rom_ranges (word addr)
    then hardware
    else record hardware { memory = store hardware.memory (word addr) (byte value) }

-- `cb.mem_write`
unfoldable pub mem_write : ℕ → ℕ → Handler
mem_write addr value m = record m { hardware = write_memory (word addr) (byte value) m.hardware }

-- `hardware.forceMemWrite`
unfoldable pub force_mem_write : ℕ → ℕ → Handler
force_mem_write addr value m = record m {
  hardware = record (m.hardware) { memory = store m.hardware.memory (word addr) (byte value) };
}

abbrev pub record_event : IoEvent → Handler
record_event ev m = record m {
  hardware = record (m.hardware) { history = ev ∷ m.hardware.history };
}

-- `cb.io_read`: the byte read, and the machine after it.
unfoldable pub io_read : ℕ → Machine → ℕ × Machine
io_read port m =
    (byte (m.hardware.io.on_read m.hardware.history (word port)), record_event (read (word port)) m)

-- `cb.io_write`
unfoldable pub io_write : ℕ → ℕ → Handler
io_write port value m = record_event (write (word port) (byte value)) m

abbrev pub on_cpu : (Cpu → Cpu) → Handler
on_cpu f m = record m { cpu = f m.cpu }
