-- ===== src/Z80/Laws/Stacking.antt =====
-- The stack: pushes and pops of words, calls and returns.
use debug.Base.{ℕ, ◌+◌, ◌<◌, ◌≡◌, ◌==◌, arith, false, word, byte, high}
use debug.Z80.Hardware.{Machine, is_rom_address, store, mem_read, write_memory, mem_write}
use debug.Z80.Stack.{push_byte, push_word, pop_word}

-- The two cells below SP are RAM.
pub record HasRoom (m : Machine) : Type 0 where
  pub upper : is_rom_address m.hardware.rom_ranges (word (m.cpu.sp + 65535)) ≡ false
  pub lower : is_rom_address m.hardware.rom_ranges (word (m.cpu.sp + 65534)) ≡ false

-- What a word on the stack is in the cells, and that no other cell changes.
pub record IsPushed (w : ℕ) (m m' : Machine) : Type 0 where
  pub sp : m'.cpu.sp ≡ word (m.cpu.sp + 65534)
  pub upper : m'.hardware.memory (word (m.cpu.sp + 65535)) ≡ high w
  pub lower : m'.hardware.memory (word (m.cpu.sp + 65534)) ≡ byte w

pub push_word-IsPushed :
    (w : ℕ) (m : Machine) → w < 65536 → m.cpu.sp < 65536 → HasRoom m → IsPushed w m (push_word w m)
unfolding push_word push_byte mem_write write_memory store
push_word-IsPushed w m h s room = ground (arith, room)

-- With SP a word, a push leaves every cell other than the two below SP as it was.
pub push_word_frame :
    (w addr : ℕ) (m : Machine)
    → m.cpu.sp < 65536
    → (addr == word (m.cpu.sp + 65535)) ≡ false
    → (addr == word (m.cpu.sp + 65534)) ≡ false
    → (push_word w m).hardware.memory addr ≡ m.hardware.memory addr
unfolding push_word push_byte mem_write write_memory store
push_word_frame w addr m s p q = ground arith

-- With SP a word and RAM below it, popping after the push of a word gives it back and leaves the
-- processor as it was before the push.
pub pop_word-push_word :
    (w : ℕ) (m : Machine)
    → w < 65536
    → m.cpu.sp < 65536
    → HasRoom m
    → let (popped, m') = pop_word (push_word w m) in (popped ≡ w) × (m'.cpu ≡ m.cpu)
unfolding pop_word push_word push_byte mem_write mem_read write_memory store
pop_word-push_word w m h s room = (ground (arith, room), ground (arith, room))
