-- ===== src/Platforms/Tests.antt =====
-- The clock at a concrete queue.
use debug.Base.{ℕ, ◌+◌, ◌≡◌, refl, arith, none, some, [], ◌∷◌, pos, negsuc}
use debug.Platforms.CycleClock.{CycleClock, schedule_at, schedule_every, advance}
use debug.Platforms.Laws.Running.{note, rounds, Returns, advance-Returns}
use debug.Platforms.Laws.Cancelling.{Cancels, cancel-schedule}
use debug.Platforms.CycleClock.{schedule_in}

-- One event at 7, and one at 3 that comes back every 2 cycles.
abbrev waiting : CycleClock ℕ
waiting = record {
  now_cycles = 1;
  next_id = 3;
  queue =
      record { id = 2; at = 3; interval = some 2; callback = 20 }
      ∷ record { id = 1; at = 7; interval = none; callback = 10 }
      ∷ [];
}

-- At 8: 3, 5 and 7 for the one that repeats, and after the 7 of the other, which was there first.
advanced :
    advance note 40 (pos 7) [] waiting
    ≡ some (
      20 ∷ 10 ∷ 20 ∷ 20 ∷ [],
      record {
        now_cycles = 8;
        next_id = 3;
        queue = record { id = 2; at = 9; interval = some 2; callback = 20 } ∷ [];
      },
    )
unfolding advance
advanced = refl

advance-Returns_example :
    Returns (advance note (rounds 8 waiting.queue + 1) (pos 7) [] waiting) 8 waiting.queue []
advance-Returns_example = advance-Returns 7 [] waiting (omega arith) ((omega arith, tt), (tt, tt))

cancel-schedule_example :
    Cancels (schedule_at (negsuc 4) 30 waiting) waiting
    × Cancels (schedule_in (negsuc 4) 30 waiting) waiting
    × Cancels (schedule_every (negsuc 4) 30 waiting) waiting
cancel-schedule_example = cancel-schedule (negsuc 4) 30 waiting (omega arith, (omega arith, tt))
