-- ===== src/Platforms/CycleClock.antt =====
-- packages/debug80-runtime/src/platforms/cycle-clock.ts: callbacks at cycle counts. A callback is a
-- name, and what calling it does to the clock and to the world around it is a parameter. Cycle
-- counts are whole numbers here.
use debug.Base.{
  ℕ, zero, suc, ◌+◌, ℤ, pos, negsuc, Bool, true, false, ◌==◌, ltb, if◌then◌else◌, Option, none,
  some, List, [], ◌∷◌,
}

pub record CycleEvent (Callback : Type 0) : Type 0 where
  pub id : ℕ
  pub at : ℕ
  pub interval : Option ℕ
  pub callback : Callback

pub record CycleClock (Callback : Type 0) : Type 0 where
  pub now_cycles : ℕ
  pub next_id : ℕ
  pub queue : List (CycleEvent Callback)

-- `Math.max(bound, value)`
abbrev pub max_of : ℕ → ℤ → ℕ
max_of bound (pos value) = if ltb bound value then value else bound
max_of bound (negsuc value) = bound

module _ {Callback : Type 0} where
  unfoldable pub reset_clock : CycleClock Callback → CycleClock Callback
  reset_clock clock = record { now_cycles = 0; next_id = 1; queue = [] }

  -- Before the first event that is later, or at the end.
  unfoldable pub insert_event :
      CycleEvent Callback → List (CycleEvent Callback) → List (CycleEvent Callback)
  insert_event event [] = event ∷ []
  insert_event event (item ∷ items) =
      if ltb event.at item.at then event ∷ item ∷ items else item ∷ insert_event event items

  abbrev pub insert : ℕ → Option ℕ → Callback → CycleClock Callback → ℕ × CycleClock Callback
  insert at interval callback clock = (
    clock.next_id,
    record clock {
      next_id = clock.next_id + 1;
      queue =
          insert_event
            (record { id = clock.next_id; at = at; interval = interval; callback = callback })
            clock.queue;
    },
  )

  unfoldable pub schedule_at : ℤ → Callback → CycleClock Callback → ℕ × CycleClock Callback
  schedule_at at callback clock = insert (max_of 0 at) none callback clock

  unfoldable pub schedule_in : ℤ → Callback → CycleClock Callback → ℕ × CycleClock Callback
  unfolding schedule_at
  schedule_in delta callback clock =
      schedule_at (pos (clock.now_cycles + max_of 0 delta)) callback clock

  unfoldable pub schedule_every : ℤ → Callback → CycleClock Callback → ℕ × CycleClock Callback
  schedule_every interval callback clock =
      insert (clock.now_cycles + max_of 1 interval) (some (max_of 1 interval)) callback clock

  -- `findIndex` and `splice`: the first event with the number goes.
  unfoldable pub remove_event : ℕ → List (CycleEvent Callback) → Option (List (CycleEvent Callback))
  remove_event id [] = none
  remove_event id (item ∷ items) =
      let rest = remove_event id items in
      if item.id == id
      then some items
      else elim rest [ none ↦ none | some left ↦ some (item ∷ left) ]

  unfoldable pub cancel : ℕ → CycleClock Callback → Bool × CycleClock Callback
  unfolding remove_event
  cancel id clock = elim (remove_event id clock.queue) [
    | none ↦ (false, clock)
    | some queue ↦ (true, record clock { queue = queue })
  ]

  -- An event that repeats goes back into the queue after its callback.
  unfoldable pub queue_again :
      CycleEvent Callback → Option ℕ → List (CycleEvent Callback) → List (CycleEvent Callback)
  unfolding insert_event
  queue_again next none items = items
  queue_again next (some interval) items =
      if ltb 0 interval then insert_event (record next { at = next.at + interval }) items else items

  abbrev pub again : CycleEvent Callback → CycleClock Callback → CycleClock Callback
  again next clock = record clock { queue = queue_again next next.interval clock.queue }

  module _ {World : Type 0}
      (invoke : Callback → World → CycleClock Callback → World × CycleClock Callback) where
    -- One round of the loop of `advance`: `none` when nothing is due.
    unfoldable pub run_next : World → CycleClock Callback → Option (World × CycleClock Callback)
    unfolding queue_again
    run_next world clock = elim clock.queue [
      | [] ↦ none
      | next ∷ rest ↦
          if ltb clock.now_cycles next.at
          then none
          else (let (world', clock') = invoke next.callback world (record clock { queue = rest }) in
              some (world', again next clock'))
    ]

    -- The loop of `advance`; `none` when the fuel is used up.
    unfoldable pub run_due : ℕ → World → CycleClock Callback → Option (World × CycleClock Callback)
    unfolding run_next
    run_due zero world clock = none
    run_due (suc fuel) world clock = elim (run_next world clock) [
      | none ↦ some (world, clock)
      | some (world', clock') ↦ run_due fuel world' clock'
    ]

    unfoldable pub advance :
        ℕ → ℤ → World → CycleClock Callback → Option (World × CycleClock Callback)
    unfolding run_due
    advance fuel (pos zero) world clock = some (world, clock)
    advance fuel (pos (suc cycles)) world clock =
        run_due fuel world (record clock { now_cycles = clock.now_cycles + suc cycles })
    advance fuel (negsuc cycles) world clock = some (world, clock)
