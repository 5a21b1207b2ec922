-- ===== src/Platforms/Laws/Cancelling.antt =====
-- An event that is cancelled again.
use debug.Base.{
  ℕ, ◌+◌, ◌<◌, ◌≡◌, refl, ap, arith, ℤ, Bool, true, false, Option, none, some, List, [], ◌∷◌, All,
}
use debug.Platforms.CycleClock.{
  CycleEvent, CycleClock, insert_event, insert, schedule_at, schedule_in, schedule_every,
  remove_event, cancel,
}

module _ {Callback : Type 0} where
  remove_event-insert_event :
      (event : CycleEvent Callback) (items : List (CycleEvent Callback))
      → All (λ item. item.id < event.id) items
      → remove_event event.id (insert_event event items) ≡ some items
  unfolding remove_event insert_event
  remove_event-insert_event event [] p = ground arith
  remove_event-insert_event event (item ∷ items) p =
      ground (arith, remove_event-insert_event event items p.1, p.0)

  -- The numbers in the queue have all been given out.
  abbrev pub IsNumbered : CycleClock Callback → Type 0
  IsNumbered clock = All (λ item. item.id < clock.next_id) clock.queue

  abbrev pub counted_on : CycleClock Callback → CycleClock Callback
  counted_on clock = record clock { next_id = clock.next_id + 1 }

  cancelled :
      (at : ℕ) (interval : Option ℕ) (callback : Callback) (clock : CycleClock Callback)
      → IsNumbered clock
      → cancel clock.next_id (insert at interval callback clock).1 ≡ (true, counted_on clock)
  unfolding cancel
  cancelled at interval callback clock p =
      ap
        (λ found.
          let left : Option (List (CycleEvent Callback)) = found in
          elim left as (λ _. Bool × CycleClock Callback) [
            | none ↦ (false, (insert at interval callback clock).1)
            | some queue ↦ (true, record (counted_on clock) { queue = queue })
          ])
        (remove_event-insert_event _ clock.queue p)

  abbrev pub Cancels : ℕ × CycleClock Callback → CycleClock Callback → Type 0
  Cancels scheduled clock =
      (scheduled.0 ≡ clock.next_id) × (cancel scheduled.0 scheduled.1 ≡ (true, counted_on clock))

  -- Whatever an event is scheduled by, it gets the next number, and cancelling that number answers
  -- true and leaves the queue as it was, where the numbers in the queue are below the next one.
  pub cancel-schedule :
      (time : ℤ) (callback : Callback) (clock : CycleClock Callback)
      → IsNumbered clock
      → Cancels (schedule_at time callback clock) clock
        × Cancels (schedule_in time callback clock) clock
        × Cancels (schedule_every time callback clock) clock
  unfolding schedule_at schedule_in schedule_every
  cancel-schedule time callback clock p = (
    (refl, cancelled _ _ callback clock p),
    (refl, cancelled _ _ callback clock p),
    (refl, cancelled _ _ callback clock p),
  )
