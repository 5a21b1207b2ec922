-- ===== src/Platforms/Laws/Sorted.antt =====
-- The queue stays in the order of the cycle counts.
use debug.Base.{refl, Bool, ℕ, ◌+◌, ◌≤◌, ◌≡◌, ltb, arith, true, false, if◌then◌else◌}
use debug.Base.{Option, none, some, List, [], ◌∷◌, All}
use debug.Platforms.CycleClock.{CycleEvent, insert_event, queue_again}

module _ {Callback : Type 0} where
  abbrev pub NotBefore : ℕ → List (CycleEvent Callback) → Type 0
  NotBefore at items = All (λ item. at ≤ item.at) items

  abbrev pub IsSorted : List (CycleEvent Callback) → Type 0
  IsSorted [] = Unit
  IsSorted (item ∷ items) = NotBefore item.at items × IsSorted items

  module _ {κ} (P : CycleEvent Callback → Type κ) where
    pub All-insert_event :
        (event : CycleEvent Callback) (items : List (CycleEvent Callback))
        → P event
        → All P items
        → All P (insert_event event items)
    unfolding insert_event
    All-insert_event event [] p q = (p, tt)
    All-insert_event event (item ∷ items) p q =
        elim (ltb event.at item.at)
          as (λ test.
            All P (if test then event ∷ item ∷ items else item ∷ insert_event event items)) [
              | true ↦ (p, q)
              | false ↦ (q.0, All-insert_event event items p q.1)
            ]

  NotBefore-trans :
      (at at' : ℕ) (items : List (CycleEvent Callback))
      → at ≤ at'
      → NotBefore at' items
      → NotBefore at items
  NotBefore-trans at at' [] h p = tt
  NotBefore-trans at at' (item ∷ items) h p = (omega arith, NotBefore-trans at at' items h p.1)

  IsSorted-on :
      (event item : CycleEvent Callback) (items : List (CycleEvent Callback)) (test : Bool)
      → ltb event.at item.at ≡ test
      → IsSorted (item ∷ items)
      → IsSorted (insert_event event items)
      → IsSorted (if test then event ∷ item ∷ items else item ∷ insert_event event items)
  IsSorted-on event item items true early s r =
      let below : event.at ≤ item.at = ground arith in
      ((below, NotBefore-trans event.at item.at items below s.0), s)
  IsSorted-on event item items false late s r =
      let above : item.at ≤ event.at = ground arith in
      (All-insert_event (λ x. item.at ≤ x.at) event items above s.0, r)

  pub insert_event-IsSorted :
      (event : CycleEvent Callback) (items : List (CycleEvent Callback))
      → IsSorted items
      → IsSorted (insert_event event items)
  unfolding insert_event
  insert_event-IsSorted event [] s = (tt, tt)
  insert_event-IsSorted event (item ∷ items) s =
      IsSorted-on event item items (ltb event.at item.at) refl s
        (insert_event-IsSorted event items s.1)

  pub queue_again-IsSorted :
      (next : CycleEvent Callback) (interval : Option ℕ) (items : List (CycleEvent Callback))
      → IsSorted items
      → IsSorted (queue_again next interval items)
  unfolding queue_again
  queue_again-IsSorted next none items s = s
  queue_again-IsSorted next (some interval) items s =
      elim (ltb 0 interval)
        as (λ test.
          IsSorted (
            if test then insert_event (record next { at = next.at + interval }) items else items)) [
              | true ↦ insert_event-IsSorted _ items s
              | false ↦ s
            ]
