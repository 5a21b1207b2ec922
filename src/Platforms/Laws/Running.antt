-- ===== src/Platforms/Laws/Running.antt =====
-- `advance` with callbacks that leave the clock alone: it returns, and nothing due is left out.
use debug.Base.{
  sym, ap, ◌∙◌, ◌++◌, ℕ, zero, suc, ◌+◌, ◌-◌, ◌≤◌, ◌<◌, ◌≡◌, refl, true, false, ltb, arith,
  if◌then◌else◌, Option, none, some, List, [], ◌∷◌, All, ltb→lt, pos,
}
use debug.Platforms.CycleClock.{
  CycleEvent, CycleClock, insert_event, queue_again, run_next, run_due, advance,
}
use debug.Platforms.Laws.Sorted.{NotBefore, IsSorted, queue_again-IsSorted}
use debug.Platforms.Laws.Due.{
  total, SameUpToOrder, total-append, calls_due, left_after, total-calls_due, total-left_after,
  round_weights,
}

module _ {Callback : Type 0} where
  -- A callback that only writes its name down.
  abbrev pub note :
      Callback → List Callback → CycleClock Callback → List Callback × CycleClock Callback
  note callback names clock = (callback ∷ names, clock)

  -- The rounds that events can take until `now`: a repeated event moves on by one cycle at least.
  abbrev pub rounds : ℕ → List (CycleEvent Callback) → ℕ
  rounds now [] = 0
  rounds now (item ∷ items) = (now + 1 - item.at) + rounds now items

  rounds-insert_event :
      (now : ℕ) (event : CycleEvent Callback) (items : List (CycleEvent Callback))
      → rounds now (insert_event event items) ≡ (now + 1 - event.at) + rounds now items
  unfolding insert_event
  rounds-insert_event now event [] = refl
  rounds-insert_event now event (item ∷ items) = ground (arith, rounds-insert_event now event items)

  rounds-queue_again :
      (now : ℕ) (next : CycleEvent Callback) (interval : Option ℕ)
      (items : List (CycleEvent Callback))
      → next.at ≤ now
      → rounds now (queue_again next interval items) < (now + 1 - next.at) + rounds now items
  unfolding queue_again
  rounds-queue_again now next none items h = omega arith
  rounds-queue_again now next (some zero) items h = ground arith
  rounds-queue_again now next (some (suc k)) items h =
      ground (arith, rounds-insert_event now (record next { at = next.at + suc k }) items)

  -- What a run up to `now` over a queue comes to, with the names written down before and after.
  pub record Ran (now : ℕ) (items : List (CycleEvent Callback)) (before after : List Callback)
      (clock : CycleClock Callback) : Type 0 where
    pub called : SameUpToOrder after (calls_due now items ++ before)
    pub left : SameUpToOrder clock.queue (left_after now items)
    pub later : All (λ item. now < item.at) clock.queue
    pub in_order : IsSorted clock.queue
    pub same_time : clock.now_cycles ≡ now

  abbrev pub Returns :
      Option (List Callback × CycleClock Callback)
      → ℕ
      → List (CycleEvent Callback)
      → List Callback
      → Type 0
  Returns outcome now items before =
      (after : List Callback) × (clock : CycleClock Callback) × ((outcome ≡ some (after, clock))
        × Ran now items before after clock)

  All-later :
      (now at : ℕ) (items : List (CycleEvent Callback))
      → now < at
      → NotBefore at items
      → All (λ item. now < item.at) items
  All-later now at [] h p = tt
  All-later now at (item ∷ items) h p = (omega arith, All-later now at items h p.1)

  none_due :
      (now : ℕ) (g : Callback → ℕ) (f : CycleEvent Callback → ℕ)
      (items : List (CycleEvent Callback))
      → All (λ item. now < item.at) items
      → (total g (calls_due now items) ≡ 0) × (total f (left_after now items) ≡ total f items)
  none_due now g f [] p = (refl, refl)
  none_due now g f (item ∷ items) p =
      let early : ltb now item.at ≡ true = ground arith in
      let rest = none_due now g f items p.1 in
      (rw early rest.0, rw early (ap (λ n. f item + n) rest.1))

  stops :
      (names : List Callback) (clock : CycleClock Callback) (items : List (CycleEvent Callback))
      → All (λ item. clock.now_cycles < item.at) items
      → IsSorted items
      → Returns (some (names, record clock { queue = items })) clock.now_cycles items names
  stops names clock items late s = (
    names,
    record clock { queue = items },
    (
      refl,
      record {
        called = λ g.
            let none_called = (none_due clock.now_cycles g (λ _. 0) items late).0 in
            omega (arith, none_called, total-append g (calls_due clock.now_cycles items) names);
        left = λ f. sym (none_due clock.now_cycles (λ _. 0) f items late).1;
        later = late;
        in_order = s;
        same_time = refl;
      },
    ),
  )

  -- A round over the first event, and a run over what the round leaves.
  goes_on :
      (outcome : Option (List Callback × CycleClock Callback)) (names : List Callback) (now : ℕ)
      (next : CycleEvent Callback) (rest : List (CycleEvent Callback))
      → next.at ≤ now
      → Returns outcome now (queue_again next next.interval rest) (next.callback ∷ names)
      → Returns outcome now (next ∷ rest) names
  goes_on outcome names now next rest due (after, clock, (e, ran)) = (
    after,
    clock,
    (
      e,
      record {
        called = λ g. ran.called g ∙ called_again g;
        left = λ f. ran.left f ∙ left_again f;
        later = ran.later;
        in_order = ran.in_order;
        same_time = ran.same_time;
      },
    ),
  )
    where
      queue : List (CycleEvent Callback)
      queue = queue_again next next.interval rest

      called_again :
          (g : Callback → ℕ)
          → total g (calls_due now queue ++ (next.callback ∷ names))
            ≡ total g (calls_due now (next ∷ rest) ++ names)
      called_again g =
          let round =
            (round_weights now g (λ _. 0) next.id next.at next.interval next.callback rest due).0 in
          omega (
            arith,
            round,
            total-append g (calls_due now queue) (next.callback ∷ names),
            total-append g (calls_due now (next ∷ rest)) names,
            total-calls_due now g (λ _. 0) queue,
            total-calls_due now g (λ _. 0) (next ∷ rest),
          )

      left_again :
          (f : CycleEvent Callback → ℕ)
          → total f (left_after now queue) ≡ total f (left_after now (next ∷ rest))
      left_again f =
          total-left_after now (λ _. 0) f queue
          ∙ sym
              (round_weights now (λ _. 0) f next.id next.at next.interval next.callback rest due).1
          ∙ sym (total-left_after now (λ _. 0) f (next ∷ rest))

  runs :
      (fuel : ℕ) (names : List Callback) (now next_id : ℕ) (items : List (CycleEvent Callback))
      → IsSorted items
      → rounds now items < fuel
      → Returns
          (run_due note fuel names (record { now_cycles = now; next_id = next_id; queue = items }))
          now
          items
          names
  unfolding run_due run_next
  runs zero names now next_id items s h = absurd (omega arith)
  runs (suc fuel) names now next_id [] s h =
      stops names (record { now_cycles = now; next_id = next_id; queue = [] }) [] tt tt
  runs (suc fuel) names now next_id (next ∷ rest) s h =
      let clock : CycleClock Callback = record {
        now_cycles = now;
        next_id = next_id;
        queue = next ∷ rest;
      } in
      elim (ltb now next.at)
          as (λ test.
            (ltb now next.at ≡ test)
            → Returns
                (let round : Option (List Callback × CycleClock Callback) =
                    if test
                    then none
                    else some (
                      next.callback ∷ names,
                      record clock { queue = queue_again next next.interval rest },
                    ) in
                  elim round as (λ _. Option (List Callback × CycleClock Callback)) [
                    | none ↦ some (names, clock)
                    | some (names', clock') ↦ run_due note fuel names' clock'
                  ])
                now (next ∷ rest) names) [
                  | true ↦ λ e.
                      let late = ltb→lt now next.at e in
                      stops names clock (next ∷ rest) (late, All-later now next.at rest late s.0) s
                  | false ↦ λ e.
                      let due : next.at ≤ now = ground arith in
                      goes_on _ names now next rest due (
                        runs fuel (next.callback ∷ names) now next_id
                          (queue_again next next.interval rest)
                          (queue_again-IsSorted next next.interval rest s.1)
                          (omega (arith, rounds-queue_again now next next.interval rest due)))
                ]
        refl

  -- With callbacks that leave the clock alone, and a sorted queue, `advance` by a positive number of
  -- cycles returns within one round for each cycle by which each due event is overdue and one more.
  -- The calls that it makes are, up to their order, one for each event that is due by then and one
  -- more for each full interval by which an event that repeats is late. The queue that it leaves
  -- holds, up to order, the events that are later and each due event that repeats at the first of
  -- its cycle counts that is later; it is sorted, and the time is the sum.
  pub advance-Returns :
      (cycles : ℕ) (names : List Callback) (clock : CycleClock Callback)
      → 0 < cycles
      → IsSorted clock.queue
      → let now = clock.now_cycles + cycles in
        Returns
          (advance note (suc (rounds now clock.queue)) (pos cycles) names clock)
          now
          clock.queue
          names
  unfolding advance
  advance-Returns zero names clock h s = absurd (omega arith)
  advance-Returns (suc cycles) names clock h s =
      runs (suc (rounds (clock.now_cycles + suc cycles) clock.queue)) names
        (clock.now_cycles + suc cycles) clock.next_id clock.queue s (omega arith)
