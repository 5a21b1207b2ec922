-- ===== src/Platforms/Laws/Due.antt =====
-- What is due until a cycle count, and what is left, event by event.
use debug.Base.{
  ℕ, zero, suc, ◌+◌, ◌-◌, ◌*◌, ◌/◌, ◌≤◌, ◌<◌, ◌≡◌, refl, sym, ap, ◌∙◌, true, false, ltb, arith,
  if◌then◌else◌, Option, none, some, List, [], ◌∷◌, ◌++◌,
}
use native.Mathlib.Nat.{div-eq_of_lt, div-eq-sub-div}
use debug.Platforms.CycleClock.{CycleEvent, insert_event, queue_again}

module _ {A : Type 0} where
  abbrev pub total : (A → ℕ) → List A → ℕ
  total f [] = 0
  total f (x ∷ xs) = f x + total f xs

  -- Every weighting of the elements has the same sum: they are the same up to their order.
  abbrev pub SameUpToOrder : List A → List A → Type 0
  SameUpToOrder xs ys = (f : A → ℕ) → total f xs ≡ total f ys

  abbrev pub repeated : ℕ → A → List A
  repeated zero x = []
  repeated (suc n) x = x ∷ repeated n x

  pub total-append : (f : A → ℕ) (xs ys : List A) → total f (xs ++ ys) ≡ total f xs + total f ys
  total-append f [] ys = omega arith
  total-append f (x ∷ xs) ys = omega (arith, total-append f xs ys)

-- How often an event that is late by some cycles has been due: once, and once more for each full
-- interval.
abbrev pub times_late : Option ℕ → ℕ → ℕ
times_late none late = 1
times_late (some zero) late = 1
times_late (some (suc k)) late = late / suc k + 1

-- Where an event is due and repeats, it is due once more than from its next cycle count on.
times_again :
    (now at k : ℕ)
    → at ≤ now
    → (now - at) / suc k + 1
      ≡ suc (if ltb now (at + suc k) then 0 else (now - (at + suc k)) / suc k + 1)
times_again now at k h =
    elim (ltb now (at + suc k))
        as (λ test.
          (ltb now (at + suc k) ≡ test)
          → (now - at) / suc k + 1 ≡ suc (if test then 0 else (now - (at + suc k)) / suc k + 1)) [
            | true ↦ λ e.
                let small : now - at < suc k = ground arith in omega (arith, div-eq_of_lt small)
            | false ↦ λ e.
                let large : suc k ≤ now - at = ground arith in
                let positive : zero < suc k = omega arith in
                let same : now - at - suc k ≡ now - (at + suc k) = omega arith in
                ap (λ n. n + 1) (div-eq-sub-div positive large ∙ ap (λ n. n / suc k + 1) same)
                ∙ omega arith
          ]
      refl

assoc : (l m n : ℕ) → l + m + n ≡ l + (m + n)
assoc l m n = omega arith

next_count : (at n k : ℕ) → at + suc n * k ≡ at + k + n * k
next_count at n k = grind arith

one_more : (at n k : ℕ) → at + 1 * suc k ≡ at + suc k
one_more at n k = omega arith

not_before : (now at : ℕ) → at ≤ now → ltb now at ≡ false
not_before now at h = ground arith

module _ {Callback : Type 0} where
  abbrev pub times_due : ℕ → CycleEvent Callback → ℕ
  times_due now event = if ltb now event.at then 0 else times_late event.interval (now - event.at)

  -- An event that repeats is left at the first of its cycle counts that is later.
  abbrev pub left_late : Option ℕ → CycleEvent Callback → ℕ → List (CycleEvent Callback)
  left_late none event late = []
  left_late (some zero) event late = []
  left_late (some (suc k)) event late =
      record event { at = event.at + (late / suc k + 1) * suc k } ∷ []

  abbrev pub left_of : ℕ → CycleEvent Callback → List (CycleEvent Callback)
  left_of now event =
      if ltb now event.at then event ∷ [] else left_late event.interval event (now - event.at)

  abbrev pub calls_due : ℕ → List (CycleEvent Callback) → List Callback
  calls_due now [] = []
  calls_due now (event ∷ events) =
      repeated (times_due now event) event.callback ++ calls_due now events

  abbrev pub left_after : ℕ → List (CycleEvent Callback) → List (CycleEvent Callback)
  left_after now [] = []
  left_after now (event ∷ events) = left_of now event ++ left_after now events

  module _ (now : ℕ) (g : Callback → ℕ) (f : CycleEvent Callback → ℕ) where
    abbrev pub call_weight : CycleEvent Callback → ℕ
    call_weight event = total g (repeated (times_due now event) event.callback)

    abbrev pub left_weight : CycleEvent Callback → ℕ
    left_weight event = total f (left_of now event)

    pub total-calls_due :
        (events : List (CycleEvent Callback))
        → total g (calls_due now events) ≡ total call_weight events
    total-calls_due [] = refl
    total-calls_due (event ∷ events) =
        total-append g (repeated (times_due now event) event.callback) (calls_due now events)
        ∙ ap (λ n. call_weight event + n) (total-calls_due events)

    pub total-left_after :
        (events : List (CycleEvent Callback))
        → total f (left_after now events) ≡ total left_weight events
    total-left_after [] = refl
    total-left_after (event ∷ events) =
        total-append f (left_of now event) (left_after now events)
        ∙ ap (λ n. left_weight event + n) (total-left_after events)

  pub total-insert_event :
      (h : CycleEvent Callback → ℕ) (event : CycleEvent Callback)
      (events : List (CycleEvent Callback))
      → total h (insert_event event events) ≡ h event + total h events
  unfolding insert_event
  total-insert_event h event [] = refl
  total-insert_event h event (item ∷ items) = ground (arith, total-insert_event h event items)

  -- The round of a due event that repeats: its call, and the event at its next cycle count.
  module _ (now id at k : ℕ) (callback : Callback) (due : at ≤ now) where
    abbrev first : CycleEvent Callback
    first = record { id = id; at = at; interval = some (suc k); callback = callback }

    abbrev second : CycleEvent Callback
    second = record first { at = at + suc k }

    pub calls_again :
        (g : Callback → ℕ)
        → total g (repeated (times_due now first) callback)
          ≡ g callback + total g (repeated (times_due now second) callback)
    calls_again g =
        ap (λ test. total g (repeated (if test then 0 else (now - at) / suc k + 1) callback))
          (not_before now at due)
        ∙ ap (λ n. total g (repeated n callback)) (times_again now at k due)

    moved : ℕ → List (CycleEvent Callback)
    moved t = record first { at = t } ∷ []

    pub left_again : left_of now first ≡ left_of now second
    unfolding moved
    left_again =
        ap (λ test. if test then first ∷ [] else moved (at + ((now - at) / suc k + 1) * suc k))
          (not_before now at due)
        ∙ ap (λ n. moved (at + n * suc k)) (times_again now at k due)
        ∙ elim (ltb now (at + suc k))
            as (λ test.
              moved (at + suc (if test then 0 else (now - (at + suc k)) / suc k + 1) * suc k) ≡ (
                if test
                then second ∷ []
                else moved (at + suc k + ((now - (at + suc k)) / suc k + 1) * suc k))) [
                  | true ↦ ap moved (one_more at 0 k)
                  | false ↦ ap moved (next_count at ((now - (at + suc k)) / suc k + 1) (suc k))
                ]

  queue_again-again :
      (k : ℕ) (next : CycleEvent Callback) (events : List (CycleEvent Callback))
      → queue_again next (some (suc k)) events
        ≡ insert_event (record next { at = next.at + suc k }) events
  unfolding queue_again
  queue_again-again k next events = ground arith

  -- One round over a due event: what it calls and leaves, and what the queue it goes back to does.
  module _ (now : ℕ) (g : Callback → ℕ) (f : CycleEvent Callback → ℕ) where
    abbrev pub event_of : ℕ → ℕ → Option ℕ → Callback → CycleEvent Callback
    event_of id at interval callback = record {
      id = id;
      at = at;
      interval = interval;
      callback = callback;
    }

    pub round_weights :
        (id at : ℕ) (interval : Option ℕ) (callback : Callback)
        (events : List (CycleEvent Callback))
        → at ≤ now
        → let next = event_of id at interval callback in
          let queue = queue_again next interval events in
          (total (call_weight now g f) (next ∷ events)
            ≡ g callback + total (call_weight now g f) queue)
          × (total (left_weight now g f) (next ∷ events) ≡ total (left_weight now g f) queue)
    unfolding queue_again
    round_weights id at none callback events due = ground (arith, not_before now at due)
    round_weights id at (some zero) callback events due = ground (arith, not_before now at due)
    round_weights id at (some (suc k)) callback events due =
        let again = event_of id (at + suc k) (some (suc k)) callback in
        let queued = queue_again-again k (event_of id at (some (suc k)) callback) events in
        let calls =
          ap (total (call_weight now g f)) queued
          ∙ total-insert_event (call_weight now g f) again events in
        let left =
          ap (total (left_weight now g f)) queued
          ∙ total-insert_event (left_weight now g f) again events in
        (
          ap (λ n. n + total (call_weight now g f) events) (calls_again now id at k callback due g)
              ∙ assoc (g callback) (call_weight now g f again) (total (call_weight now g f) events)
              ∙ ap (λ n. g callback + n) (sym calls),
          ap (λ xs. total f xs + total (left_weight now g f) events)
                (left_again now id at k callback due)
              ∙ sym left,
        )
