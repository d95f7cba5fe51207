-- ===== src/Tests/Numbers.antt =====
-- Witnesses of the theorems on numbers, durations and iterators.
use libmutex.Prelude.{
  ℕ, ◌+◌, ◌*◌, ◌%◌, ◌^◌, ◌<◌, ◌≤◌, ◌≡◌, refl, arith, none, ltb, some, List, [], ◌∷◌, true, false,
  if◌then◌else◌,
}
use libmutex.Deadline.{lazy_after, remaining, remaining-remaining, time_left}
use libmutex.Rand.{Rand}
use libmutex.Rand.Lim.{nth, next_lim64, next_lim64-total}
use libmutex.Rand.Range.{next_range_duration, next_range_duration-total}
use libmutex.Backoff.{ExpBackoff, into_inf_iter}
use libmutex.Backoff.Schedule.{
  nth_next, scheduled, iter_at, nth_next-into_inf_iter, sleep_length, sleep_length-bounds,
}
use libmutex.InfIterator
use libmutex.Chalice.{borrow, poisoned, ok}
use libmutex.Chalice.Sessions.{Session, use_all, mark_after, changed_by, borrow-use_all}

-- Asked at 5 and again at 40, a deadline of 100 has 65 left.
remaining-remaining_example :
    let d = (remaining 5 6 (lazy_after 100)).0 in remaining 39 40 d ≡ (d, some (time_left 100 5 40))
remaining-remaining_example = remaining-remaining 100 5 6 39 40

-- A generator that counts.
abbrev counter : Rand ℕ
counter = record { next_u64 = λ c. (c % 2 ^ 64, c + 1) }

counter_bounded : (c : ℕ) → (counter.next_u64 c).0 < 2 ^ 64
counter_bounded c = omega arith

next_lim64-total_example : (y : ℕ × ℕ) × (next_lim64 counter 4 10 5 ≡ some y) × (y.0 < 10)
unfolding nth
next_lim64-total_example =
    next_lim64-total counter counter_bounded 3 10 0 5 (omega arith) (omega arith) (omega arith)

next_range_duration-total_example :
    (x : ℕ) × (rng' : ℕ) × (next_range_duration counter 4 10 20 5 ≡ some (x, rng'))
    × (10 ≤ x)
    × (x < 20)
unfolding nth
next_range_duration-total_example =
    next_range_duration-total counter counter_bounded 3 10 20 0 5 (omega arith) (omega arith)
      (omega arith) refl

abbrev patient : ExpBackoff
patient = record { spin_iters = 2; yield_iters = 3; min_sleep = 100; max_sleep = 1000 }

nth_next-into_inf_iter_example :
    nth_next 9 (into_inf_iter patient)
    ≡ (if ltb (9 + 1) (2 ^ 64) then some (scheduled patient 9, iter_at patient (9 + 1)) else none)
nth_next-into_inf_iter_example =
    nth_next-into_inf_iter patient (omega arith) (omega arith) (omega arith) 9

sleep_length-bounds_example : (100 ≤ sleep_length patient 6) × (sleep_length patient 6 ≤ 1000)
sleep_length-bounds_example = sleep_length-bounds patient (omega arith) (omega arith) 6

nth_next-cycled_example :
    InfIterator.nth_next 7 (record { start = 3; end = 6; item = 4 })
    ≡ some (InfIterator.cycled 3 6 4 7)
nth_next-cycled_example =
    InfIterator.nth_next-cycled 7 (record { start = 3; end = 6; item = 4 }) (omega arith)
      (omega arith) (omega arith)

-- A write that panics, and one that clears the mark.
abbrev history : List (Session ℕ)
history =
    record { clears = false; change = λ t. t + 1; panics = true }
    ∷ record { clears = true; change = λ t. t * 2; panics = false }
    ∷ []

borrow-use_all_example : borrow (use_all history (record { poisoned = false; inner = 4 })) ≡ (
    if mark_after history false then poisoned (changed_by history 4) else ok (changed_by history 4))
borrow-use_all_example = borrow-use_all history (record { poisoned = false; inner = 4 })
