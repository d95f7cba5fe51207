-- ===== src/Tests/Locks.antt =====
-- Witnesses of the theorems on locks, at short runs.
use libmutex.Prelude.{ℕ, ◌^◌, ◌≡◌, ◌≢◌, refl, arith, none, true, false, ℕ_discrete}
use libmutex.Deadline.{lazy_after, remaining}
use libmutex.Zlock.Moderator.{try_write, try_read}
use libmutex.Zlock.System.{
  reader, writer, System, pick, Reach, start, later, init, call, first, repeat, continue, finish,
  outcome,
}
use libmutex.Zlock.System.Safety.{at_first}
use libmutex.Zlock.WriteBiased.{write_biased}
use libmutex.Zlock.WriteBiased
use libmutex.Zlock.ArrivalOrdered.{arrival_ordered}
use libmutex.Zlock.ArrivalOrdered
use libmutex.Zlock.Exclusion.{exclusion, never_panics, unwrap_safe}
use libmutex.Zlock.Implementation.{Implementation}
use libmutex.Zlock.Attempt.{Attempt, begun, goes}
use libmutex.Zlock.LegacyArrivalOrdered
use libmutex.Zlock.LegacyArrivalOrdered.{legacy_arrival_ordered}
use libmutex.Time.{duration_max}

-- A cutoff for the draws of the stochastic moderator.
abbrev half : ℕ → ℕ
half _ = 2 ^ 63

-- Thread 0 has called `try_write`, and then holds the write lock.
abbrev arrival_ordered_called : (z : System arrival_ordered) × Reach arrival_ordered 2 z
unfolding ℕ_discrete init ArrivalOrdered.new ArrivalOrdered.begin ArrivalOrdered.eval
    ArrivalOrdered.exit
arrival_ordered_called = (_, later start (pick 0 (omega arith) (call try_write 5)))

abbrev arrival_ordered_written : (z : System arrival_ordered) × Reach arrival_ordered 2 z
unfolding ℕ_discrete init ArrivalOrdered.new ArrivalOrdered.begin ArrivalOrdered.eval
    ArrivalOrdered.exit
arrival_ordered_written = (
  _,
  later (later arrival_ordered_called.1 (pick 0 (omega arith) (first 0 0 refl)))
      (pick 0 (omega arith) (finish refl refl)),
)

exclusion_example :
    (arrival_ordered_written.0.threads 1 ≢ writer) × (arrival_ordered_written.0.threads 1 ≢ reader)
unfolding ℕ_discrete init ArrivalOrdered.new ArrivalOrdered.begin ArrivalOrdered.eval
    ArrivalOrdered.exit
exclusion_example =
    exclusion half Implementation.arrival_ordered arrival_ordered_written.1 0 1 (omega arith)
      (omega arith) (omega arith) refl

-- A reader that has called `try_read` with a time limit, and thread 1 that has not.
abbrev legacy_called : (z : System legacy_arrival_ordered) × Reach legacy_arrival_ordered 2 z
unfolding ℕ_discrete init LegacyArrivalOrdered.new LegacyArrivalOrdered.begin
legacy_called = (_, later start (pick 0 (omega arith) (call try_read 5)))

never_panics_example :
    legacy_arrival_ordered.eval 7 8 (legacy_arrival_ordered.begin try_read 5) legacy_called.0.state
    ≢ none
unfolding ℕ_discrete init LegacyArrivalOrdered.new LegacyArrivalOrdered.begin
never_panics_example =
    never_panics half Implementation.legacy_arrival_ordered legacy_called.1 (omega arith)
      (omega arith) 7 8 0 (omega arith) at_first

-- `write` with a writer in the way, which then leaves.
abbrev held : WriteBiased.State
held = record { readers = 0; writer = true; writer_pending = false }

abbrev left : WriteBiased.State
left = record { readers = 0; writer = false; writer_pending = true }

abbrev waited : Attempt write_biased try_write duration_max writer
unfolding WriteBiased.begin WriteBiased.eval WriteBiased.exit lazy_after remaining
waited =
    goes {s = left}
      (goes {s = left}
        (goes {s = left}
          (goes {s = left} (goes {s = held} begun refl (first 0 0 refl)) refl
            (repeat 1 1 refl refl))
          refl (continue refl refl))
        refl (first 2 2 refl))
      refl (finish refl refl)

unwrap_safe_example : writer ≡ outcome {L = write_biased.Local} try_write true
unwrap_safe_example = unwrap_safe half Implementation.write_biased try_write refl waited refl
