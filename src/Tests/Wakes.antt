-- ===== src/Tests/Wakes.antt =====
-- Witnesses of the theorems on notifications, at a run in which thread 1 waits and thread 0
-- notifies.
use libmutex.Prelude.{
  ℕ, ◌+◌, ◌≡◌, ◌≢◌, refl, arith, Bool, true, false, Option, some, ℕ_discrete, ◌⊎◌,
}
use libmutex.Monitor.{Directive, wait, notify_all, Turn}
use libmutex.Monitor.Machine.{
  Frame, enter, acquire, evaluate, lock, park, release, System, Step, move, Reach, start, later,
  init, new, round, dispatch, locking, releasing, about_to_wait,
}
use libmutex.Monitor.Wakeup.{notify_all_lem, Sleeps, now, Sleeps-is_notifying, is_notifying}
use libmutex.Monitor.Wakeup

abbrev reply : Bool → Directive
reply true = notify_all
reply false = wait 1000

-- A closure that notifies or waits.
abbrev talk : ℕ → ℕ → Bool → ℕ → Option (Turn Bool ℕ)
talk t u l s = some (record { locals = l; state = s + 1; directive = reply l })

-- Thread 1 has gone through the first round and waits.
abbrev armed : (z : System talk) × Reach talk 2 0 z
unfolding ℕ_discrete init new round dispatch
armed = (
  _,
  later
      (later
        (later (later start (move 1 (omega arith) (enter false)))
          (move 1 (omega arith) (acquire refl)))
        (move 1 (omega arith) (evaluate 0 0 refl)))
      (move 1 (omega arith) (lock refl)),
)

abbrev waiting : (z : System talk) × Reach talk 2 0 z
unfolding ℕ_discrete init new round dispatch
waiting = (
  _,
  later
      (later (later armed.1 (move 1 (omega arith) (acquire refl)))
        (move 1 (omega arith) (evaluate 0 0 refl)))
      (move 1 (omega arith) park),
)

-- Thread 0 has gone through its first round, which has taken the mutex.
abbrev called : (z : System talk) × Reach talk 2 0 z
unfolding ℕ_discrete init new round dispatch
called = (
  _,
  later
      (later
        (later (later waiting.1 (move 0 (omega arith) (enter true)))
          (move 0 (omega arith) (acquire refl)))
        (move 0 (omega arith) (evaluate 0 0 refl)))
      (move 0 (omega arith) (lock refl)),
)

abbrev ready : (z : System talk) × Reach talk 2 0 z
unfolding ℕ_discrete init new round dispatch
ready = (_, later called.1 (move 0 (omega arith) (acquire refl)))

abbrev frame : Option Directive → Frame Bool
frame last = record { locals = true; last = last }

notify_all_lem_example :
    ((true ≡ false)
      × (releasing (frame (some notify_all)) true ≡ locking (frame (some notify_all))))
    ⊎ ((true ≡ true)
        × (releasing (frame (some notify_all)) true ≡ releasing (frame (some notify_all)) true)
        × ((c : Frame Bool) (d : ℕ) → ready.0.threads 1 ≢ about_to_wait c d))
unfolding ℕ_discrete init new round dispatch
notify_all_lem_example =
    notify_all_lem talk ready.1 5 6 0 1 (omega arith) (omega arith) (omega arith) refl refl refl
      refl refl

-- Thread 0 has evaluated its closure once more and is to notify.
abbrev about_to_notify : (z : System talk) × Step talk 2 ready.0 z
unfolding ℕ_discrete init new round dispatch
about_to_notify = (_, move 0 (omega arith) (evaluate 5 6 refl))

-- It has dropped the mutex.
abbrev dropped : (z : System talk) × Sleeps talk 2 1 about_to_notify.0 z
unfolding ℕ_discrete init new round dispatch
dropped = (_, Wakeup.later (now refl) (move 0 (omega arith) release) refl)

Sleeps-is_notifying_example : is_notifying (dropped.0.threads 0) ≡ true
unfolding ℕ_discrete init new round dispatch
Sleeps-is_notifying_example = Sleeps-is_notifying talk 0 1 refl dropped.1
