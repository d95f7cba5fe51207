-- ===== src/Tests/Monitors.antt =====
-- Witnesses of the theorems on the monitor, at short runs of a closure that counts its calls.
use libmutex.Prelude.{ℕ, ◌+◌, ◌≤◌, ◌<◌, ◌≡◌, ◌≢◌, refl, arith, Option, some, ℕ_discrete, total}
use libmutex.Monitor.{Turn, wait}
use libmutex.Monitor.Machine.{
  enter, acquire, evaluate, lock, park, time_out, resume, expire, System, Step, move, Reach, start,
  later, init, new, round, dispatch, num_waiting,
}
use libmutex.Monitor.Counts.{spins, holds, registered}
use libmutex.Monitor.Safety.{lock_exclusion, waiting_lem}
use libmutex.Monitor.Refinement.{Client, view, Step-Client}

-- A closure that counts, and waits for a microsecond.
abbrev count_up : ℕ → ℕ → ℕ → ℕ → Option (Turn ℕ ℕ)
count_up t u l s = some (record { locals = l + 1; state = s + 1; directive = wait 1000 })

abbrev entered : (z : System count_up) × Reach count_up 2 0 z
unfolding ℕ_discrete init new
entered =
    (_, later (later start (move 0 (omega arith) (enter 0))) (move 0 (omega arith) (acquire refl)))

-- Thread 0 has counted once and taken the mutex.
abbrev armed : (z : System count_up) × Reach count_up 2 0 z
unfolding ℕ_discrete init new round dispatch
armed = (
  _,
  later
      (later (later entered.1 (move 0 (omega arith) (evaluate 0 0 refl)))
        (move 0 (omega arith) (lock refl)))
      (move 0 (omega arith) (acquire refl)),
)

-- It has counted again, has waited, and the wait has timed out.
abbrev late : (z : System count_up) × Reach count_up 2 0 z
unfolding ℕ_discrete init new round dispatch
late = (
  _,
  later
      (later
        (later
          (later (later armed.1 (move 0 (omega arith) (evaluate 0 0 refl)))
            (move 0 (omega arith) park))
          (move 0 (omega arith) (time_out (omega arith))))
        (move 0 (omega arith) (resume refl)))
      (move 0 (omega arith) (expire refl)),
)

lock_exclusion_example :
    (spins (armed.0.threads 0) + spins (armed.0.threads 1) ≤ 1)
    × (holds (armed.0.threads 0) + holds (armed.0.threads 1) ≤ 1)
lock_exclusion_example =
    lock_exclusion count_up armed.1 0 1 (omega arith) (omega arith) (omega arith)

waiting_lem_example :
    (num_waiting late.0.shared ≡ total registered 2 late.0.threads)
    × (num_waiting late.0.shared ≤ 2)
waiting_lem_example = waiting_lem count_up late.1

-- The step by which thread 0 counts for the first time.
abbrev counted : (z : System count_up) × Step count_up 2 entered.0 z
unfolding ℕ_discrete init new round dispatch
counted = (_, move 0 (omega arith) (evaluate 0 0 refl))

Step-Client_example :
    (i : ℕ) × (i < 2)
    × Client count_up entered.0.shared.state
        (view (entered.0.threads i))
        counted.0.shared.state
        (view (counted.0.threads i))
    × ((j : ℕ) → j ≢ i → view (counted.0.threads j) ≡ view (entered.0.threads j))
Step-Client_example = Step-Client count_up entered.1 counted.1
