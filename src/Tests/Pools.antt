-- ===== src/Tests/Pools.antt =====
-- Witnesses of the theorems on the thread pool, at a short run of one worker.
use libmutex.Prelude.{ℕ, ◌+◌, ◌≡◌, ◌⊎◌, refl, arith, true, false, Option, some, total, ℕ_discrete}
use libmutex.Completable.{is_some, complete_turn, Outcome, abort, success}
use libmutex.Executor.{
  unbounded, has_room, lock, recv, disconnected, take, end, load, succeed, complete, System, submit,
  stop, disconnect, work, init, Reach, start, later,
}
use libmutex.Executor.Tasks.{flag, count, holds, IsKept, task_placed}
use libmutex.Executor.Outcomes.{outcome_lem, all_completed}

abbrev add_ten : ℕ → Option ℕ
add_ten k = some (k + 10)

-- Task 0 has been submitted and completed, by the only worker.
abbrev task_done : (z : System add_ten) × Reach add_ten unbounded 1 z
unfolding ℕ_discrete init has_room complete_turn
task_done = (
  _,
  later
      (later
        (later
          (later
            (later
              (later (later start (submit 0 (omega arith) refl refl refl))
                (work 0 (omega arith) (lock refl)))
              (work 0 (omega arith) (recv refl)))
            (work 0 (omega arith) take))
          (work 0 (omega arith) load))
        (work 0 (omega arith) (succeed refl)))
      (work 0 (omega arith) complete),
)

-- The pool has been dropped, and the worker has returned.
abbrev dropped : (z : System add_ten) × Reach add_ten unbounded 1 z
unfolding ℕ_discrete init has_room complete_turn
dropped = (
  _,
  later
      (later (later (later (later task_done.1 stop) disconnect) (work 0 (omega arith) (lock refl)))
        (work 0 (omega arith) (disconnected refl refl)))
      (work 0 (omega arith) end),
)

task_placed_example :
    (count 0 task_done.0.pool.tasks
        + count 0 task_done.0.pool.discarded
        + flag (is_some (task_done.0.pool.outcomes 0))
        + total (holds 0) 1 task_done.0.workers
      ≡ 1)
    × IsKept add_ten 1 task_done.0
unfolding ℕ_discrete init has_room complete_turn
task_placed_example = task_placed add_ten task_done.1 0 (omega arith)

abbrev ten : Outcome ℕ
ten = success 10

outcome_lem_example :
    ((ten ≡ abort) × (task_done.0.pool.running ≡ false))
    ⊎ ((g : ℕ) × (add_ten 0 ≡ some g) × (ten ≡ success g))
unfolding ℕ_discrete init has_room complete_turn
outcome_lem_example = outcome_lem add_ten task_done.1 0 ten refl

all_completed_example : is_some (dropped.0.pool.outcomes 0) ≡ true
unfolding ℕ_discrete init has_room complete_turn total
all_completed_example = all_completed add_ten dropped.1 0 refl 0 (omega arith) refl
