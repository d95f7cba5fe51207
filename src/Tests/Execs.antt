-- ===== src/Tests/Execs.antt =====
-- Witness of the theorem on the harness of the executor, with one worker.
use libmutex.Prelude.{◌+◌, ◌*◌, ◌≤◌, ◌≡◌, ◌⊎◌, refl, arith}
use libmutex.Executor.{unbounded, lock, has_room}
use libmutex.Executor as Executor
use libmutex.ExecHarness.{Harness, submit, init, Reach, start, later, Works, none_yet, more}
use libmutex.ExecHarness.Finish.{CanMove, workers_finish}

-- One task is in the queue.
abbrev loaded : (h : Harness) × Reach unbounded 1 1000 h
unfolding init Executor.init has_room
loaded = (_, later start (submit refl refl (Executor.submit 0 (omega arith) refl refl refl) refl))

-- The worker has the receiver.
abbrev fetching : (h : Harness) × Works 1 loaded.0 1 h
unfolding init Executor.init has_room
fetching = (_, more 0 none_yet (omega arith) (lock refl))

workers_finish_example :
    (1 ≤ 6 * 1 + 2 * 1)
    × (fetching.0.completed_tasks ≤ 1)
    × ((fetching.0.completed_tasks ≡ 1) ⊎ CanMove 1 fetching.0)
unfolding init Executor.init has_room
workers_finish_example = workers_finish loaded.1 (omega arith) fetching.1
