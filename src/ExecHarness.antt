-- ===== src/ExecHarness.antt =====
-- anode-bench/src/exec_harness.rs: `run`, over the thread pool of Executor. The load thread submits
-- tasks that count their executions; when it has returned, `run` waits until all are counted. The
-- pool is dropped after that. The counter is below 2 ^ 64.
pub mod Counts
pub mod Finish
use libmutex.Prelude.{ℕ, ◌+◌, ◌<◌, ◌≡◌, Bool, true, false, Option, none, some, place}
use libmutex.Executor.{Queue, Worker, Pool, Move, succeed}
use libmutex.Executor as Executor
use libmutex.QuadHarness.Threads.{goes_on}

-- The closure of a task: `completed_tasks.fetch_add(1, …)`.
abbrev pub count_task : ℕ → Option (Unit {0})
count_task k = some tt

-- How often a step of a worker runs it.
abbrev pub runs :
    {p p' : Pool (Unit {0})} {w w' : Worker (Unit {0})} → Move count_task p w p' w' → ℕ
runs (succeed _) = 1
runs _ = 0

-- The load thread, with its `iterations`.
pub data Load : Type 0 where
  loading : ℕ → Load
  returned : ℕ → Load
  panicked : ℕ → Load

abbrev pub iterations : Load → ℕ
iterations (loading i) = i
iterations (returned i) = i
iterations (panicked i) = i

pub record Harness : Type 0 where
  pub executor : Executor.System count_task
  pub running : Bool
  pub completed_tasks : ℕ
  pub load : Load

-- Worker `i` has taken a step.
abbrev pub worked :
    (h : Harness) (i : ℕ) {p : Pool (Unit {0})} {w : Worker (Unit {0})}
    → Move count_task h.executor.pool (h.executor.workers i) p w
    → Harness
worked h i {p} {w} mv = record h {
  executor = record { pool = p; workers = place i w h.executor.workers };
  completed_tasks = h.completed_tasks + runs mv;
}

pub data Step (queue : Queue) (n interval : ℕ) (h : Harness) : Harness → Type 0 where
  -- The time is over.
  stop : Step queue n interval h (record h { running = false })
  work :
      (i : ℕ) {p : Pool (Unit {0})} {w : Worker (Unit {0})}
      → i < n
      → (mv : Move count_task h.executor.pool (h.executor.workers i) p w)
      → Step queue n interval h (worked h i mv)
  -- `submitter.submit(…)`, a step of the executor that takes one more task.
  submit :
      {i : ℕ} {z : Executor.System count_task}
      → h.load ≡ loading i
      → goes_on interval h.running i ≡ some true
      → Executor.Step count_task queue n h.executor z
      → z.pool.submitted ≡ 1 + h.executor.pool.submitted
      → Step queue n interval h (record h { executor = z; load = loading (i + 1) })
  finish :
      {i : ℕ}
      → h.load ≡ loading i
      → goes_on interval h.running i ≡ some false
      → Step queue n interval h (record h { load = returned i })
  fail :
      {i : ℕ}
      → h.load ≡ loading i
      → goes_on interval h.running i ≡ none
      → Step queue n interval h (record h { load = panicked i })

unfoldable pub init : Harness
unfolding Executor.init
init = record {
  executor = Executor.init count_task;
  running = true;
  completed_tasks = 0;
  load = loading 0;
}

pub data Reach (queue : Queue) (n interval : ℕ) : Harness → Type 0 where
  start : Reach queue n interval init
  later :
      {y z : Harness}
      → Reach queue n interval y
      → Step queue n interval y z
      → Reach queue n interval z

-- Steps of the workers alone, `j` of them.
pub data Works (n : ℕ) (h : Harness) : ℕ → Harness → Type 0 where
  none_yet : Works n h 0 h
  more :
      {j : ℕ} {y : Harness} (i : ℕ) {p : Pool (Unit {0})} {w : Worker (Unit {0})}
      → Works n h j y
      → i < n
      → (mv : Move count_task y.executor.pool (y.executor.workers i) p w)
      → Works n h (j + 1) (worked y i mv)
