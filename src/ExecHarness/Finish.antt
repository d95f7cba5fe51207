-- ===== src/ExecHarness/Finish.antt =====
-- anode-bench/src/exec_harness.rs: `run` waits until the workers have executed all tasks.
use libmutex.Prelude.{
  ℕ, length, zero, suc, ap, ◌+◌, ◌*◌, ◌<◌, ◌≤◌, ◌≡◌, refl, arith, Bool, true, false, none, some,
  List, [], ◌∷◌, ◌⊎◌, inl, inr, dec_lt, total, total-place, total-positive,
}
use libmutex.Executor.{
  Queue, Worker, waiting, receiving, received, fetched, executing, completing, ended, died, Pool,
  Move, lock, recv, disconnected, take, end, load, give_up, succeed, panic, complete,
}
use libmutex.Executor.Tasks.{flag}
use libmutex.ExecHarness.{count_task, iterations, Harness, Reach, Works, none_yet, more}
use libmutex.ExecHarness.Counts.{pending, has_receiver, IsActive, Kept, Inv, worked-Inv, Reach-Inv}

-- How many steps a worker still takes before it waits for a task.
abbrev weight : Worker (Unit {0}) → ℕ
weight waiting = 1
weight receiving = 0
weight (received (some _)) = 5
weight (fetched _) = 4
weight (executing _ _) = 3
weight (completing _ _) = 2
weight _ = 0

abbrev measure : ℕ → Harness → ℕ
measure n h = 6 * length h.executor.pool.tasks + total weight n h.executor.workers

Move-weight :
    {p p' : Pool (Unit {0})} {w w' : Worker (Unit {0})}
    → Move count_task p w p' w'
    → Kept p
    → IsActive w
    → 6 * length p'.tasks + weight w' + 1 ≡ 6 * length p.tasks + weight w
Move-weight (lock _) k a = omega arith
Move-weight (recv e) k a = rw e (omega arith)
Move-weight (disconnected e c) k a = absurd cc (c, k.connected)
Move-weight take k a = omega arith
Move-weight end k a = absurd a
Move-weight load k a = omega arith
Move-weight give_up k a = omega arith
Move-weight (succeed _) k a = omega arith
Move-weight (panic e) k a = absurd cc
Move-weight complete k a = omega arith

weights-le :
    (n : ℕ) (ws : ℕ → Worker (Unit {0})) → total weight n ws ≤ 5 * total pending n ws + 2 * n
unfolding total
weights-le zero ws = omega arith
weights-le (suc n) ws = omega (arith, weights-le n ws, weight-le (ws n))
  where
    weight-le : (w : Worker (Unit {0})) → weight w ≤ 5 * pending w + 2
    weight-le waiting = omega arith
    weight-le receiving = omega arith
    weight-le (received none) = omega arith
    weight-le (received (some _)) = omega arith
    weight-le (fetched _) = omega arith
    weight-le (executing _ _) = omega arith
    weight-le (completing _ _) = omega arith
    weight-le ended = omega arith
    weight-le (died _) = omega arith

-- What the workers keep while they execute tasks.
Works-Inv :
    {n : ℕ} {h : Harness} {j : ℕ} {h' : Harness}
    → Works n h j h'
    → Inv n h
    → Inv n h' × (j + measure n h' ≡ measure n h) × (iterations h'.load ≡ iterations h.load)
Works-Inv none_yet inv = (inv, omega arith, refl)
Works-Inv {n} (more {y = y} i {p} {w} ws lt mv) inv =
    let (later, steps, same) = Works-Inv ws inv in
    (
      worked-Inv i lt mv later,
      omega (
        arith,
        steps,
        Move-weight mv later.kept (later.active i),
        total-place weight n i w y.executor.workers lt,
      ),
      same,
    )

-- Some worker can take a step.
pub data CanMove (n : ℕ) (h : Harness) : Type 0 where
  moves :
      (i : ℕ) {p : Pool (Unit {0})} {w : Worker (Unit {0})}
      → i < n
      → Move count_task h.executor.pool (h.executor.workers i) p w
      → CanMove n h

data Moves (p : Pool (Unit {0})) (w : Worker (Unit {0})) : Type 0 where
  moves_to : {p' : Pool (Unit {0})} {w' : Worker (Unit {0})} → Move count_task p w p' w' → Moves p w

pending-Moves :
    (p : Pool (Unit {0})) (w : Worker (Unit {0})) → IsActive w → 0 < pending w → Moves p w
pending-Moves p (received (some _)) a h = moves_to take
pending-Moves p (fetched _) a h = moves_to load
pending-Moves p (executing _ true) a h = moves_to (succeed refl)
pending-Moves p (executing _ false) a h = absurd cc
pending-Moves p waiting a h = absurd (omega arith)
pending-Moves p receiving a h = absurd (omega arith)
pending-Moves p (received none) a h = absurd a
pending-Moves p (completing _ _) a h = absurd (omega arith)
pending-Moves p ended a h = absurd a
pending-Moves p (died _) a h = absurd a

receiver-Moves :
    {k : ℕ} {rest : List ℕ} (p : Pool (Unit {0})) (w : Worker (Unit {0}))
    → IsActive w
    → p.tasks ≡ k ∷ rest
    → (p.receiver_locked ≡ false) ⊎ (0 < has_receiver w)
    → Moves p w
receiver-Moves p waiting a e (inl free) = moves_to (lock free)
receiver-Moves p waiting a e (inr h) = absurd (omega arith)
receiver-Moves p receiving a e _ = moves_to (recv e)
receiver-Moves p (received (some _)) a e _ = moves_to take
receiver-Moves p (received none) a e _ = absurd a
receiver-Moves p (fetched _) a e _ = moves_to load
receiver-Moves p (executing _ true) a e _ = moves_to (succeed refl)
receiver-Moves p (executing _ false) a e _ = absurd cc
receiver-Moves p (completing _ _) a e _ = moves_to complete
receiver-Moves p ended a e _ = absurd a
receiver-Moves p (died _) a e _ = absurd a

at_worker :
    {n : ℕ} {h : Harness} (i : ℕ)
    → i < n
    → Moves h.executor.pool (h.executor.workers i)
    → CanMove n h
at_worker i lt (moves_to mv) = moves i lt mv

queue-CanMove :
    {n k : ℕ} {rest : List ℕ} (h : Harness)
    → Inv n h
    → 0 < n
    → h.executor.pool.tasks ≡ k ∷ rest
    → (b : Bool) → h.executor.pool.receiver_locked ≡ b
    → CanMove n h
queue-CanMove h inv pos e false free =
    at_worker 0 pos
      (receiver-Moves h.executor.pool (h.executor.workers 0) (inv.active 0) e (inl free))
queue-CanMove {n} h inv pos e true held =
    let (i, lt, holder) =
      total-positive has_receiver n h.executor.workers (omega (arith, inv.locked, ap flag held)) in
    at_worker i lt
      (receiver-Moves h.executor.pool (h.executor.workers i) (inv.active i) e (inr holder))

tasks-CanMove :
    {n : ℕ} (h : Harness)
    → Inv n h
    → 0 < n
    → (ts : List ℕ) → h.executor.pool.tasks ≡ ts
    → 0 < length ts
    → CanMove n h
tasks-CanMove h inv pos [] e some_left = absurd (omega arith)
tasks-CanMove h inv pos (_ ∷ _) e some_left =
    queue-CanMove h inv pos e h.executor.pool.receiver_locked refl

unfinished-CanMove :
    {n : ℕ} (h : Harness) → Inv n h → 0 < n → h.completed_tasks < iterations h.load → CanMove n h
unfinished-CanMove {n} h inv pos less = elim (dec_lt 0 (total pending n h.executor.workers)) [
  | yes some_pending ↦
      let (i, lt, has_task) = total-positive pending n h.executor.workers some_pending in
      at_worker i lt (pending-Moves h.executor.pool (h.executor.workers i) (inv.active i) has_task)
  | no all_idle ↦
      tasks-CanMove h inv pos h.executor.pool.tasks refl (omega (arith, inv.counted, inv.loaded))
]

-- From a reachable state of the harness, on a pool with at least one worker, the workers alone take
-- at most `6 * iterations + 2 * n` steps. After any number of them no more tasks are counted than
-- the load thread has submitted, and either all of them are, which is what `run` waits
-- for, or some worker can take one more step.
pub workers_finish :
    {queue : Queue} {n interval j : ℕ} {h h' : Harness}
    → Reach queue n interval h
    → 0 < n
    → Works n h j h'
    → (j ≤ 6 * iterations h.load + 2 * n)
      × (h'.completed_tasks ≤ iterations h.load)
      × ((h'.completed_tasks ≡ iterations h.load) ⊎ CanMove n h')
workers_finish {n = n} {h = h} {h' = h'} r pos ws =
    let inv = Reach-Inv r in
    let (last, steps, same) = Works-Inv ws inv in
    (
      omega (arith, steps, weights-le n h.executor.workers, inv.counted, inv.loaded),
      omega (arith, last.counted, last.loaded, same),
      elim (dec_lt h'.completed_tasks (iterations h.load)) [
        | yes less ↦ inr (unfinished-CanMove h' last pos (omega (arith, same)))
        | no done ↦ inl (omega (arith, last.counted, last.loaded, same))
      ],
    )
