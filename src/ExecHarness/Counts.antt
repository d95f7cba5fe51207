-- ===== src/ExecHarness/Counts.antt =====
-- anode-bench/src/exec_harness.rs: the tasks that have been counted, and those that still will be.
use libmutex.Prelude.{
  ℕ, length, length-append, ◌+◌, ◌-◌, ◌<◌, ◌≡◌, refl, arith, true, none, some, [], ◌∷◌, place-all,
  total, total-place, weight-le-total, total-zero, ap, sym,
}
use libmutex.Executor.{
  Queue, Worker, waiting, receiving, received, fetched, executing, completing, ended, died, Pool,
  Move, lock, recv, disconnected, take, end, load, give_up, succeed, panic, complete,
}
use libmutex.Executor as Executor
use libmutex.Executor.Tasks.{flag, Move-submitted}
use libmutex.ExecHarness.{
  count_task, runs, loading, iterations, Harness, worked, Step, stop, work, submit, finish, fail,
  init, Reach, start, later,
}

-- A worker that has a task and has not run it.
abbrev pub pending : Worker (Unit {0}) → ℕ
pending (received (some _)) = 1
pending (fetched _) = 1
pending (executing _ _) = 1
pending _ = 0

-- A worker that has the receiver.
abbrev pub has_receiver : Worker (Unit {0}) → ℕ
has_receiver receiving = 1
has_receiver (received _) = 1
has_receiver _ = 0

-- The pool is not dropped while the harness runs, and no task panics.
abbrev pub IsActive : Worker (Unit {0}) → Type 0
IsActive (received none) = ⊥
IsActive (executing _ running) = running ≡ true
IsActive ended = ⊥
IsActive (died _) = ⊥
IsActive _ = Unit

pub record Kept (p : Pool (Unit {0})) : Type 0 where
  pub running : p.running ≡ true
  pub connected : p.connected ≡ true

-- What a step of a worker keeps; `others` are the workers that have the receiver beside it.
record Keeps (p : Pool (Unit {0})) (w : Worker (Unit {0})) (p' : Pool (Unit {0}))
    (w' : Worker (Unit {0})) (ran others : ℕ) : Type 0 where
  pub kept : Kept p'
  pub active : IsActive w'
  pub counted : ran + length p'.tasks + pending w' ≡ length p.tasks + pending w
  pub locked : flag p'.receiver_locked ≡ others + has_receiver w'

Move-Keeps :
    {p p' : Pool (Unit {0})} {w w' : Worker (Unit {0})} (others : ℕ)
    (mv : Move count_task p w p' w')
    → Kept p
    → IsActive w
    → flag p.receiver_locked ≡ others + has_receiver w
    → Keeps p w p' w' (runs mv) others
Move-Keeps others (lock e) k a l = record {
  kept = record { running = k.running; connected = k.connected };
  active = tt;
  counted = omega arith;
  locked = ground arith;
}
Move-Keeps others (recv e) k a l = record {
  kept = record { running = k.running; connected = k.connected };
  active = tt;
  counted = rw e (omega arith);
  locked = ground arith;
}
Move-Keeps others (disconnected e c) k a l = absurd cc (c, k.connected)
Move-Keeps others take k a l = record {
  kept = record { running = k.running; connected = k.connected };
  active = tt;
  counted = omega arith;
  locked = ground arith;
}
Move-Keeps others end k a l = absurd a
Move-Keeps others load k a l = record {
  kept = k;
  active = k.running;
  counted = omega arith;
  locked = l;
}
Move-Keeps others give_up k a l = absurd cc
Move-Keeps others (succeed e) k a l = record {
  kept = k;
  active = tt;
  counted = omega arith;
  locked = l;
}
Move-Keeps others (panic e) k a l = absurd cc
Move-Keeps others complete k a l = record {
  kept = record { running = k.running; connected = k.connected };
  active = tt;
  counted = omega arith;
  locked = l;
}

-- What holds of the harness at any time.
pub record Inv (n : ℕ) (h : Harness) : Type 0 where
  pub kept : Kept h.executor.pool
  pub active : (i : ℕ) → IsActive (h.executor.workers i)
  pub counted :
      h.completed_tasks + length h.executor.pool.tasks + total pending n h.executor.workers
      ≡ h.executor.pool.submitted
  pub loaded : iterations h.load ≡ h.executor.pool.submitted
  pub locked : flag h.executor.pool.receiver_locked ≡ total has_receiver n h.executor.workers

pub worked-Inv :
    {n : ℕ} {h : Harness} (i : ℕ) {p : Pool (Unit {0})} {w : Worker (Unit {0})}
    → i < n
    → (mv : Move count_task h.executor.pool (h.executor.workers i) p w) → Inv n h
    → Inv n (worked h i mv)
worked-Inv {n} {h} i {p} {w} lt mv inv =
    let ws = h.executor.workers in
    let holders = weight-le-total has_receiver n i ws lt in
    let keeps =
      Move-Keeps (total has_receiver n ws - has_receiver (ws i)) mv inv.kept (inv.active i)
        (omega (arith, inv.locked)) in
    record {
      kept = keeps.kept;
      active = place-all IsActive ws i w keeps.active inv.active;
      counted = omega (
        arith,
        Move-submitted count_task mv,
        inv.counted,
        keeps.counted,
        total-place pending n i w ws lt,
      );
      loaded = omega (arith, Move-submitted count_task mv, inv.loaded);
      locked = omega (arith, keeps.locked, inv.locked, total-place has_receiver n i w ws lt);
    }

submit-Inv :
    {q : Queue} {n i : ℕ} {h : Harness} {z : Executor.System count_task}
    → Executor.Step count_task q n h.executor z
    → z.pool.submitted ≡ 1 + h.executor.pool.submitted
    → h.load ≡ loading i
    → Inv n h
    → Inv n (record h { executor = z; load = loading (i + 1) })
submit-Inv {i = i} {h = h} (Executor.submit _ _ _ _ _) s e inv =
    let more = length-append h.executor.pool.tasks (h.executor.pool.submitted ∷ []) in
    let load : iterations h.load ≡ i = ap iterations e in
    record {
      kept = record { running = inv.kept.running; connected = inv.kept.connected };
      active = inv.active;
      counted = omega (arith, inv.counted, more);
      loaded = omega (arith, inv.loaded, load);
      locked = inv.locked;
    }
submit-Inv {n = n} {i = i} {h = h} (Executor.hand_over k lt _ idle _) s e inv =
    let ws = h.executor.workers in
    let w : Worker (Unit {0}) = received (some h.executor.pool.submitted) in
    let load : iterations h.load ≡ i = ap iterations e in
    let empty : pending (ws k) ≡ 0 = ap pending idle in
    let holder : has_receiver (ws k) ≡ 1 = ap has_receiver idle in
    record {
      kept = record { running = inv.kept.running; connected = inv.kept.connected };
      active = place-all IsActive ws k w tt inv.active;
      counted = omega (arith, inv.counted, empty, total-place pending n k w ws lt);
      loaded = omega (arith, inv.loaded, load);
      locked = omega (arith, inv.locked, holder, total-place has_receiver n k w ws lt);
    }
submit-Inv Executor.stop s e inv = absurd (omega arith)
submit-Inv Executor.disconnect s e inv = absurd (omega arith)
submit-Inv (Executor.drop_receiver _) s e inv = absurd (omega arith)
submit-Inv (Executor.work _ _ mv) s e inv = absurd (omega (arith, Move-submitted count_task mv))

Step-Inv : {q : Queue} {n c : ℕ} {y z : Harness} → Step q n c y z → Inv n y → Inv n z
Step-Inv stop inv = record {
  kept = inv.kept;
  active = inv.active;
  counted = inv.counted;
  loaded = inv.loaded;
  locked = inv.locked;
}
Step-Inv (work i lt mv) inv = worked-Inv i lt mv inv
Step-Inv (submit e _ st s) inv = submit-Inv st s e inv
Step-Inv (finish e _) inv = record {
  kept = inv.kept;
  active = inv.active;
  counted = inv.counted;
  loaded = omega (arith, inv.loaded, ap iterations e);
  locked = inv.locked;
}
Step-Inv (fail e _) inv = record {
  kept = inv.kept;
  active = inv.active;
  counted = inv.counted;
  loaded = omega (arith, inv.loaded, ap iterations e);
  locked = inv.locked;
}

pub Reach-Inv : {q : Queue} {n c : ℕ} {h : Harness} → Reach q n c h → Inv n h
unfolding init Executor.init
Reach-Inv {n = n} start = record {
  kept = record { running = refl; connected = refl };
  active = λ _. tt;
  counted = omega (arith, total-zero pending n (λ _. waiting) (λ _. refl));
  loaded = refl;
  locked = sym (total-zero has_receiver n (λ _. waiting) (λ _. refl));
}
Reach-Inv (later r st) = Step-Inv st (Reach-Inv r)
