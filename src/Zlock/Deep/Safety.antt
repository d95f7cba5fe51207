-- ===== src/Zlock/Deep/Safety.antt =====
-- anode/src/zlock.rs over anode/src/monitor.rs: the lock and its monitor together, for threads that
-- interleave at every access to the spin lock, the mutex and the condition variable.
use libmutex.Prelude.{ℕ, ◌+◌, ◌<◌, ◌^◌, ◌≡◌, ◌≢◌, Bool, true, Option, none, some, sym, ◌∙◌}
use libmutex.Monitor.{Directive}
use libmutex.Monitor.Machine.{Frame, inside}
use libmutex.Monitor.Refinement.{view_frame, repeatable, Reach-IsSound}
use libmutex.Monitor.Safety.{critical, critical-ne-none}
use libmutex.Monitor.Progress.{is_working, Ready, no_deadlock}
use libmutex.Zlock.System.{Status, reader, writer}
use libmutex.Zlock.System.Safety.{Evaluating, at_first, at_repeat}
use libmutex.Zlock.Implementation.{moderator, Monitored, implementation}
use libmutex.Zlock.Exclusion.{HasTickets, exclusion, never_panics}
use libmutex.Zlock.Deep.{Deep, DeepReach, status, status_of}
use libmutex.Zlock.Deep.Calls.{deep-Reach}
use libmutex.Zlock.Deep.Simulation.{deep-Simulates}

frame-Evaluating :
    {L : Type 0} (l : L) (last : Option Directive) (r : Status L)
    → repeatable last ≡ true
    → Evaluating l (status_of (view_frame l last) r)
frame-Evaluating l none r h = at_first
frame-Evaluating l (some d) r h = at_repeat h

-- Under each moderator that uses the monitor, however threads interleave at the accesses to its
-- locks, while one thread holds a write guard no other holds a write guard or a read guard.
pub deep_exclusion :
    (cutoff : ℕ → ℕ) (k : Monitored) {n : ℕ} {y : Deep (moderator cutoff (implementation k))}
    → DeepReach (moderator cutoff (implementation k)) n y
    → (i j : ℕ) → i < n
    → j < n
    → i ≢ j
    → status (moderator cutoff (implementation k)) y i ≡ writer
    → (status (moderator cutoff (implementation k)) y j ≢ writer)
      × (status (moderator cutoff (implementation k)) y j ≢ reader)
deep_exclusion cutoff k {y = y} reach i j lt_i lt_j ne e =
    let m = moderator cutoff (implementation k) in
    let sim = deep-Simulates m reach in
    let (w, r) =
      exclusion cutoff (implementation k) sim.reached i j lt_i lt_j ne (sim.same_threads i ∙ e) in
    ((λ q. w (sim.same_threads j ∙ q)), λ q. r (sim.same_threads j ∙ q))

-- A closure that a thread is about to evaluate under the spin lock does not panic.
deep_alive :
    (cutoff : ℕ → ℕ) (k : Monitored) {n : ℕ} {y : Deep (moderator cutoff (implementation k))}
    → DeepReach (moderator cutoff (implementation k)) n y
    → n + 1 < 2 ^ 32
    → HasTickets cutoff (implementation k) y.machine.shared.state
    → (t u i : ℕ) (c : Frame (moderator cutoff (implementation k)).Local) (guard woken : Bool)
    → i < n
    → y.machine.threads i ≡ inside c guard woken
    → (moderator cutoff (implementation k)).eval t u c.locals y.machine.shared.state ≢ none
deep_alive cutoff k {n} {y} reach small tickets t u i c guard woken lt e =
    let m = moderator cutoff (implementation k) in
    let sim = deep-Simulates m reach in
    let sound : repeatable c.last ≡ true = rw e at (Reach-IsSound m.eval (deep-Reach m reach) i) in
    let evaluating : Evaluating c.locals (sim.system.threads i) =
      rw (sim.same_threads i, e) (frame-Evaluating c.locals c.last (y.kept i) sound) in
    rw (sym sim.same_state) (
      never_panics cutoff (implementation k) sim.reached small (rw sim.same_state tickets) t u i lt
        evaluating)

-- Under each moderator that uses the monitor, with fewer than `2 ^ 32 - 1` threads, and as long as
-- the next ticket number of the arrival-ordered one is below `2 ^ 64 - 1`, a thread that holds the
-- spin lock in `enter` gets through its critical section, be it a round of the loop or the end of a
-- wait that has timed out: neither the closure of the moderator nor the count of waiting threads
-- panics.
pub deep_never_panics :
    (cutoff : ℕ → ℕ) (k : Monitored) {n : ℕ} {y : Deep (moderator cutoff (implementation k))}
    → DeepReach (moderator cutoff (implementation k)) n y
    → n + 1 < 2 ^ 32
    → HasTickets cutoff (implementation k) y.machine.shared.state
    → (t u i : ℕ) → i < n
    → critical (moderator cutoff (implementation k)).eval t u y.machine.shared (y.machine.threads i)
      ≢ none
deep_never_panics cutoff k reach small tickets t u i lt =
    let m = moderator cutoff (implementation k) in
    critical-ne-none m.eval (deep-Reach m reach) t u i lt small
      (λ c guard woken e. deep_alive cutoff k reach small tickets t u i c guard woken lt e)

-- No deadlock: under each moderator that uses the monitor, with fewer than `2 ^ 32 - 1` threads, and
-- as long as the next ticket number of the arrival-ordered one is below `2 ^ 64 - 1`, where a thread
-- is in an operation of the lock and not waiting for a notification, one such thread can make its
-- next access to the locks of the monitor at once.
pub deep_no_deadlock :
    (cutoff : ℕ → ℕ) (k : Monitored) {n : ℕ} {y : Deep (moderator cutoff (implementation k))}
    → DeepReach (moderator cutoff (implementation k)) n y
    → n + 1 < 2 ^ 32
    → HasTickets cutoff (implementation k) y.machine.shared.state
    → (i : ℕ) → i < n
    → is_working (y.machine.threads i) ≡ true
    → (j : ℕ) × (j < n)
      × (is_working (y.machine.threads j) ≡ true)
      × Ready (moderator cutoff (implementation k)).eval y.machine.shared (y.machine.threads j)
deep_no_deadlock cutoff k reach small tickets i lt w =
    let m = moderator cutoff (implementation k) in
    no_deadlock m.eval (deep-Reach m reach) small (deep_alive cutoff k reach small tickets 0 0) i lt
      w
