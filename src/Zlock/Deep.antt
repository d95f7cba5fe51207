-- ===== src/Zlock/Deep.antt =====
-- anode/src/zlock.rs over anode/src/monitor.rs: threads that use one lock, down to the single
-- accesses to the spin lock, the mutex and the condition variable of its monitor. Each operation
-- is a chain of calls of `enter` (Monitor/Machine) with the closures of the moderator.
pub mod Calls
pub mod Safety
pub mod Simulation
use libmutex.Prelude.{ℕ, ◌<◌, ◌≡◌, Bool, false, none, place}
use libmutex.Monitor.{Directive}
use libmutex.Monitor.Machine as Machine
use libmutex.Monitor.Machine.{Pc, outside, contending}
use libmutex.Monitor.Refinement.{View, away, entering, evaluated, locked, view}
use libmutex.Zlock.Moderator.{Kind, again, done, Moderator}
use libmutex.Zlock.System.{Status, idle, source, outcome}
use libmutex.Zlock.System as System

module _ {L : Type 0} where
  -- What the thread is doing, as its caller sees it: inside `enter` by the view of the machine,
  -- else by what it keeps.
  abbrev pub status_of : View L → Status L → Status L
  status_of away kept = kept
  status_of (entering l) kept = Status.entering l
  status_of (evaluated l d) kept = Status.evaluated l d
  status_of locked kept = kept

  -- A thread that returns from `enter` keeps the variables of its closure.
  abbrev pub carry : View L → View L → Status L → Status L
  carry away v' kept = kept
  carry (entering _) v' kept = kept
  carry (evaluated l d) away kept = Status.evaluated l d
  carry (evaluated l d) (entering _) kept = kept
  carry (evaluated l d) (evaluated _ _) kept = kept
  carry (evaluated l d) locked kept = kept
  carry locked v' kept = kept

module _ (m : Moderator) where
  open m use {Local, begin, eval, exit}

  pub record Deep : Type 0 where
    pub machine : Machine.System eval
    pub kept : ℕ → Status Local

  -- Thread `i` calls `enter` with the closure whose variables are `l`.
  abbrev pub entered : ℕ → Local → Machine.System eval → Machine.System eval
  entered i l y = record y {
    threads = place i (contending (record { locals = l; last = none }) false false) y.threads;
  }

  pub data DeepStep (n : ℕ) (y : Deep) : Deep → Type 0 where
    -- A step inside the monitor, by which no thread calls `enter`. The moderators do not call
    -- `lock`; `alter`, which one of them calls, is an `enter` whose closure returns `Return`.
    inside :
        {z : Machine.System eval}
        → Machine.Step eval n y.machine z
        → ((j : ℕ) → view (y.machine.threads j) ≡ away → view (z.threads j) ≡ away)
        → DeepStep n y (record {
          machine = z;
          kept = λ j. carry (view (y.machine.threads j)) (view (z.threads j)) (y.kept j);
        })
    -- An operation of the lock begins.
    call :
        (i : ℕ) (k : Kind) (d : ℕ)
        → i < n
        → y.machine.threads i ≡ outside
        → y.kept i ≡ source k
        → DeepStep n y (record y { machine = entered i (begin k d) y.machine })
    -- It calls `enter` once more.
    continue :
        (i : ℕ) {l l' : Local} {d : Directive}
        → i < n
        → y.machine.threads i ≡ outside
        → y.kept i ≡ Status.evaluated l d
        → exit l ≡ again l'
        → DeepStep n y (record y { machine = entered i l' y.machine })
    -- It returns its guard, or nothing.
    finish :
        (i : ℕ) {l : Local} {d : Directive} {b : Bool}
        → i < n
        → y.machine.threads i ≡ outside
        → y.kept i ≡ Status.evaluated l d
        → exit l ≡ done b
        → DeepStep n y (record y { kept = place i (outcome (m.kind l) b) y.kept })

  -- A new lock, shared by threads that hold no guard.
  unfoldable pub deep_init : Deep
  deep_init = record { machine = Machine.init eval m.new; kept = λ _. idle }

  pub data DeepReach (n : ℕ) : Deep → Type 0 where
    start : DeepReach n deep_init
    later : {y z : Deep} → DeepReach n y → DeepStep n y z → DeepReach n z

  -- What thread `i` is doing.
  abbrev pub status : Deep → ℕ → Status Local
  status y i = status_of (view (y.machine.threads i)) (y.kept i)
