-- ===== src/Zlock/System.antt =====
-- anode/src/zlock.rs: `n` threads that share one `ZLock`. A thread holds a guard or is inside an
-- operation of the moderator; evaluations of closures interleave in any order. The monitor makes
-- one evaluation atomic (Monitor/Refinement); whether it returns or goes round after a directive
-- that allows both is left open, which covers every schedule, wake-up and time-out.
pub mod Counts
pub mod Invariant
pub mod Safety
use libmutex.Prelude.{ℕ, zero, suc, ◌<◌, ◌≡◌, refl, Bool, true, false, Option, none, some, place}
use libmutex.Monitor.{Directive, Turn, may_repeat, may_finish}
use libmutex.Zlock.Moderator.{
  Kind, try_read, read_unlock, try_write, write_unlock, downgrade, try_upgrade, Exit, again, done,
  Moderator,
}

-- What a thread is doing. A live `LockReadGuard` is `reader`, a live `LockWriteGuard` `writer`.
pub data Status (L : Type 0) : Type 0 where
  idle : Status L
  reader : Status L
  writer : Status L
  -- `enter` has been called, and its closure not yet evaluated.
  entering : L → Status L
  -- The closure has been evaluated, and has returned the directive.
  evaluated : L → Directive → Status L

-- The guard that an operation of `ZLock` takes: none, or the one that is dropped, downgraded or
-- upgraded, whose `locked` is cleared so that its own `drop` does nothing.
abbrev pub source : {L : Type 0} → Kind → Status L
source try_read = idle
source read_unlock = reader
source try_write = idle
source write_unlock = writer
source downgrade = writer
source try_upgrade = reader

-- The guard that it returns, given the moderator's answer.
abbrev pub outcome : {L : Type 0} → Kind → Bool → Status L
outcome try_read true = reader
outcome try_read false = idle
outcome read_unlock _ = idle
outcome try_write true = writer
outcome try_write false = idle
outcome write_unlock _ = idle
outcome downgrade _ = reader
outcome try_upgrade true = writer
outcome try_upgrade false = reader

module _ (m : Moderator) where
  open m use {State, Local, new, begin, eval, exit, kind}

  -- One step of one thread, on the state that all threads share.
  pub data Move (s : State) : Status Local → State → Status Local → Type 0 where
    call : (k : Kind) (d : ℕ) → Move s (source k) s (entering (begin k d))
    first :
        (t u : ℕ) {l : Local} {r : Turn Local State}
        → eval t u l s ≡ some r
        → Move s (entering l) r.state (evaluated r.locals r.directive)
    repeat :
        (t u : ℕ) {l : Local} {d : Directive} {r : Turn Local State}
        → may_repeat d ≡ true
        → eval t u l s ≡ some r
        → Move s (evaluated l d) r.state (evaluated r.locals r.directive)
    continue :
        {l l' : Local} {d : Directive}
        → may_finish d ≡ true
        → exit l ≡ again l'
        → Move s (evaluated l d) s (entering l')
    finish :
        {l : Local} {d : Directive} {b : Bool}
        → may_finish d ≡ true
        → exit l ≡ done b
        → Move s (evaluated l d) s (outcome (kind l) b)

  pub record System : Type 0 where
    pub state : State
    pub threads : ℕ → Status Local

  pub data Step (n : ℕ) (z : System) : System → Type 0 where
    pick :
        (i : ℕ) {s : State} {p : Status Local}
        → i < n
        → Move z.state (z.threads i) s p
        → Step n z (record { state = s; threads = place i p z.threads })

  -- `ZLock::new`, shared by threads that hold no guard.
  unfoldable pub init : System
  init = record { state = new; threads = λ _. idle }

  pub data Reach (n : ℕ) : System → Type 0 where
    start : Reach n init
    later : {y z : System} → Reach n y → Step n y z → Reach n z
