-- ===== src/SpinMutex.antt =====
-- anode/src/spin_mutex.rs: a lock flag with the data that it protects, and threads that use it
-- through `lock`, `try_lock` and guards. Each access to the flag is one step. The public `unlock`
-- is called by the drop of a guard only.
pub mod Exclusion
use libmutex.Prelude.{ℕ, ◌<◌, ◌≡◌, Bool, true, false, some, if◌then◌else◌, place}
use libmutex.Backoff.{ExpBackoff, ExpBackoffIter, ExpBackoffAction, sleepy, into_inf_iter, next}

pub record SpinMutex (T : Type 0) : Type 0 where
  pub locked : Bool
  pub content : T

unfoldable pub new : {T : Type 0} → T → SpinMutex T
new t = record { locked = false; content = t }

-- `try_lock`: has the exchange succeeded, and the mutex after it.
unfoldable pub try_lock : {T : Type 0} → SpinMutex T → Bool × SpinMutex T
try_lock m = if m.locked then (false, m) else (true, record m { locked = true })

unfoldable pub unlock : {T : Type 0} → SpinMutex T → SpinMutex T
unlock m = record m { locked = false }

pub data Phase : Type 0 where
  outside : Phase
  -- In `lock`, about to call `try_lock`.
  locking : Phase
  -- In the inner loop of `lock`, about to load the flag.
  spinning : ExpBackoffIter → Phase
  -- In a call of `try_lock` from outside.
  trying : Phase
  -- With a `SpinGuard`.
  holding : Phase

pub record System (T : Type 0) : Type 0 where
  pub mutex : SpinMutex T
  pub threads : ℕ → Phase

module _ {T : Type 0} where
  -- One step of one thread.
  pub data Move (m : SpinMutex T) : Phase → SpinMutex T → Phase → Type 0 where
    call_lock : Move m outside m locking
    acquire : {m' : SpinMutex T} → try_lock m ≡ (true, m') → Move m locking m' holding
    contend :
        {m' : SpinMutex T} {b : ExpBackoff}
        → try_lock m ≡ (false, m')
        → sleepy ≡ some b
        → Move m locking m' (spinning (into_inf_iter b))
    spin :
        {backoff backoff' : ExpBackoffIter} {action : ExpBackoffAction}
        → m.locked ≡ true
        → next backoff ≡ some (action, backoff')
        → Move m (spinning backoff) m (spinning backoff')
    retry : {backoff : ExpBackoffIter} → m.locked ≡ false → Move m (spinning backoff) m locking
    call_try_lock : Move m outside m trying
    tried :
        {m' : SpinMutex T} {is_ok : Bool}
        → try_lock m ≡ (is_ok, m')
        → Move m trying m' (if is_ok then holding else outside)
    -- A write through `deref_mut`.
    write : (t : T) → Move m holding (record m { content = t }) holding
    drop : Move m holding (unlock m) outside

  pub data Step (n : ℕ) (z : System T) : System T → Type 0 where
    pick :
        (i : ℕ) {m : SpinMutex T} {p : Phase}
        → i < n
        → Move z.mutex (z.threads i) m p
        → Step n z (record { mutex = m; threads = place i p z.threads })

  -- A new mutex, shared by threads that hold no guard.
  unfoldable pub init : T → System T
  unfolding new
  init t = record { mutex = new t; threads = λ _. outside }

  pub data Reach (n : ℕ) (t : T) : System T → Type 0 where
    start : Reach n t (init t)
    later : {y z : System T} → Reach n t y → Step n y z → Reach n t z
