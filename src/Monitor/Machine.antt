-- ===== src/Monitor/Machine.antt =====
-- anode/src/monitor.rs: threads that use a `SpeculativeMonitor`, one access to a lock at a time.
-- `f` is the closure. The critical section under the spin lock is one step, `round`, taken by the
-- thread that holds the lock. A thread may leave the condition variable without a notification.
use libmutex.Prelude.{
  ℕ, ◌<◌, ◌≡◌, ◌≢◌, Bool, true, false, not, ◌&&◌, Option, none, some, ltb, place, if◌then◌else◌,
  checked_inc, checked_dec, ◌>>=◌,
}
use libmutex.Time.{duration_max, is_zero}
use libmutex.Monitor.Defs.{Directive, return, wait, notify_one, notify_all, Turn}

-- The captured variables of the closure. `last` is no variable of the code: it is the directive
-- of the last evaluation in this call of `enter`, `none` before the first one.
pub record Frame (L : Type 0) : Type 0 where
  pub locals : L
  pub last : Option Directive

-- Where a thread stands. `guard` tells whether `mutex_guard` holds the mutex, `woken` is the
-- variable of that name.
pub data Pc (L : Type 0) : Type 0 where
  outside : Pc L
  -- At the head of the loop, before `self.tracker.lock()` has succeeded, and after.
  contending : (c : Frame L) (guard woken : Bool) → Pc L
  inside : (c : Frame L) (guard woken : Bool) → Pc L
  -- Before `self.mutex.lock()` has succeeded.
  locking : (c : Frame L) → Pc L
  -- Counted in `waiting`, before the wait on `self.cond`, and in it.
  about_to_wait : (c : Frame L) (duration : ℕ) → Pc L
  parked : (c : Frame L) (duration : ℕ) → Pc L
  -- Before the mutex has been taken again after the wait.
  resuming : (c : Frame L) (timed_out : Bool) → Pc L
  -- After a time-out: before the spin lock has been taken, and with it.
  expired : (c : Frame L) → Pc L
  expiring : (c : Frame L) → Pc L
  -- Before `drop(guard)`, and between it and the notification.
  releasing : (c : Frame L) (everyone : Bool) → Pc L
  signalling : (c : Frame L) (everyone : Bool) → Pc L
  -- At the end of the function, where `mutex_guard` is dropped.
  leaving : (c : Frame L) (guard : Bool) → Pc L
  -- In `lock`, before `self.tracker.lock()` has succeeded, and with a live guard.
  requesting : Pc L
  owning : Pc L

-- The monitor: the spin lock with its `Tracker`, and whether the mutex is held.
pub record Shared (S : Type 0) : Type 0 where
  pub locked : Bool
  pub waiting : ℕ  -- u32
  pub state : S
  pub mutex : Bool

-- `SpeculativeMonitor::new`
unfoldable pub new : {S : Type 0} → S → Shared S
new s = record { locked = false; waiting = 0; state = s; mutex = false }

-- The match on the directive, up to where the spin guard is dropped: the new `waiting`, and where
-- the thread goes on.
unfoldable pub dispatch : {L : Type 0} → Frame L → Directive → Bool → ℕ → Option (ℕ × Pc L)
dispatch c return guard waiting = some (waiting, leaving c guard)
dispatch c (wait duration) guard waiting =
    if is_zero duration
    then some (waiting, leaving c guard)
    else if guard
    then (checked_inc 32 waiting >>= λ more. some (more, about_to_wait c duration))
    else some (waiting, locking c)
dispatch c notify_one guard waiting =
    if ltb 0 waiting
    then some (waiting, if guard then releasing c false else locking c)
    else some (waiting, leaving c guard)
dispatch c notify_all guard waiting =
    if ltb 0 waiting
    then some (waiting, if guard then releasing c true else locking c)
    else some (waiting, leaving c guard)

-- The frame after an evaluation.
abbrev pub again : {L S : Type 0} → Turn L S → Frame L
again r = record { locals = r.locals; last = some r.directive }

-- What `alter` and `compute` do with the guard of their `lock`, and `num_waiting` with its own.
abbrev pub alter : {S : Type 0} → (S → S) → Shared S → Shared S
alter f m = record m { state = f m.state }

abbrev pub compute : {S T : Type 0} → (S → T) → Shared S → T
compute f m = f m.state

abbrev pub num_waiting : {S : Type 0} → Shared S → ℕ
num_waiting m = m.waiting

-- A notified thread leaves the condition variable.
abbrev pub notified : {L : Type 0} → Pc L → Pc L
notified (parked c d) = resuming c false
notified p = p

module _ {L S : Type 0} (f : ℕ → ℕ → L → S → Option (Turn L S)) where
  -- One round of the loop, from the acquisition of the spin lock to its release.
  unfoldable pub round :
      ℕ → ℕ → Frame L → (guard woken : Bool) → Shared S → Option (Shared S × Pc L)
  round t u c guard woken m = do
    waiting ← if woken then checked_dec m.waiting else some m.waiting
    r ← f t u c.locals m.state
    (waiting', p) ← dispatch (again r) r.directive guard waiting
    some (record m { locked = false; waiting = waiting'; state = r.state }, p)

  -- One step of one thread that touches no other thread.
  pub data Move (m : Shared S) : Pc L → Shared S → Pc L → Type 0 where
    enter : (l : L) → Move m outside m (contending (record { locals = l; last = none }) false false)
    acquire :
        {c : Frame L} {guard woken : Bool}
        → m.locked ≡ false
        → Move m (contending c guard woken) (record m { locked = true }) (inside c guard woken)
    evaluate :
        (t u : ℕ) {c : Frame L} {guard woken : Bool} {m' : Shared S} {p : Pc L}
        → round t u c guard woken m ≡ some (m', p)
        → Move m (inside c guard woken) m' p
    lock :
        {c : Frame L}
        → m.mutex ≡ false
        → Move m (locking c) (record m { mutex = true }) (contending c true false)
    park :
        {c : Frame L} {d : ℕ} → Move m (about_to_wait c d) (record m { mutex = false }) (parked c d)
    wake : {c : Frame L} {d : ℕ} → Move m (parked c d) m (resuming c false)
    time_out : {c : Frame L} {d : ℕ} → d ≢ duration_max → Move m (parked c d) m (resuming c true)
    resume :
        {c : Frame L} {timed_out : Bool}
        → m.mutex ≡ false
        → Move m
            (resuming c timed_out)
            (record m { mutex = true })
            (if timed_out then expired c else contending c true true)
    expire :
        {c : Frame L}
        → m.locked ≡ false
        → Move m (expired c) (record m { locked = true }) (expiring c)
    unregister :
        {c : Frame L} {less : ℕ}
        → checked_dec m.waiting ≡ some less
        → Move m (expiring c) (record m { locked = false; waiting = less }) (leaving c true)
    release :
        {c : Frame L} {everyone : Bool}
        → Move m (releasing c everyone) (record m { mutex = false }) (signalling c everyone)
    leave :
        {c : Frame L} {guard : Bool}
        → Move m (leaving c guard) (record m { mutex = m.mutex && not guard }) outside
    -- `lock`, which `alter`, `compute` and `num_waiting` call too, an assignment through the guard
    -- and its drop.
    request : Move m outside m requesting
    own : m.locked ≡ false → Move m requesting (record m { locked = true }) owning
    assign : (s : S) → Move m owning (record m { state = s }) owning
    disown : Move m owning (record m { locked = false }) outside

  pub record System : Type 0 where
    pub shared : Shared S
    pub threads : ℕ → Pc L

  pub data Step (n : ℕ) (z : System) : System → Type 0 where
    move :
        (i : ℕ) {m : Shared S} {p : Pc L}
        → i < n
        → Move z.shared (z.threads i) m p
        → Step n z (record { shared = m; threads = place i p z.threads })
    wake_all :
        (i : ℕ) {c : Frame L}
        → i < n
        → z.threads i ≡ signalling c true
        → Step n z (record z { threads = place i (leaving c false) (λ j. notified (z.threads j)) })
    -- One waiting thread is notified, or none if none waits.
    wake_one :
        (i j : ℕ) {c c' : Frame L} {d : ℕ}
        → i < n
        → j < n
        → z.threads i ≡ signalling c false
        → z.threads j ≡ parked c' d
        → Step n z (record z {
          threads = place i (leaving c false) (place j (resuming c' false) z.threads);
        })
    wake_none :
        (i : ℕ) {c : Frame L}
        → i < n
        → z.threads i ≡ signalling c false
        → ((j : ℕ) (c' : Frame L) (d : ℕ) → z.threads j ≢ parked c' d)
        → Step n z (record z { threads = place i (leaving c false) z.threads })

  unfoldable pub init : S → System
  unfolding new
  init s = record { shared = new s; threads = λ _. outside }

  pub data Reach (n : ℕ) (s : S) : System → Type 0 where
    start : Reach n s (init s)
    later : {y z : System} → Reach n s y → Step n y z → Reach n s z
