-- ===== src/QuadHarness/System.antt =====
-- anode-bench/src/quad_harness.rs: the threads of `run`, over a `ZLock` (Zlock/Content) with any
-- moderator, and the result. The start barrier and the timing are left out, and a thread may begin
-- or be delayed at any point.
use libmutex.Prelude.{
  ℕ, ◌+◌, ◌-◌, ◌<◌, ◌≡◌, Bool, true, false, Option, none, some, ltb, ◌&&◌, place, total,
  if◌then◌else◌,
}
use libmutex.Completable.{is_none}
use libmutex.Monitor.{may_repeat}
use libmutex.Zlock.Moderator.{Kind, Moderator}
use libmutex.Zlock.System.{Status, idle, reader, writer, entering, evaluated}
use libmutex.Zlock.System as LockSystem
use libmutex.Zlock.Content as Content
use libmutex.Zlock.Content.{ZLock, deref}
use libmutex.QuadHarness.Threads.{
  Addable, ExtendedOptions, Options, Phase, Role, Thread, act, adding, after_add, calls,
  downgrading, head, is_busy, number, panicked, reading, role_of, upgrading, writing,
}

module _ (m : Moderator) {T : Type 0} (a : Addable T) where
  open m use {State, Local, begin, eval}

  pub record Harness : Type 0 where
    pub lock : ZLock m T
    pub running : Bool
    pub threads : ℕ → Thread T

  -- Does the evaluation that a thread may make next panic?
  abbrev pub panics : ℕ → ℕ → State → Status Local → Bool
  panics t u s (entering l) = is_none (eval t u l s)
  panics t u s (evaluated l d) = may_repeat d && is_none (eval t u l s)
  panics t u s _ = false

  -- The lock and its threads, with thread `i` now at `p`.
  abbrev pub locked : ZLock m T → ℕ → State → Status Local → ZLock m T
  locked z i s p = record z { sync = record { state = s; threads = place i p z.sync.threads } }

  pub data Step (ext : ExtendedOptions) (n : ℕ) (h : Harness) : Harness → Type 0 where
    -- The time is over.
    stop : Step ext n h (record h { running = false })
    proceed :
        (i : ℕ) {t : Thread T}
        → i < n
        → act a ext h.running
            (deref h.lock)
            (h.lock.sync.threads i)
            (h.threads i).phase
            (h.threads i)
          ≡ some t
        → Step ext n h (record h { threads = place i t h.threads })
    call :
        (i : ℕ) {k : Kind} {d : ℕ} {phase : Phase T}
        → i < n
        → calls ext (h.lock.sync.threads i) (h.threads i).role (h.threads i).phase
          ≡ some (k, d, phase)
        → Step ext n h (record h {
          lock = locked h.lock i h.lock.sync.state (entering (begin k d));
          threads = place i (record (h.threads i) { phase = phase }) h.threads;
        })
    -- A step inside an operation of the lock.
    operate :
        (i : ℕ) {s : State} {p : Status Local}
        → i < n
        → (h.threads i).unwound ≡ false
        → is_busy (h.lock.sync.threads i) ≡ true
        → LockSystem.Move m h.lock.sync.state (h.lock.sync.threads i) s p
        → Step ext n h (record h { lock = locked h.lock i s p })
    -- A closure of the lock panics. The thread unwinds, and its operation does not end.
    unwind :
        (t u i : ℕ)
        → i < n
        → panics t u h.lock.sync.state (h.lock.sync.threads i) ≡ true
        → Step ext n h
            (record h { threads = place i (record (h.threads i) { unwound = true }) h.threads })
    -- The new value is stored through the write guard.
    store :
        (i : ℕ) {v v' : T}
        → i < n
        → (h.threads i).phase ≡ adding v
        → a.add v 1 ≡ some v'
        → Step ext n h (record h {
          lock = record h.lock { content = v' };
          threads =
              place i (record (h.threads i) { phase = after_add (h.threads i).role }) h.threads;
        })
    overflow :
        (i : ℕ) {v : T}
        → i < n
        → (h.threads i).phase ≡ adding v
        → a.add v 1 ≡ none
        → Step ext n h
            (record h { threads = place i (record (h.threads i) { phase = panicked }) h.threads })

  abbrev pub new_thread : Role → Thread T
  new_thread role = record {
    role = role;
    phase = head;
    iterations = 0;
    last_val = 0;
    missed_upgrades = 0;
    unwound = false;
  }

  unfoldable pub init : Options → Harness
  unfolding Content.new
  init o = record {
    lock = Content.new a.initial;
    running = true;
    threads = λ i. new_thread (role_of o i);
  }

  pub data Reach (o : Options) (ext : ExtendedOptions) : Harness → Type 0 where
    start : Reach o ext (init o)
    later : {y z : Harness} → Reach o ext y → Step ext (number o) y z → Reach o ext z

-- What the threads of a role return, added up.
abbrev pub iterations_of : {T : Type 0} → Role → Thread T → ℕ
iterations_of reading t = elim t.role [ reading ↦ t.iterations | _ ↦ 0 ]
iterations_of writing t = elim t.role [ writing ↦ t.iterations | _ ↦ 0 ]
iterations_of downgrading t = elim t.role [ downgrading ↦ t.iterations | _ ↦ 0 ]
iterations_of upgrading t = elim t.role [ upgrading ↦ t.iterations | _ ↦ 0 ]

abbrev pub upgrades_of : {T : Type 0} → Thread T → ℕ
upgrades_of t = elim t.role [ upgrading ↦ t.iterations - t.missed_upgrades | _ ↦ 0 ]

pub record BenchmarkResult : Type 0 where
  pub reads : Option ℕ
  pub writes : Option ℕ
  pub downgrades : Option ℕ
  pub upgrades : Option ℕ

-- The result of `run`, once the threads have been joined.
unfoldable pub result : {T : Type 0} → Options → (ℕ → Thread T) → BenchmarkResult
result o threads =
    let sum = λ (w : Thread _ → ℕ). total w (number o) threads in
    let upgrader_reads : ℕ = sum (iterations_of upgrading) in
    record {
      reads = if ltb 0 o.readers then some (sum (iterations_of reading) + upgrader_reads) else none;
      writes =
          if ltb 0 o.writers
          then some (sum (iterations_of writing) + sum (iterations_of downgrading))
          else none;
      downgrades = if ltb 0 o.downgraders then some (sum (iterations_of downgrading)) else none;
      upgrades = if ltb 0 o.upgraders then some (sum upgrades_of) else none;
    }
