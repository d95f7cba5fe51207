-- ===== src/Zlock/LegacyReadBiased.antt =====
-- anode/src/zlock/legacy_read_biased.rs: readers are let in whenever there is no writer,
-- with the standard library's mutex and condition variable. An evaluation is the critical section
-- from the lock of the mutex, or from waking up, to the next wait or the return; `exit` is where a
-- time-out leads. Notifications are left out, since a waiting thread may be woken at any time.
pub mod Laws
pub mod Patience
use libmutex.Prelude.{
  ℕ, ◌+◌, ◌<◌, ◌^◌, ◌≡◌, Bool, true, false, not, ◌&&◌, ◌||◌, Option, none, some, ltb, ◌==◌,
  if◌then◌else◌, debug_assert, checked_inc, checked_dec, ◌>>=◌, ◌>>◌,
}
use libmutex.Deadline.{Deadline, lazy_after}
use libmutex.Monitor.{return, Turn, or_wait}
use libmutex.Zlock.Moderator
use libmutex.Zlock.Moderator.{Kind, Exit, again, done, Moderator, flag}

pub record State : Type 0 where
  pub readers : ℕ  -- u32
  pub writer : Bool

-- The variables of each operation that is not yet over.
pub data Local : Type 0 where
  reading : (deadline : Deadline) → Local
  read_unlocking : Local
  writing : (deadline : Deadline) → Local
  write_unlocking : Local
  downgrading : Local
  upgrading : (deadline : Deadline) → Local
  -- The operation has had its effect, and returns.
  finished : Kind → Local

unfoldable pub new : State
new = record { readers = 0; writer = false }

-- The loop of `try_read`.
pub try_read : ℕ → ℕ → Deadline → State → Option (Turn Local State)
try_read t u deadline s = do
  let free = not s.writer
  readers ← if free then checked_inc 32 s.readers else some s.readers
  (deadline', reply) ← or_wait t u deadline free return
  some (record {
    locals = if free then finished Kind.try_read else reading deadline';
    state = record s { readers = readers };
    directive = reply;
  })

-- `read_unlock`
pub read_unlock : State → Option (Turn Local State)
read_unlock s = do
  debug_assert (ltb 0 s.readers)
  debug_assert (not s.writer)
  readers ← checked_dec s.readers
  some (record {
    locals = finished Kind.read_unlock;
    state = record s { readers = readers };
    directive = return;
  })

-- The loop of `try_write`.
pub try_write : ℕ → ℕ → Deadline → State → Option (Turn Local State)
try_write t u deadline s = do
  let free = s.readers == 0 && not s.writer
  (deadline', reply) ← or_wait t u deadline free return
  some (record {
    locals = if free then finished Kind.try_write else writing deadline';
    state = if free then record s { writer = true } else s;
    directive = reply;
  })

-- `write_unlock`
pub write_unlock : State → Option (Turn Local State)
write_unlock s = do
  debug_assert (s.readers == 0)
  debug_assert s.writer
  some (record {
    locals = finished Kind.write_unlock;
    state = record s { writer = false };
    directive = return;
  })

-- `downgrade`
pub downgrade : State → Option (Turn Local State)
downgrade s = do
  debug_assert (s.readers == 0)
  debug_assert s.writer
  some (record {
    locals = finished Kind.downgrade;
    state = record s { readers = 1; writer = false };
    directive = return;
  })

-- The loop of `try_upgrade`.
pub try_upgrade : ℕ → ℕ → Deadline → State → Option (Turn Local State)
try_upgrade t u deadline s = do
  debug_assert (ltb 0 s.readers)
  debug_assert (not s.writer)
  let free = s.readers == 1
  (deadline', reply) ← or_wait t u deadline free return
  some (record {
    locals = if free then finished Kind.try_upgrade else upgrading deadline';
    state = if free then record s { readers = 0; writer = true } else s;
    directive = reply;
  })

unfoldable pub begin : Kind → ℕ → Local
begin Kind.try_read duration = reading (lazy_after duration)
begin Kind.read_unlock _ = read_unlocking
begin Kind.try_write duration = writing (lazy_after duration)
begin Kind.write_unlock _ = write_unlocking
begin Kind.downgrade _ = downgrading
begin Kind.try_upgrade duration = upgrading (lazy_after duration)

unfoldable pub eval : ℕ → ℕ → Local → State → Option (Turn Local State)
unfolding try_read read_unlock try_write write_unlock downgrade try_upgrade
eval t u (reading deadline) s = try_read t u deadline s
eval t u read_unlocking s = read_unlock s
eval t u (writing deadline) s = try_write t u deadline s
eval t u write_unlocking s = write_unlock s
eval t u downgrading s = downgrade s
eval t u (upgrading deadline) s = try_upgrade t u deadline s
eval t u (finished _) s = none

-- Where a time-out leads, or the return.
unfoldable pub exit : Local → Exit Local
exit (reading _) = done false
exit (writing _) = done false
exit (upgrading _) = done false
exit _ = done true

abbrev pub kind : Local → Kind
kind (reading _) = Kind.try_read
kind read_unlocking = Kind.read_unlock
kind (writing _) = Kind.try_write
kind write_unlocking = Kind.write_unlock
kind downgrading = Kind.downgrade
kind (upgrading _) = Kind.try_upgrade
kind (finished k) = k

-- The operation has had its effect.
abbrev pub granted : Local → Bool
granted (finished _) = true
granted _ = false

-- There is a critical section to come.
abbrev pub ready : Local → Bool
ready (finished _) = false
ready _ = true

-- A release has been made by the time that its operation returns.
abbrev pub settled : Local → Bool
settled read_unlocking = false
settled write_unlocking = false
settled downgrading = false
settled _ = true

abbrev pub legacy_read_biased : Moderator
legacy_read_biased = record {
  State = State;
  Local = Local;
  new = new;
  begin = begin;
  eval = eval;
  exit = exit;
  readers = λ s. s.readers;
  writer = λ s. s.writer;
  kind = kind;
  granted = granted;
  debt = λ _. 0;
  place_in_queue = λ _. 0;
  ready = ready;
  settled = settled;
  Tally = λ _ _ _. Unit;
  Room = λ s. s.readers + 1 < 2 ^ 32;
}
