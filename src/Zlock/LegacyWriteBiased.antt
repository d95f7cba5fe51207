-- ===== src/Zlock/LegacyWriteBiased.antt =====
-- anode/src/zlock/legacy_write_biased.rs: a pending writer holds new readers back,
-- with the standard library's mutex and condition variable. An evaluation is the critical section
-- from the lock of the mutex, or from waking up, to the next wait or the return; `exit` is where a
-- time-out leads. Notifications are left out, since a waiting thread may be woken at any time.
pub mod Laws
pub mod Patience
use libmutex.Prelude.{
  ℕ, ◌+◌, ◌<◌, ◌^◌, ◌≡◌, Bool, true, false, not, ◌&&◌, ◌||◌, Option, none, some, ltb, ◌==◌,
  if◌then◌else◌, debug_assert, checked_inc, checked_dec, ◌>>=◌, ◌>>◌,
}
use libmutex.Deadline.{Deadline, lazy_after}
use libmutex.Monitor.{return, Turn, or_wait}
use libmutex.Zlock.Moderator
use libmutex.Zlock.Moderator.{Kind, Exit, again, done, Moderator, flag, is_try}

pub record State : Type 0 where
  pub readers : ℕ  -- u32
  pub writer : Bool
  pub writer_pending : Bool

-- The variables of each operation that is not yet over.
pub data Local : Type 0 where
  -- `was_writer_pending` is read in the first critical section, where it is `none`.
  reading : (deadline : Deadline) (was_writer_pending : Option Bool) → Local
  read_unlocking : Local
  writing : (deadline : Deadline) (self_writer_pending : Bool) → Local
  write_unlocking : Local
  downgrading : Local
  -- `woken` after the first wait.
  upgrading : (deadline : Deadline) (self_writer_pending woken : Bool) → Local
  -- After a time-out, about to clear the `writer_pending` that the operation has set.
  clearing : Kind → Local
  cleared : Kind → Local
  -- The operation has had its effect, and returns.
  finished : Kind → Local

unfoldable pub new : State
new = record { readers = 0; writer = false; writer_pending = false }

abbrev pub unwrap_or : Bool → Option Bool → Bool
unwrap_or b none = b
unwrap_or b (some was) = was

-- The loop of `try_read`.
pub try_read : ℕ → ℕ → Deadline → Option Bool → State → Option (Turn Local State)
try_read t u deadline was_pending s = do
  let was = unwrap_or s.writer_pending was_pending
  let free = not (s.writer || (was && s.writer_pending))
  readers ← if free then checked_inc 32 s.readers else some s.readers
  (deadline', reply) ← or_wait t u deadline free return
  some (record {
    locals = if free then finished Kind.try_read else reading deadline' (some was);
    state = record s { readers = readers };
    directive = reply;
  })

-- `read_unlock`
pub read_unlock : State → Option (Turn Local State)
read_unlock s = do
  debug_assert (ltb 0 s.readers)
  debug_assert (not s.writer)
  readers ← checked_dec s.readers
  some (record {
    locals = finished Kind.read_unlock;
    state = record s { readers = readers };
    directive = return;
  })

-- The loop of `try_write`.
pub try_write : ℕ → ℕ → Deadline → Bool → State → Option (Turn Local State)
try_write t u deadline self_pending s = do
  let free = s.readers == 0 && not s.writer
  debug_assert (not (free && self_pending) || s.writer_pending)
  let mark = not free && not s.writer_pending
  (deadline', reply) ← or_wait t u deadline free return
  some (record {
    locals = if free then finished Kind.try_write else writing deadline' (self_pending || mark);
    state =
        if free
        then record s { writer = true; writer_pending = s.writer_pending && not self_pending }
        else record s { writer_pending = s.writer_pending || mark };
    directive = reply;
  })

-- `write_unlock`
pub write_unlock : State → Option (Turn Local State)
write_unlock s = do
  debug_assert (s.readers == 0)
  debug_assert s.writer
  some (record {
    locals = finished Kind.write_unlock;
    state = record s { writer = false };
    directive = return;
  })

-- `downgrade`
pub downgrade : State → Option (Turn Local State)
downgrade s = do
  debug_assert (s.readers == 0)
  debug_assert s.writer
  some (record {
    locals = finished Kind.downgrade;
    state = record s { readers = 1; writer = false };
    directive = return;
  })

-- The loop of `try_upgrade`, which marks itself as pending when it has been woken up.
pub try_upgrade : ℕ → ℕ → Deadline → Bool → Bool → State → Option (Turn Local State)
try_upgrade t u deadline self_pending woken s = do
  let mark = woken && not s.writer_pending
  let self_pending' = self_pending || mark
  let pending = s.writer_pending || mark
  debug_assert (ltb 0 s.readers)
  debug_assert (not s.writer)
  let free = s.readers == 1
  debug_assert (not (free && self_pending') || pending)
  (deadline', reply) ← or_wait t u deadline free return
  some (record {
    locals = if free then finished Kind.try_upgrade else upgrading deadline' self_pending' true;
    state =
        if free
        then record { readers = 0; writer = true; writer_pending = pending && not self_pending' }
        else record s { writer_pending = pending };
    directive = reply;
  })

-- After a time-out: `guard.writer_pending = false`.
pub clear : Kind → State → Option (Turn Local State)
clear k s =
    some (record {
      locals = cleared k;
      state = record s { writer_pending = false };
      directive = return;
    })

unfoldable pub begin : Kind → ℕ → Local
begin Kind.try_read duration = reading (lazy_after duration) none
begin Kind.read_unlock _ = read_unlocking
begin Kind.try_write duration = writing (lazy_after duration) false
begin Kind.write_unlock _ = write_unlocking
begin Kind.downgrade _ = downgrading
begin Kind.try_upgrade duration = upgrading (lazy_after duration) false false

unfoldable pub eval : ℕ → ℕ → Local → State → Option (Turn Local State)
unfolding try_read read_unlock try_write write_unlock downgrade try_upgrade clear
eval t u (reading deadline was_pending) s = try_read t u deadline was_pending s
eval t u read_unlocking s = read_unlock s
eval t u (writing deadline self_pending) s = try_write t u deadline self_pending s
eval t u write_unlocking s = write_unlock s
eval t u downgrading s = downgrade s
eval t u (upgrading deadline self_pending woken) s = try_upgrade t u deadline self_pending woken s
eval t u (clearing k) s = clear k s
eval t u (cleared _) s = none
eval t u (finished _) s = none

-- Where a time-out leads, or the return.
unfoldable pub exit : Local → Exit Local
exit (reading _ _) = done false
exit (writing _ self_pending) = if self_pending then again (clearing Kind.try_write) else done false
exit (upgrading _ self_pending _) =
    if self_pending then again (clearing Kind.try_upgrade) else done false
exit (clearing _) = done false
exit (cleared _) = done false
exit _ = done true

abbrev pub kind : Local → Kind
kind (reading _ _) = Kind.try_read
kind read_unlocking = Kind.read_unlock
kind (writing _ _) = Kind.try_write
kind write_unlocking = Kind.write_unlock
kind downgrading = Kind.downgrade
kind (upgrading _ _ _) = Kind.try_upgrade
kind (clearing k) = k
kind (cleared k) = k
kind (finished k) = k

-- The operation has had its effect.
abbrev pub granted : Local → Bool
granted (finished _) = true
granted _ = false

-- The `writer_pending` that this operation has set and not yet cleared.
abbrev pub debt : Local → ℕ
debt (writing _ self_pending) = flag self_pending
debt (upgrading _ self_pending _) = flag self_pending
debt (clearing _) = 1
debt _ = 0

-- There is a critical section to come.
abbrev pub ready : Local → Bool
ready (clearing k) = is_try k
ready (cleared _) = false
ready (finished _) = false
ready _ = true

-- A release, or a clearing, has been made by the time that its operation returns.
abbrev pub settled : Local → Bool
settled read_unlocking = false
settled write_unlocking = false
settled downgrading = false
settled (clearing _) = false
settled (cleared k) = is_try k
settled _ = true

-- `writer_pending` is set exactly while one operation has still to clear it.
abbrev pub Tally : State → ℕ → ℕ → Type 0
Tally s debts _ = flag s.writer_pending ≡ debts

abbrev pub legacy_write_biased : Moderator
legacy_write_biased = record {
  State = State;
  Local = Local;
  new = new;
  begin = begin;
  eval = eval;
  exit = exit;
  readers = λ s. s.readers;
  writer = λ s. s.writer;
  kind = kind;
  granted = granted;
  debt = debt;
  place_in_queue = λ _. 0;
  ready = ready;
  settled = settled;
  Tally = Tally;
  Room = λ s. s.readers + 1 < 2 ^ 32;
}
