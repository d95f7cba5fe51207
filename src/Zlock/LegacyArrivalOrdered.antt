-- ===== src/Zlock/LegacyArrivalOrdered.antt =====
-- anode/src/zlock/legacy_arrival_ordered.rs: tickets are serviced in the order of arrival,
-- with the standard library's mutex and condition variable. An evaluation is the critical section
-- from the lock of the mutex, or from waking up, to the next wait or the return; `exit` is where a
-- time-out leads. Notifications are left out, since a waiting thread may be woken at any time.
pub mod Laws
pub mod Patience
use libmutex.Prelude.{
  ℕ, ◌+◌, ◌<◌, ◌^◌, ◌≡◌, Bool, true, false, not, ◌&&◌, ◌||◌, Option, none, some, ltb, ◌==◌,
  if◌then◌else◌, debug_assert, checked_inc, checked_dec, ◌>>=◌, ◌>>◌,
}
use libmutex.Deadline.{Deadline, lazy_after}
use libmutex.Monitor.{return, Turn, or_wait}
use libmutex.Zlock.Moderator
use libmutex.Zlock.Moderator.{Kind, Exit, again, done, Moderator, flag, is_try}

pub record State : Type 0 where
  pub readers : ℕ  -- u32
  pub writer : Bool
  pub next_ticket : ℕ  -- u64
  pub serviced_tickets : ℕ  -- u64

-- The variables of each operation that is not yet over. The ticket is taken in the first critical
-- section, where it is `none`.
pub data Local : Type 0 where
  reading : (deadline : Deadline) (ticket : Option ℕ) → Local
  read_unlocking : Local
  writing : (deadline : Deadline) (ticket : Option ℕ) → Local
  write_unlocking : Local
  downgrading : Local
  upgrading : (deadline : Deadline) → Local
  -- After a time-out, about to count the ticket as serviced.
  skipping : Kind → Local
  skipped : Kind → Local
  -- The operation has had its effect, and returns.
  finished : Kind → Local

unfoldable pub new : State
new = record { readers = 0; writer = false; next_ticket = 1; serviced_tickets = 0 }

-- The ticket taken, and the state after it.
pub take_ticket : State → Option (ℕ × State)
take_ticket s = do
  next ← checked_inc 64 s.next_ticket
  some (s.next_ticket, record s { next_ticket = next })

-- `take_ticket` in the first critical section, the ticket taken in the others.
pub the_ticket : Option ℕ → State → Option (ℕ × State)
unfolding take_ticket
the_ticket none s = take_ticket s
the_ticket (some ticket) s = some (ticket, s)

-- `state.serviced_tickets < ticket - 1`, which is evaluated only where the tests before it fail.
pub is_early : Bool → ℕ → State → Option Bool
is_early true ticket s = some true
is_early false ticket s = do before ← checked_dec ticket; some (ltb s.serviced_tickets before)

-- The loop of `try_read`.
pub try_read : ℕ → ℕ → Deadline → Option ℕ → State → Option (Turn Local State)
unfolding the_ticket is_early
try_read t u deadline taken s = do
  (ticket, s') ← the_ticket taken s
  early ← is_early s'.writer ticket s'
  serviced ← if early then some s'.serviced_tickets else checked_inc 64 s'.serviced_tickets
  readers ← if early then some s'.readers else checked_inc 32 s'.readers
  (deadline', reply) ← or_wait t u deadline (not early) return
  some (record {
    locals = if early then reading deadline' (some ticket) else finished Kind.try_read;
    state = record s' { serviced_tickets = serviced; readers = readers };
    directive = reply;
  })

-- `read_unlock`
pub read_unlock : State → Option (Turn Local State)
read_unlock s = do
  debug_assert (ltb 0 s.readers)
  debug_assert (not s.writer)
  readers ← checked_dec s.readers
  some (record {
    locals = finished Kind.read_unlock;
    state = record s { readers = readers };
    directive = return;
  })

-- The loop of `try_write`.
pub try_write : ℕ → ℕ → Deadline → Option ℕ → State → Option (Turn Local State)
unfolding the_ticket is_early
try_write t u deadline taken s = do
  (ticket, s') ← the_ticket taken s
  early ← is_early (not (s'.readers == 0) || s'.writer) ticket s'
  serviced ← if early then some s'.serviced_tickets else checked_inc 64 s'.serviced_tickets
  (deadline', reply) ← or_wait t u deadline (not early) return
  some (record {
    locals = if early then writing deadline' (some ticket) else finished Kind.try_write;
    state = if early then s' else record s' { serviced_tickets = serviced; writer = true };
    directive = reply;
  })

-- `write_unlock`
pub write_unlock : State → Option (Turn Local State)
write_unlock s = do
  debug_assert (s.readers == 0)
  debug_assert s.writer
  some (record {
    locals = finished Kind.write_unlock;
    state = record s { writer = false };
    directive = return;
  })

-- `downgrade`
pub downgrade : State → Option (Turn Local State)
downgrade s = do
  debug_assert (s.readers == 0)
  debug_assert s.writer
  some (record {
    locals = finished Kind.downgrade;
    state = record s { readers = 1; writer = false };
    directive = return;
  })

-- The loop of `try_upgrade`.
pub try_upgrade : ℕ → ℕ → Deadline → State → Option (Turn Local State)
try_upgrade t u deadline s = do
  debug_assert (ltb 0 s.readers)
  debug_assert (not s.writer)
  let free = s.readers == 1
  (deadline', reply) ← or_wait t u deadline free return
  some (record {
    locals = if free then finished Kind.try_upgrade else upgrading deadline';
    state = if free then record s { readers = 0; writer = true } else s;
    directive = reply;
  })

-- After a time-out: `guard.serviced_tickets += 1`.
pub skip : Kind → State → Option (Turn Local State)
skip k s = do
  serviced ← checked_inc 64 s.serviced_tickets
  some (record {
    locals = skipped k;
    state = record s { serviced_tickets = serviced };
    directive = return;
  })

unfoldable pub begin : Kind → ℕ → Local
begin Kind.try_read duration = reading (lazy_after duration) none
begin Kind.read_unlock _ = read_unlocking
begin Kind.try_write duration = writing (lazy_after duration) none
begin Kind.write_unlock _ = write_unlocking
begin Kind.downgrade _ = downgrading
begin Kind.try_upgrade duration = upgrading (lazy_after duration)

unfoldable pub eval : ℕ → ℕ → Local → State → Option (Turn Local State)
unfolding try_read read_unlock try_write write_unlock downgrade try_upgrade skip
eval t u (reading deadline ticket) s = try_read t u deadline ticket s
eval t u read_unlocking s = read_unlock s
eval t u (writing deadline ticket) s = try_write t u deadline ticket s
eval t u write_unlocking s = write_unlock s
eval t u downgrading s = downgrade s
eval t u (upgrading deadline) s = try_upgrade t u deadline s
eval t u (skipping k) s = skip k s
eval t u (skipped _) s = none
eval t u (finished _) s = none

-- Where a time-out leads, or the return.
unfoldable pub exit : Local → Exit Local
exit (reading _ _) = again (skipping Kind.try_read)
exit (writing _ _) = again (skipping Kind.try_write)
exit (upgrading _) = done false
exit (skipping _) = done false
exit (skipped _) = done false
exit _ = done true

abbrev pub kind : Local → Kind
kind (reading _ _) = Kind.try_read
kind read_unlocking = Kind.read_unlock
kind (writing _ _) = Kind.try_write
kind write_unlocking = Kind.write_unlock
kind downgrading = Kind.downgrade
kind (upgrading _) = Kind.try_upgrade
kind (skipping k) = k
kind (skipped k) = k
kind (finished k) = k

-- The operation has had its effect.
abbrev pub granted : Local → Bool
granted (finished _) = true
granted _ = false

abbrev pub has_ticket : Option ℕ → Bool
has_ticket none = false
has_ticket (some _) = true

-- A ticket taken and not yet serviced.
abbrev pub debt : Local → ℕ
debt (reading _ ticket) = flag (has_ticket ticket)
debt (writing _ ticket) = flag (has_ticket ticket)
debt (skipping _) = 1
debt _ = 0

-- A ticket is a positive number.
abbrev pub is_ticket : Option ℕ → Bool
is_ticket none = true
is_ticket (some ticket) = ltb 0 ticket

-- There is a critical section to come.
abbrev pub ready : Local → Bool
ready (reading _ ticket) = is_ticket ticket
ready (writing _ ticket) = is_ticket ticket
ready (skipping k) = is_try k
ready (skipped _) = false
ready (finished _) = false
ready _ = true

-- A release, or a skip, has been made by the time that its operation returns.
abbrev pub settled : Local → Bool
settled read_unlocking = false
settled write_unlocking = false
settled downgrading = false
settled (reading _ ticket) = has_ticket ticket
settled (writing _ ticket) = has_ticket ticket
settled (skipping _) = false
settled (skipped k) = is_try k
settled _ = true

-- Tickets start from 1; each one taken is serviced or still owed.
abbrev pub Tally : State → ℕ → ℕ → Type 0
Tally s debts _ = s.serviced_tickets + debts + 1 ≡ s.next_ticket

abbrev pub Room : State → Type 0
Room s = (s.readers + 1 < 2 ^ 32) × (s.next_ticket + 1 < 2 ^ 64)

abbrev pub legacy_arrival_ordered : Moderator
legacy_arrival_ordered = record {
  State = State;
  Local = Local;
  new = new;
  begin = begin;
  eval = eval;
  exit = exit;
  readers = λ s. s.readers;
  writer = λ s. s.writer;
  kind = kind;
  granted = granted;
  debt = debt;
  place_in_queue = λ _. 0;
  ready = ready;
  settled = settled;
  Tally = Tally;
  Room = Room;
}
