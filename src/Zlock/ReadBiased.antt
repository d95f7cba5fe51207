-- ===== src/Zlock/ReadBiased.antt =====
-- anode/src/zlock/read_biased.rs: readers are let in whenever there is no writer. The closures
-- given to `enter`, and the moderator that they make.
pub mod Laws
pub mod Patience
use libmutex.Prelude.{
  ℕ, ◌+◌, ◌<◌, ◌^◌, Bool, true, false, not, ◌&&◌, ◌||◌, Option, some, ltb, ◌==◌, if◌then◌else◌,
  debug_assert, checked_inc, checked_dec, ◌>>=◌, ◌>>◌,
}
use libmutex.Deadline.{Deadline, lazy_after}
use libmutex.Monitor.{Directive, return, notify_one, notify_all, Turn, or_wait}
use libmutex.Zlock.Moderator
use libmutex.Zlock.Moderator.{Kind, Exit, again, done, Moderator}

pub record State : Type 0 where
  pub readers : ℕ  -- u32
  pub writer : Bool

-- The captured variables of each operation's closure.
pub data Local : Type 0 where
  reading : (deadline : Deadline) (acquired : Bool) → Local
  read_unlocking : (released : Bool) → Local
  writing : (deadline : Deadline) (acquired : Bool) → Local
  write_unlocking : (released : Bool) → Local
  downgrading : (released : Bool) → Local
  upgrading : (deadline : Deadline) (acquired : Bool) → Local

unfoldable pub new : State
new = record { readers = 0; writer = false }

-- The closure of `try_read`.
pub try_read : ℕ → ℕ → Deadline → Bool → State → Option (Turn Local State)
try_read t u deadline acquired s = do
  let free = not acquired && not s.writer
  readers ← if free then checked_inc 32 s.readers else some s.readers
  (deadline', reply) ← or_wait t u deadline (acquired || free) return
  some (record {
    locals = reading deadline' (acquired || free);
    state = record s { readers = readers };
    directive = reply;
  })

-- The closure of `read_unlock`.
pub read_unlock : Bool → State → Option (Turn Local State)
read_unlock released s = do
  debug_assert (released || ltb 0 s.readers)
  debug_assert (released || not s.writer)
  readers ← if released then some s.readers else checked_dec s.readers
  some (record {
    locals = read_unlocking true;
    state = record s { readers = readers };
    directive = if readers == 1 then notify_all else if readers == 0 then notify_one else return;
  })

-- The closure of `try_write`.
pub try_write : ℕ → ℕ → Deadline → Bool → State → Option (Turn Local State)
try_write t u deadline acquired s = do
  let free = not acquired && (s.readers == 0) && not s.writer
  (deadline', reply) ← or_wait t u deadline (acquired || free) return
  some (record {
    locals = writing deadline' (acquired || free);
    state = if free then record s { writer = true } else s;
    directive = reply;
  })

-- The closure of `write_unlock`.
pub write_unlock : Bool → State → Option (Turn Local State)
write_unlock released s = do
  debug_assert (released || s.readers == 0)
  debug_assert (released || s.writer)
  some (record {
    locals = write_unlocking true;
    state = if released then s else record s { writer = false };
    directive = notify_one;
  })

-- The closure of `downgrade`.
pub downgrade : Bool → State → Option (Turn Local State)
downgrade released s = do
  debug_assert (released || s.readers == 0)
  debug_assert (released || s.writer)
  some (record {
    locals = downgrading true;
    state = if released then s else record { readers = 1; writer = false };
    directive = notify_all;
  })

-- The closure of `try_upgrade`.
pub try_upgrade : ℕ → ℕ → Deadline → Bool → State → Option (Turn Local State)
try_upgrade t u deadline acquired s = do
  let free = not acquired && s.readers == 1
  debug_assert (not free || not s.writer)
  (deadline', reply) ← or_wait t u deadline (acquired || free) return
  some (record {
    locals = upgrading deadline' (acquired || free);
    state = if free then record { readers = 0; writer = true } else s;
    directive = reply;
  })

unfoldable pub begin : Kind → ℕ → Local
begin Kind.try_read duration = reading (lazy_after duration) false
begin Kind.read_unlock _ = read_unlocking false
begin Kind.try_write duration = writing (lazy_after duration) false
begin Kind.write_unlock _ = write_unlocking false
begin Kind.downgrade _ = downgrading false
begin Kind.try_upgrade duration = upgrading (lazy_after duration) false

unfoldable pub eval : ℕ → ℕ → Local → State → Option (Turn Local State)
unfolding try_read read_unlock try_write write_unlock downgrade try_upgrade
eval t u (reading deadline acquired) s = try_read t u deadline acquired s
eval t u (read_unlocking released) s = read_unlock released s
eval t u (writing deadline acquired) s = try_write t u deadline acquired s
eval t u (write_unlocking released) s = write_unlock released s
eval t u (downgrading released) s = downgrade released s
eval t u (upgrading deadline acquired) s = try_upgrade t u deadline acquired s

-- Every operation is one call of `enter`; the operations that may fail return `acquired`.
unfoldable pub exit : Local → Exit Local
exit (reading _ acquired) = done acquired
exit (writing _ acquired) = done acquired
exit (upgrading _ acquired) = done acquired
exit _ = done true

abbrev pub kind : Local → Kind
kind (reading _ _) = Kind.try_read
kind (read_unlocking _) = Kind.read_unlock
kind (writing _ _) = Kind.try_write
kind (write_unlocking _) = Kind.write_unlock
kind (downgrading _) = Kind.downgrade
kind (upgrading _ _) = Kind.try_upgrade

-- `acquired` or `released`.
abbrev pub granted : Local → Bool
granted (reading _ acquired) = acquired
granted (read_unlocking released) = released
granted (writing _ acquired) = acquired
granted (write_unlocking released) = released
granted (downgrading released) = released
granted (upgrading _ acquired) = acquired

-- A release has been made by the time that its `enter` returns.
abbrev pub settled : Local → Bool
settled (read_unlocking released) = released
settled (write_unlocking released) = released
settled (downgrading released) = released
settled _ = true

-- Nothing but `readers` and `writer` is in the state.
abbrev pub read_biased : Moderator
read_biased = record {
  State = State;
  Local = Local;
  new = new;
  begin = begin;
  eval = eval;
  exit = exit;
  readers = λ s. s.readers;
  writer = λ s. s.writer;
  kind = kind;
  granted = granted;
  debt = λ _. 0;
  place_in_queue = λ _. 0;
  ready = λ _. true;
  settled = settled;
  Tally = λ _ _ _. Unit;
  Room = λ s. s.readers + 1 < 2 ^ 32;
}
