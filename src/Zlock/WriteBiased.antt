-- ===== src/Zlock/WriteBiased.antt =====
-- anode/src/zlock/write_biased.rs: a pending writer holds new readers back. The closures
-- given to `enter`, and the moderator that they make.
pub mod Laws
pub mod Patience
use libmutex.Prelude.{
  ℕ, ◌+◌, ◌<◌, ◌^◌, Bool, true, false, not, ◌≡◌, ◌&&◌, ◌||◌, Option, some, ltb, leb, ◌==◌,
  if◌then◌else◌, debug_assert, checked_inc, checked_dec, ◌>>=◌, ◌>>◌,
}
use libmutex.Deadline.{Deadline, lazy_after}
use libmutex.Monitor.{Directive, return, notify_all, Turn, or_wait}
use libmutex.Zlock.Moderator
use libmutex.Zlock.Moderator.{Kind, Exit, again, done, Moderator, flag}

pub record State : Type 0 where
  pub readers : ℕ  -- u32
  pub writer : Bool
  pub writer_pending : Bool

-- The captured variables of each operation's closure. An operation that has set `writer_pending`
-- calls `enter` a second time, to clear it.
pub data Local : Type 0 where
  reading : (deadline : Deadline) (acquired saw_no_pending_writer : Bool) → Local
  read_unlocking : (released : Bool) → Local
  writing : (deadline : Deadline) (acquired self_writer_pending : Bool) → Local
  write_clearing : (acquired cleared_writer_pending : Bool) → Local
  write_unlocking : (released : Bool) → Local
  downgrading : (released : Bool) → Local
  upgrading : (deadline : Deadline) (acquired self_writer_pending : Bool) → Local
  upgrade_clearing : (acquired cleared_writer_pending : Bool) → Local

unfoldable pub new : State
new = record { readers = 0; writer = false; writer_pending = false }

-- The closure of `try_read`.
pub try_read : ℕ → ℕ → Deadline → Bool → Bool → State → Option (Turn Local State)
try_read t u deadline acquired saw s = do
  let saw' = saw || not s.writer_pending
  let free = not acquired && not s.writer && saw'
  readers ← if free then checked_inc 32 s.readers else some s.readers
  (deadline', reply) ← or_wait t u deadline (acquired || free) return
  some (record {
    locals = reading deadline' (acquired || free) saw';
    state = record s { readers = readers };
    directive = reply;
  })

-- The closure of `read_unlock`.
pub read_unlock : Bool → State → Option (Turn Local State)
read_unlock released s = do
  debug_assert (released || ltb 0 s.readers)
  debug_assert (released || not s.writer)
  readers ← if released then some s.readers else checked_dec s.readers
  some (record {
    locals = read_unlocking true;
    state = record s { readers = readers };
    directive = if leb readers 1 then notify_all else return;
  })

-- The first closure of `try_write`.
pub try_write : ℕ → ℕ → Deadline → Bool → Bool → State → Option (Turn Local State)
try_write t u deadline acquired self_pending s = do
  let free = not acquired && s.readers == 0 && not s.writer
  let mark = not acquired && not free && not s.writer_pending
  (deadline', reply) ← or_wait t u deadline (acquired || free) return
  some (record {
    locals = writing deadline' (acquired || free) (self_pending || mark);
    state =
        if free
        then record s { writer = true }
        else if mark
        then record s { writer_pending = true }
        else s;
    directive = reply;
  })

-- The second closure of `try_write`.
pub write_clear : Bool → Bool → State → Option (Turn Local State)
write_clear acquired cleared s = some (record {
  locals = write_clearing acquired true;
  state = if cleared then s else record s { writer_pending = false };
  directive = if acquired then return else notify_all;
})

-- The closure of `write_unlock`.
pub write_unlock : Bool → State → Option (Turn Local State)
write_unlock released s = do
  debug_assert (released || s.readers == 0)
  debug_assert (released || s.writer)
  some (record {
    locals = write_unlocking true;
    state = if released then s else record s { writer = false };
    directive = notify_all;
  })

-- The closure of `downgrade`.
pub downgrade : Bool → State → Option (Turn Local State)
downgrade released s = do
  debug_assert (released || s.readers == 0)
  debug_assert (released || s.writer)
  some (record {
    locals = downgrading true;
    state = if released then s else record s { writer = false; readers = 1 };
    directive = notify_all;
  })

-- The first closure of `try_upgrade`.
pub try_upgrade : ℕ → ℕ → Deadline → Bool → Bool → State → Option (Turn Local State)
try_upgrade t u deadline acquired self_pending s = do
  debug_assert (acquired || not s.writer)
  let free = not acquired && s.readers == 1
  let mark = not acquired && not free && not s.writer_pending
  (deadline', reply) ← or_wait t u deadline (acquired || free) return
  some (record {
    locals = upgrading deadline' (acquired || free) (self_pending || mark);
    state =
        if free
        then record s { readers = 0; writer = true }
        else if mark
        then record s { writer_pending = true }
        else s;
    directive = reply;
  })

-- The second closure of `try_upgrade`.
pub upgrade_clear : Bool → Bool → State → Option (Turn Local State)
upgrade_clear acquired cleared s = some (record {
  locals = upgrade_clearing acquired true;
  state = if cleared then s else record s { writer_pending = false };
  directive = if acquired then return else notify_all;
})

unfoldable pub begin : Kind → ℕ → Local
begin Kind.try_read duration = reading (lazy_after duration) false false
begin Kind.read_unlock _ = read_unlocking false
begin Kind.try_write duration = writing (lazy_after duration) false false
begin Kind.write_unlock _ = write_unlocking false
begin Kind.downgrade _ = downgrading false
begin Kind.try_upgrade duration = upgrading (lazy_after duration) false false

unfoldable pub eval : ℕ → ℕ → Local → State → Option (Turn Local State)
unfolding try_read read_unlock try_write write_clear write_unlock downgrade try_upgrade
    upgrade_clear
eval t u (reading deadline acquired saw) s = try_read t u deadline acquired saw s
eval t u (read_unlocking released) s = read_unlock released s
eval t u (writing deadline acquired self_pending) s = try_write t u deadline acquired self_pending s
eval t u (write_clearing acquired cleared) s = write_clear acquired cleared s
eval t u (write_unlocking released) s = write_unlock released s
eval t u (downgrading released) s = downgrade released s
eval t u (upgrading deadline acquired self_pending) s =
    try_upgrade t u deadline acquired self_pending s
eval t u (upgrade_clearing acquired cleared) s = upgrade_clear acquired cleared s

-- The second `enter` is made only if the operation itself has set `writer_pending`.
unfoldable pub exit : Local → Exit Local
exit (reading _ acquired _) = done acquired
exit (writing _ acquired self_pending) =
    if self_pending then again (write_clearing acquired false) else done acquired
exit (write_clearing acquired _) = done acquired
exit (upgrading _ acquired self_pending) =
    if self_pending then again (upgrade_clearing acquired false) else done acquired
exit (upgrade_clearing acquired _) = done acquired
exit _ = done true

abbrev pub kind : Local → Kind
kind (reading _ _ _) = Kind.try_read
kind (read_unlocking _) = Kind.read_unlock
kind (writing _ _ _) = Kind.try_write
kind (write_clearing _ _) = Kind.try_write
kind (write_unlocking _) = Kind.write_unlock
kind (downgrading _) = Kind.downgrade
kind (upgrading _ _ _) = Kind.try_upgrade
kind (upgrade_clearing _ _) = Kind.try_upgrade

-- `acquired` or `released`.
abbrev pub granted : Local → Bool
granted (reading _ acquired _) = acquired
granted (read_unlocking released) = released
granted (writing _ acquired _) = acquired
granted (write_clearing acquired _) = acquired
granted (write_unlocking released) = released
granted (downgrading released) = released
granted (upgrading _ acquired _) = acquired
granted (upgrade_clearing acquired _) = acquired

-- The `writer_pending` that this operation has set and not yet cleared.
abbrev pub debt : Local → ℕ
debt (writing _ _ self_pending) = flag self_pending
debt (write_clearing _ cleared) = flag (not cleared)
debt (upgrading _ _ self_pending) = flag self_pending
debt (upgrade_clearing _ cleared) = flag (not cleared)
debt _ = 0

-- A release, or a clearing, has been made by the time that its `enter` returns.
abbrev pub settled : Local → Bool
settled (read_unlocking released) = released
settled (write_unlocking released) = released
settled (downgrading released) = released
settled (write_clearing _ cleared) = cleared
settled (upgrade_clearing _ cleared) = cleared
settled _ = true

-- `writer_pending` is set exactly while one operation has still to clear it.
abbrev pub Tally : State → ℕ → ℕ → Type 0
Tally s debts _ = flag s.writer_pending ≡ debts

abbrev pub write_biased : Moderator
write_biased = record {
  State = State;
  Local = Local;
  new = new;
  begin = begin;
  eval = eval;
  exit = exit;
  readers = λ s. s.readers;
  writer = λ s. s.writer;
  kind = kind;
  granted = granted;
  debt = debt;
  place_in_queue = λ _. 0;
  ready = λ _. true;
  settled = settled;
  Tally = Tally;
  Room = λ s. s.readers + 1 < 2 ^ 32;
}
