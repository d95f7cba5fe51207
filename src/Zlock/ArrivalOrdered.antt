-- ===== src/Zlock/ArrivalOrdered.antt =====
-- anode/src/zlock/arrival_ordered.rs: threads are let in by ticket. The closures given to
-- `enter`, and the moderator that they make.
pub mod Laws
pub mod Patience
pub mod Order
pub mod Fifo
use libmutex.Prelude.{
  ℕ, ◌+◌, ◌<◌, ◌^◌, Bool, true, false, not, ◌≡◌, ◌-◌, ◌&&◌, ◌||◌, Option, some, ltb, leb, ◌==◌,
  if◌then◌else◌, debug_assert, checked_inc, checked_dec, ◌>>=◌, ◌>>◌,
}
use libmutex.Deadline.{Deadline, lazy_after}
use libmutex.Monitor.{Directive, return, notify_all, Turn, or_wait}
use libmutex.Zlock.Moderator
use libmutex.Zlock.Moderator.{Kind, Exit, again, done, Moderator, flag}

pub record State : Type 0 where
  pub readers : ℕ  -- u32
  pub writer : Bool
  pub next_ticket : ℕ  -- u64
  pub serviced_tickets : ℕ  -- u64

-- The captured variables of each operation's closure. A `ticket` of 0 is none. An operation that
-- gives up calls `enter` a second time, to let its ticket count as serviced.
pub data Local : Type 0 where
  reading : (deadline : Deadline) (acquired : Bool) (ticket : ℕ) → Local
  read_skipping : (inc_serviced : Bool) → Local
  read_unlocking : (released : Bool) → Local
  writing : (deadline : Deadline) (acquired : Bool) (ticket : ℕ) → Local
  write_skipping : (inc_serviced : Bool) → Local
  write_unlocking : (released : Bool) → Local
  downgrading : (released : Bool) → Local
  upgrading : (deadline : Deadline) (acquired : Bool) → Local

unfoldable pub new : State
new = record { readers = 0; writer = false; next_ticket = 1; serviced_tickets = 0 }

-- The ticket taken, and the state after it.
pub take_ticket : State → Option (ℕ × State)
take_ticket s = do
  next ← checked_inc 64 s.next_ticket
  some (s.next_ticket, record s { next_ticket = next })

-- `if ticket == 0 { ticket = state.take_ticket(); }`
pub ensure_ticket : ℕ → State → Option (ℕ × State)
unfolding take_ticket
ensure_ticket ticket s = if ticket == 0 then take_ticket s else some (ticket, s)

-- `state.serviced_tickets >= ticket - 1`, which is evaluated only where the tests before it pass.
pub is_turn : Bool → ℕ → State → Option Bool
is_turn false ticket s = some false
is_turn true ticket s = do before ← checked_dec ticket; some (leb before s.serviced_tickets)

-- The first closure of `try_read`.
pub try_read : ℕ → ℕ → Deadline → Bool → ℕ → State → Option (Turn Local State)
unfolding ensure_ticket is_turn
try_read t u deadline acquired ticket s = do
  (ticket', s') ← ensure_ticket ticket s
  free ← is_turn (not acquired && not s'.writer) ticket' s'
  readers ← if free then checked_inc 32 s'.readers else some s'.readers
  serviced ← if free then checked_inc 64 s'.serviced_tickets else some s'.serviced_tickets
  (deadline', reply) ← or_wait t u deadline (acquired || free) notify_all
  some (record {
    locals = reading deadline' (acquired || free) ticket';
    state = record s' { readers = readers; serviced_tickets = serviced };
    directive = reply;
  })

-- The second closure of `try_read`, after a time-out: the ticket counts as serviced.
pub read_skip : Bool → State → Option (Turn Local State)
read_skip inc_serviced s = do
  serviced ← if inc_serviced then some s.serviced_tickets else checked_inc 64 s.serviced_tickets
  some (record {
    locals = read_skipping true;
    state = record s { serviced_tickets = serviced };
    directive = notify_all;
  })

-- The closure of `read_unlock`.
pub read_unlock : Bool → State → Option (Turn Local State)
read_unlock released s = do
  debug_assert (released || ltb 0 s.readers)
  debug_assert (released || not s.writer)
  readers ← if released then some s.readers else checked_dec s.readers
  some (record {
    locals = read_unlocking true;
    state = record s { readers = readers };
    directive = if leb readers 1 then notify_all else return;
  })

-- The first closure of `try_write`.
pub try_write : ℕ → ℕ → Deadline → Bool → ℕ → State → Option (Turn Local State)
unfolding ensure_ticket is_turn
try_write t u deadline acquired ticket s = do
  (ticket', s') ← ensure_ticket ticket s
  free ← is_turn (not acquired && s'.readers == 0 && not s'.writer) ticket' s'
  serviced ← if free then checked_inc 64 s'.serviced_tickets else some s'.serviced_tickets
  (deadline', reply) ← or_wait t u deadline (acquired || free) notify_all
  some (record {
    locals = writing deadline' (acquired || free) ticket';
    state = if free then record s' { writer = true; serviced_tickets = serviced } else s';
    directive = reply;
  })

-- The second closure of `try_write`, after a time-out: the ticket counts as serviced.
pub write_skip : Bool → State → Option (Turn Local State)
write_skip inc_serviced s = do
  serviced ← if inc_serviced then some s.serviced_tickets else checked_inc 64 s.serviced_tickets
  some (record {
    locals = write_skipping true;
    state = record s { serviced_tickets = serviced };
    directive = notify_all;
  })

-- The closure of `write_unlock`.
pub write_unlock : Bool → State → Option (Turn Local State)
write_unlock released s = do
  debug_assert (released || s.readers == 0)
  debug_assert (released || s.writer)
  some (record {
    locals = write_unlocking true;
    state = if released then s else record s { writer = false };
    directive = notify_all;
  })

-- The closure of `downgrade`.
pub downgrade : Bool → State → Option (Turn Local State)
downgrade released s = do
  debug_assert (released || s.readers == 0)
  debug_assert (released || s.writer)
  some (record {
    locals = downgrading true;
    state = if released then s else record s { writer = false; readers = 1 };
    directive = notify_all;
  })

-- The closure of `try_upgrade`.
pub try_upgrade : ℕ → ℕ → Deadline → Bool → State → Option (Turn Local State)
try_upgrade t u deadline acquired s = do
  let free = not acquired && s.readers == 1
  debug_assert (not free || not s.writer)
  (deadline', reply) ← or_wait t u deadline (acquired || free) return
  some (record {
    locals = upgrading deadline' (acquired || free);
    state = if free then record s { readers = 0; writer = true } else s;
    directive = reply;
  })

unfoldable pub begin : Kind → ℕ → Local
begin Kind.try_read duration = reading (lazy_after duration) false 0
begin Kind.read_unlock _ = read_unlocking false
begin Kind.try_write duration = writing (lazy_after duration) false 0
begin Kind.write_unlock _ = write_unlocking false
begin Kind.downgrade _ = downgrading false
begin Kind.try_upgrade duration = upgrading (lazy_after duration) false

unfoldable pub eval : ℕ → ℕ → Local → State → Option (Turn Local State)
unfolding try_read read_skip read_unlock try_write write_skip write_unlock downgrade try_upgrade
eval t u (reading deadline acquired ticket) s = try_read t u deadline acquired ticket s
eval t u (read_skipping inc_serviced) s = read_skip inc_serviced s
eval t u (read_unlocking released) s = read_unlock released s
eval t u (writing deadline acquired ticket) s = try_write t u deadline acquired ticket s
eval t u (write_skipping inc_serviced) s = write_skip inc_serviced s
eval t u (write_unlocking released) s = write_unlock released s
eval t u (downgrading released) s = downgrade released s
eval t u (upgrading deadline acquired) s = try_upgrade t u deadline acquired s

-- `if !acquired { … }`: the second `enter` is made only if the first one has given up.
unfoldable pub exit : Local → Exit Local
exit (reading _ acquired _) = if acquired then done true else again (read_skipping false)
exit (read_skipping _) = done false
exit (writing _ acquired _) = if acquired then done true else again (write_skipping false)
exit (write_skipping _) = done false
exit (upgrading _ acquired) = done acquired
exit _ = done true

abbrev pub kind : Local → Kind
kind (reading _ _ _) = Kind.try_read
kind (read_skipping _) = Kind.try_read
kind (read_unlocking _) = Kind.read_unlock
kind (writing _ _ _) = Kind.try_write
kind (write_skipping _) = Kind.try_write
kind (write_unlocking _) = Kind.write_unlock
kind (downgrading _) = Kind.downgrade
kind (upgrading _ _) = Kind.try_upgrade

-- `acquired` or `released`.
abbrev pub granted : Local → Bool
granted (reading _ acquired _) = acquired
granted (read_skipping _) = false
granted (read_unlocking released) = released
granted (writing _ acquired _) = acquired
granted (write_skipping _) = false
granted (write_unlocking released) = released
granted (downgrading released) = released
granted (upgrading _ acquired) = acquired

-- A ticket taken and not yet serviced.
abbrev pub debt : Local → ℕ
debt (reading _ acquired ticket) = flag (not acquired && not (ticket == 0))
debt (read_skipping inc_serviced) = flag (not inc_serviced)
debt (writing _ acquired ticket) = flag (not acquired && not (ticket == 0))
debt (write_skipping inc_serviced) = flag (not inc_serviced)
debt _ = 0

-- By the time that `enter` returns a ticket has been taken, and a release or a skip made.
abbrev pub settled : Local → Bool
settled (reading _ _ ticket) = not (ticket == 0)
settled (read_skipping inc_serviced) = inc_serviced
settled (read_unlocking released) = released
settled (writing _ _ ticket) = not (ticket == 0)
settled (write_skipping inc_serviced) = inc_serviced
settled (write_unlocking released) = released
settled (downgrading released) = released
settled (upgrading _ _) = true

-- No ticket is taken after the acquisition.
abbrev pub ready : Local → Bool
ready (reading _ acquired ticket) = not acquired || not (ticket == 0)
ready (writing _ acquired ticket) = not acquired || not (ticket == 0)
ready _ = true

-- Tickets start from 1; each one taken is serviced or still owed.
abbrev pub Tally : State → ℕ → ℕ → Type 0
Tally s debts _ = s.serviced_tickets + debts + 1 ≡ s.next_ticket

abbrev pub Room : State → Type 0
Room s = (s.readers + 1 < 2 ^ 32) × (s.next_ticket + 1 < 2 ^ 64)

abbrev pub arrival_ordered : Moderator
arrival_ordered = record {
  State = State;
  Local = Local;
  new = new;
  begin = begin;
  eval = eval;
  exit = exit;
  readers = λ s. s.readers;
  writer = λ s. s.writer;
  kind = kind;
  granted = granted;
  debt = debt;
  place_in_queue = λ _. 0;
  ready = ready;
  settled = settled;
  Tally = Tally;
  Room = Room;
}
