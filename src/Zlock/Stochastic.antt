-- ===== src/Zlock/Stochastic.antt =====
-- anode/src/zlock/stochastic.rs: a pending writer holds new readers back, but for some that
-- are let past by chance. The closures given to `enter`, and the moderator that they make. There
-- are no floats here: `cutoff position` is the bound that `Rand::next_bool` computes from the
-- probability `1.0 / (position as f64 + 2.0)`, a parameter.
pub mod Laws
pub mod Patience
use libmutex.Prelude.{
  ℕ, ◌+◌, ◌<◌, ◌^◌, Bool, true, false, not, ◌≡◌, ◌&&◌, ◌||◌, Option, none, some, ltb, leb, ◌==◌,
  if◌then◌else◌, debug_assert, checked_inc, checked_dec, ◌>>=◌, ◌>>◌,
}
use libmutex.Rand.{cyclic_next, xorshift, xorshift_next, xorshift_seed, next_bool}
use libmutex.Deadline.{Deadline, lazy_after}
use libmutex.Monitor.{Directive, return, notify_all, Turn, or_wait}
use libmutex.Zlock.Moderator.{Kind, Exit, again, done, Moderator, flag}

pub record State : Type 0 where
  pub readers : ℕ  -- u32
  pub writer : Bool
  pub writer_pending : Bool
  pub queued : ℕ  -- u32
  pub seed : ℕ  -- CyclicSeed

-- The captured variables of each operation's closure. An operation that has set `writer_pending`
-- calls `enter` a second time, to clear it.
pub data Local : Type 0 where
  reading :
      (deadline : Deadline) (acquired saw_no_pending_writer privilege_determined : Bool)
      (position : Option ℕ)
      → Local
  read_leaving : (left : Bool) → Local
  read_unlocking : (released : Bool) → Local
  writing : (deadline : Deadline) (acquired self_writer_pending : Bool) → Local
  write_clearing : (acquired cleared_writer_pending : Bool) → Local
  write_unlocking : (released : Bool) → Local
  downgrading : (released : Bool) → Local
  upgrading : (deadline : Deadline) (acquired self_writer_pending : Bool) → Local
  upgrade_clearing : (acquired cleared_writer_pending : Bool) → Local

unfoldable pub new : State
new = record { readers = 0; writer = false; writer_pending = false; queued = 0; seed = 0 }

-- The position taken, and the state after it.
pub enqueue : State → Option (ℕ × State)
enqueue s = do queued ← checked_inc 32 s.queued; some (s.queued, record s { queued = queued })

-- `if position.is_none() { position = Some(state.enqueue()); }`
pub ensure_position : Option ℕ → State → Option (ℕ × State)
unfolding enqueue
ensure_position none s = enqueue s
ensure_position (some position) s = some (position, s)

-- What the first part of the closure of `try_read` computes: `saw_no_pending_writer`,
-- `privilege_determined` and `position`, with the state.
pub record Privilege : Type 0 where
  pub saw : Bool
  pub determined : Bool
  pub position : Option ℕ
  pub state : State

module _ (cutoff : ℕ → ℕ) where
  -- The draw for a reader at a position below 64, which takes the next seed of `CyclicSeed`.
  unfoldable pub draw : ℕ → ℕ → Bool × ℕ
  unfolding cyclic_next xorshift_seed next_bool xorshift_next
  draw position cyclic =
      let (seed, cyclic') = cyclic_next cyclic in
      let (privileged, rng) = next_bool xorshift (cutoff position) (xorshift_seed seed) in
      (privileged, cyclic')

  -- The part under `if !acquired { if !saw_no_pending_writer {`.
  unfoldable pub seek_privilege : Bool → ℕ → State → Privilege
  seek_privilege determined position s =
      if not s.writer_pending
      then record { saw = true; determined = determined; position = some position; state = s }
      else if not determined && ltb position 64
      then (let (privileged, seed) = draw position s.seed in
          record {
            saw = privileged;
            determined = true;
            position = some position;
            state = record s { seed = seed };
          })
      else record { saw = false; determined = true; position = some position; state = s }

  unfoldable pub privilege : Bool → Bool → Bool → Option ℕ → State → Option Privilege
  unfolding ensure_position
  privilege acquired saw determined position s =
      if acquired || saw
      then some (record { saw = saw; determined = determined; position = position; state = s })
      else do
        (position', s') ← ensure_position position s
        some (seek_privilege determined position' s')

  -- The closure of `try_read`.
  pub try_read :
      ℕ → ℕ → Deadline → Bool → Bool → Bool → Option ℕ → State → Option (Turn Local State)
  try_read t u deadline acquired saw determined position s = do
    p ← privilege acquired saw determined position s
    let s' = p.state
    let free = not acquired && not s'.writer && p.saw
    readers ← if free then checked_inc 32 s'.readers else some s'.readers
    queued ← if acquired || free then checked_dec s'.queued else some s'.queued
    (deadline', reply) ← or_wait t u deadline (acquired || free) return
    some (record {
      locals = reading deadline' (acquired || free) p.saw p.determined p.position;
      state = record s' { readers = readers; queued = queued };
      directive = reply;
    })

-- The call of `alter` after a reader has given up; it evaluates its closure once.
pub read_leave : State → Option (Turn Local State)
read_leave s = do
  queued ← checked_dec s.queued
  some (record {
    locals = read_leaving true;
    state = record s { queued = queued };
    directive = return;
  })

-- The closure of `read_unlock`.
pub read_unlock : Bool → State → Option (Turn Local State)
read_unlock released s = do
  debug_assert (released || ltb 0 s.readers)
  debug_assert (released || not s.writer)
  readers ← if released then some s.readers else checked_dec s.readers
  some (record {
    locals = read_unlocking true;
    state = record s { readers = readers };
    directive = if leb readers 1 then notify_all else return;
  })

-- The first closure of `try_write`.
pub try_write : ℕ → ℕ → Deadline → Bool → Bool → State → Option (Turn Local State)
try_write t u deadline acquired self_pending s = do
  let free = not acquired && s.readers == 0 && not s.writer
  let mark = not acquired && not free && not s.writer_pending
  (deadline', reply) ← or_wait t u deadline (acquired || free) return
  some (record {
    locals = writing deadline' (acquired || free) (self_pending || mark);
    state =
        if free
        then record s { writer = true }
        else if mark
        then record s { writer_pending = true }
        else s;
    directive = reply;
  })

-- The second closure of `try_write`.
pub write_clear : Bool → Bool → State → Option (Turn Local State)
write_clear acquired cleared s = some (record {
  locals = write_clearing acquired true;
  state = if cleared then s else record s { writer_pending = false };
  directive = if acquired then return else notify_all;
})

-- The closure of `write_unlock`.
pub write_unlock : Bool → State → Option (Turn Local State)
write_unlock released s = do
  debug_assert (released || s.readers == 0)
  debug_assert (released || s.writer)
  some (record {
    locals = write_unlocking true;
    state = if released then s else record s { writer = false };
    directive = notify_all;
  })

-- The closure of `downgrade`.
pub downgrade : Bool → State → Option (Turn Local State)
downgrade released s = do
  debug_assert (released || s.readers == 0)
  debug_assert (released || s.writer)
  some (record {
    locals = downgrading true;
    state = if released then s else record s { writer = false; readers = 1 };
    directive = notify_all;
  })

-- The first closure of `try_upgrade`.
pub try_upgrade : ℕ → ℕ → Deadline → Bool → Bool → State → Option (Turn Local State)
try_upgrade t u deadline acquired self_pending s = do
  debug_assert (acquired || not s.writer)
  let free = not acquired && s.readers == 1
  let mark = not acquired && not free && not s.writer_pending
  (deadline', reply) ← or_wait t u deadline (acquired || free) return
  some (record {
    locals = upgrading deadline' (acquired || free) (self_pending || mark);
    state =
        if free
        then record s { readers = 0; writer = true }
        else if mark
        then record s { writer_pending = true }
        else s;
    directive = reply;
  })

-- The second closure of `try_upgrade`.
pub upgrade_clear : Bool → Bool → State → Option (Turn Local State)
upgrade_clear acquired cleared s = some (record {
  locals = upgrade_clearing acquired true;
  state = if cleared then s else record s { writer_pending = false };
  directive = if acquired then return else notify_all;
})

unfoldable pub begin : Kind → ℕ → Local
begin Kind.try_read duration = reading (lazy_after duration) false false false none
begin Kind.read_unlock _ = read_unlocking false
begin Kind.try_write duration = writing (lazy_after duration) false false
begin Kind.write_unlock _ = write_unlocking false
begin Kind.downgrade _ = downgrading false
begin Kind.try_upgrade duration = upgrading (lazy_after duration) false false

unfoldable pub eval : (ℕ → ℕ) → ℕ → ℕ → Local → State → Option (Turn Local State)
unfolding try_read read_leave read_unlock try_write write_clear write_unlock downgrade try_upgrade
    upgrade_clear
eval cutoff t u (reading deadline acquired saw determined position) s =
    try_read cutoff t u deadline acquired saw determined position s
eval cutoff t u (read_leaving left) s = read_leave s
eval cutoff t u (read_unlocking released) s = read_unlock released s
eval cutoff t u (writing deadline acquired self_pending) s =
    try_write t u deadline acquired self_pending s
eval cutoff t u (write_clearing acquired cleared) s = write_clear acquired cleared s
eval cutoff t u (write_unlocking released) s = write_unlock released s
eval cutoff t u (downgrading released) s = downgrade released s
eval cutoff t u (upgrading deadline acquired self_pending) s =
    try_upgrade t u deadline acquired self_pending s
eval cutoff t u (upgrade_clearing acquired cleared) s = upgrade_clear acquired cleared s

-- A second `enter` is made only if the operation itself has set `writer_pending`; a reader that
-- gives up leaves the queue.
unfoldable pub exit : Local → Exit Local
exit (reading _ acquired _ _ _) = if acquired then done true else again (read_leaving false)
exit (read_leaving _) = done false
exit (writing _ acquired self_pending) =
    if self_pending then again (write_clearing acquired false) else done acquired
exit (write_clearing acquired _) = done acquired
exit (upgrading _ acquired self_pending) =
    if self_pending then again (upgrade_clearing acquired false) else done acquired
exit (upgrade_clearing acquired _) = done acquired
exit _ = done true

abbrev pub kind : Local → Kind
kind (reading _ _ _ _ _) = Kind.try_read
kind (read_leaving _) = Kind.try_read
kind (read_unlocking _) = Kind.read_unlock
kind (writing _ _ _) = Kind.try_write
kind (write_clearing _ _) = Kind.try_write
kind (write_unlocking _) = Kind.write_unlock
kind (downgrading _) = Kind.downgrade
kind (upgrading _ _ _) = Kind.try_upgrade
kind (upgrade_clearing _ _) = Kind.try_upgrade

-- `acquired` or `released`.
abbrev pub granted : Local → Bool
granted (reading _ acquired _ _ _) = acquired
granted (read_leaving _) = false
granted (read_unlocking released) = released
granted (writing _ acquired _) = acquired
granted (write_clearing acquired _) = acquired
granted (write_unlocking released) = released
granted (downgrading released) = released
granted (upgrading _ acquired _) = acquired
granted (upgrade_clearing acquired _) = acquired

-- The `writer_pending` that this operation has set and not yet cleared.
abbrev pub debt : Local → ℕ
debt (writing _ _ self_pending) = flag self_pending
debt (write_clearing _ cleared) = flag (not cleared)
debt (upgrading _ _ self_pending) = flag self_pending
debt (upgrade_clearing _ cleared) = flag (not cleared)
debt _ = 0

abbrev pub has_position : Option ℕ → Bool
has_position none = false
has_position (some _) = true

-- A reader counts in `queued` from its first evaluation until it has acquired or left.
abbrev pub place_in_queue : Local → ℕ
place_in_queue (reading _ acquired _ _ position) = flag (has_position position && not acquired)
place_in_queue (read_leaving left) = flag (not left)
place_in_queue _ = 0

-- No evaluation follows the acquisition of a read, or the leaving. A reader that has seen no
-- pending writer has a position.
abbrev pub ready : Local → Bool
ready (reading _ acquired saw _ position) = not acquired && (has_position position || not saw)
ready (read_leaving left) = not left
ready _ = true

-- A release, a clearing or a leaving has been made by the time that its call returns, and a
-- reader has had a position.
abbrev pub settled : Local → Bool
settled (reading _ _ _ _ position) = has_position position
settled (read_leaving left) = left
settled (read_unlocking released) = released
settled (write_unlocking released) = released
settled (downgrading released) = released
settled (write_clearing _ cleared) = cleared
settled (upgrade_clearing _ cleared) = cleared
settled _ = true

-- `writer_pending` is set exactly while one operation has still to clear it, and `queued` counts
-- the readers in the queue.
abbrev pub Tally : State → ℕ → ℕ → Type 0
Tally s debts places = (flag s.writer_pending ≡ debts) × (s.queued ≡ places)

abbrev pub Room : State → Type 0
Room s = (s.readers + 1 < 2 ^ 32) × (s.queued + 1 < 2 ^ 32)

abbrev pub stochastic : (ℕ → ℕ) → Moderator
stochastic cutoff = record {
  State = State;
  Local = Local;
  new = new;
  begin = begin;
  eval = eval cutoff;
  exit = exit;
  readers = λ s. s.readers;
  writer = λ s. s.writer;
  kind = kind;
  granted = granted;
  debt = debt;
  place_in_queue = place_in_queue;
  ready = ready;
  settled = settled;
  Tally = Tally;
  Room = Room;
}
