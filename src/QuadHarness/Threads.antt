-- ===== src/QuadHarness/Threads.antt =====
-- anode-bench/src/quad_harness.rs: one thread of `run`. A thread is a phase of its loop with its
-- variables; what it holds of the lock is its status there. `debug_locks` and `debug_exits` only
-- print, and `yield_a_while` only gives way; a spin (Spin) may overflow and panic. The
-- counts of iterations are taken to stay below 2 ^ 64.
use libmutex.Prelude.{
  ℕ, ◌+◌, ◌%◌, ◌≤◌, ◌≡◌, Bool, true, false, not, ◌&&◌, ◌||◌, Option, none, some, ltb, ◌==◌,
  if◌then◌else◌,
}
use libmutex.Time.{duration_max}
use libmutex.Zlock.Moderator.{
  Kind, try_read, read_unlock, try_write, write_unlock, downgrade, try_upgrade,
}
use libmutex.QuadHarness.Spin.{spin_a_while}
use libmutex.Zlock.System.{Status, idle, reader, writer, entering, evaluated}

-- The trait. The counter of the harness is never negative; `none` is an overflow of `add`.
pub record Addable (T : Type 0) : Type 0 where
  pub initial : T
  pub get : T → ℕ
  pub add : T → ℕ → Option T
  -- The sums from here on overflow.
  pub limit : ℕ

-- What the harness needs of the trait.
pub record AddableLaws {T : Type 0} (a : Addable T) : Type 0 where
  pub get-initial : a.get a.initial ≡ 0
  pub get-add : (v v' : T) (amount : ℕ) → a.add v amount ≡ some v' → a.get v' ≡ a.get v + amount
  pub add-none : (v : T) (amount : ℕ) → a.add v amount ≡ none → a.limit ≤ a.get v + amount

pub record Options : Type 0 where
  pub readers : ℕ
  pub writers : ℕ
  pub downgraders : ℕ
  pub upgraders : ℕ

pub record ExtendedOptions : Type 0 where
  pub time_check_interval : ℕ
  pub read_timeout : ℕ
  pub write_timeout : ℕ
  pub upgrade_timeout : ℕ
  pub spin_inside_critical : ℕ  -- u32
  pub spin_outside_critical : ℕ  -- u32
  pub asserts_enabled : Bool

abbrev pub default : ExtendedOptions
default = record {
  time_check_interval = 100;
  read_timeout = duration_max;
  write_timeout = duration_max;
  upgrade_timeout = 0;
  spin_inside_critical = 0;
  spin_outside_critical = 0;
  asserts_enabled = true;
}

pub data Role : Type 0 where
  reading writing downgrading upgrading : Role

-- The threads in the order in which they are made.
abbrev pub role_of : Options → ℕ → Role
role_of o i =
    if ltb i o.readers
    then reading
    else if ltb i (o.readers + o.writers)
    then writing
    else if ltb i (o.readers + o.writers + o.downgraders)
    then downgrading
    else upgrading

abbrev pub number : Options → ℕ
number o = o.readers + o.writers + o.downgraders + o.upgraders

-- Where a thread stands.
pub data Phase (T : Type 0) : Type 0 where
  -- At the condition of the `while`.
  head : Phase T
  -- In `read_eventually` or `write_eventually`.
  acquiring : Phase T
  -- At `val.get()` and the assertion on it.
  checking : Phase T
  -- At `*val = val.add(1)`: before the value has been read, and with it.
  loading : Phase T
  adding : T → Phase T
  -- In `L::downgrade(val)`.
  converting : Phase T
  -- Before `L::try_upgrade(val, …)`, and in it.
  offering : Phase T
  trying : Phase T
  -- At the end of the inner block, where the guard is dropped.
  dropping : Phase T
  returned : Phase T
  panicked : Phase T

pub record Thread (T : Type 0) : Type 0 where
  pub role : Role
  pub phase : Phase T
  pub iterations : ℕ  -- u64
  pub last_val : ℕ  -- i64
  pub missed_upgrades : ℕ
  -- A panic in an operation of the lock has ended the thread there.
  pub unwound : Bool

abbrev pub is_idle : {L : Type 0} → Status L → Bool
is_idle idle = true
is_idle _ = false

abbrev pub is_reader : {L : Type 0} → Status L → Bool
is_reader reader = true
is_reader _ = false

abbrev pub is_writer : {L : Type 0} → Status L → Bool
is_writer writer = true
is_writer _ = false

-- In an operation of the lock.
abbrev pub is_busy : {L : Type 0} → Status L → Bool
is_busy (entering _) = true
is_busy (evaluated _ _) = true
is_busy _ = false

-- The lock that a thread takes first: `read_eventually` or `write_eventually`.
abbrev pub takes_write : Role → Bool
takes_write reading = false
takes_write writing = true
takes_write downgrading = true
takes_write upgrading = false

-- Where the thread goes on with its guard, after the assertion, and after the addition.
abbrev pub after_acquire : {T : Type 0} → Role → Phase T
after_acquire role = if takes_write role then loading else checking

abbrev pub after_check : {T : Type 0} → Role → Phase T
after_check upgrading = offering
after_check _ = dropping

abbrev pub after_add : {T : Type 0} → Role → Phase T
after_add downgrading = converting
after_add _ = dropping

-- `iterations % time_check_interval != 0 || running.load(…)`; the remainder by 0 panics.
abbrev pub goes_on : ℕ → Bool → ℕ → Option Bool
goes_on interval running iterations =
    if interval == 0 then none else some (not (iterations % interval == 0) || running)

abbrev pub at_head : {T : Type 0} → Option Bool → Phase T
at_head none = panicked
at_head (some true) = acquiring
at_head (some false) = returned

-- Where the thread goes on after a spin.
abbrev pub after_spin : {T : Type 0} → Option (Unit {0}) → Phase T → Phase T
after_spin none next = panicked
after_spin (some _) next = next

module _ {T : Type 0} (a : Addable T) where
  -- A step of the thread alone, given the flag, the content of the lock and its own status there.
  unfoldable pub act :
      {L : Type 0} → ExtendedOptions → Bool → T → Status L → Phase T → Thread T → Option (Thread T)
  act ext running content p head t =
      some (record t { phase = at_head (goes_on ext.time_check_interval running t.iterations) })
  act ext running content p acquiring t =
      if (if takes_write t.role then is_writer p else is_reader p)
      then some (record t {
        phase = after_spin (spin_a_while ext.spin_inside_critical) (after_acquire t.role);
      })
      else none
  act ext running content p checking t =
      let current = a.get content in
      if ext.asserts_enabled && ltb current t.last_val
      then some (record t { phase = panicked })
      else some (record t { phase = after_check t.role; last_val = current })
  act ext running content p loading t = some (record t { phase = adding content })
  act ext running content p (adding _) t = none
  act ext running content p converting t =
      if is_reader p then some (record t { phase = checking }) else none
  act ext running content p offering t = none
  act ext running content p trying t =
      if is_writer p
      then some (record t { phase = after_spin (spin_a_while ext.spin_inside_critical) loading })
      else if is_reader p
      then some (record t { phase = dropping; missed_upgrades = t.missed_upgrades + 1 })
      else none
  act ext running content p dropping t =
      if is_idle p
      then some (record t {
        phase = after_spin (spin_a_while ext.spin_outside_critical) head;
        iterations = t.iterations + 1;
      })
      else none
  act ext running content p returned t = none
  act ext running content p panicked t = none

-- The operation of the lock that a thread calls next, with its time limit, and where it then is.
unfoldable pub calls :
    {L T : Type 0} → ExtendedOptions → Status L → Role → Phase T → Option (Kind × ℕ × Phase T)
calls ext p role acquiring =
    if is_idle p
    then some (
        if takes_write role
        then (try_write, ext.write_timeout, acquiring)
        else (try_read, ext.read_timeout, acquiring))
    else none
calls ext p role converting = if is_writer p then some (downgrade, 0, converting) else none
calls ext p role offering =
    if is_reader p then some (try_upgrade, ext.upgrade_timeout, trying) else none
calls ext p role dropping =
    if is_reader p
    then some (read_unlock, 0, dropping)
    else if is_writer p
    then some (write_unlock, 0, dropping)
    else none
-- A panic drops the guard too.
calls ext p role panicked =
    if is_reader p
    then some (read_unlock, 0, panicked)
    else if is_writer p
    then some (write_unlock, 0, panicked)
    else none
calls ext p role _ = none
