-- ===== src/QuadHarness/Shims.antt =====
-- anode-bench/src/lock_spec.rs and lock_shims.rs: the locks that the harness can measure, by what
-- they are asked to do; `none` is `unimplemented!()`. The locks of other crates are left out.
use libmutex.Prelude.{
  ℕ, ◌<◌, ◌≡◌, ◌≢◌, arith, Bool, true, false, Option, none, some, ◌==◌, if◌then◌else◌,
}
use libmutex.Time.{duration_max}
use libmutex.Zlock.Moderator.{
  Kind, try_read, read_unlock, try_write, write_unlock, downgrade, try_upgrade,
}
use libmutex.Zlock.System.{Status}
use libmutex.QuadHarness.Threads.{
  Addable, Options, ExtendedOptions, Role, Phase, head, acquiring, checking, loading, adding,
  converting, offering, trying, dropping, returned, panicked, role_of, number, calls,
}
use libmutex.QuadHarness.Counter.{Holds}

-- The implementations of `LockSpec`.
pub data Shim : Type 0 where
  zlock rw_lock spin_mutex mutex : Shim

abbrev pub supports_read : Shim → Bool
supports_read zlock = true
supports_read rw_lock = true
supports_read spin_mutex = false
supports_read mutex = false

abbrev pub supports_downgrade : Shim → Bool
supports_downgrade zlock = true
supports_downgrade _ = false

abbrev pub supports_upgrade : Shim → Bool
supports_upgrade zlock = true
supports_upgrade _ = false

-- How the lock behind a shim is asked: to wait, to answer at once, or within a time.
pub data Request : Type 0 where
  blocking immediate : Request
  timed : ℕ → Request

-- A lock with no time limits waits for ever, or not at all.
abbrev pub untimed : ℕ → Request
untimed duration = if duration == duration_max then blocking else immediate

-- The operations, with their `duration`; the drop of a guard is implemented everywhere.
unfoldable pub request : Shim → Kind → ℕ → Option Request
request zlock k duration = some (timed duration)
request rw_lock try_read duration = some (untimed duration)
request rw_lock try_write duration = some (untimed duration)
request rw_lock downgrade duration = none
request rw_lock try_upgrade duration = none
request rw_lock read_unlock duration = some immediate
request rw_lock write_unlock duration = some immediate
request spin_mutex try_write duration = some (untimed duration)
request spin_mutex try_read duration = none
request spin_mutex downgrade duration = none
request spin_mutex try_upgrade duration = none
request spin_mutex read_unlock duration = some immediate
request spin_mutex write_unlock duration = some immediate
request mutex try_write duration = some (untimed duration)
request mutex try_read duration = none
request mutex downgrade duration = none
request mutex try_upgrade duration = none
request mutex read_unlock duration = some immediate
request mutex write_unlock duration = some immediate

-- The threads that `run` makes for a lock.
unfoldable pub supported : Shim → Options → Options
supported s o = record o {
  readers = if supports_read s then o.readers else 0;
  downgraders = if supports_downgrade s then o.downgraders else 0;
  upgraders = if supports_upgrade s then o.upgraders else 0;
}

-- What the threads of a role ask of a lock.
is_supported : Shim → Role → Bool
is_supported s Role.reading = supports_read s
is_supported s Role.writing = true
is_supported s Role.downgrading = supports_downgrade s
is_supported s Role.upgrading = supports_upgrade s

role_of-is_supported :
    (s : Shim) (o : Options) (i : ℕ)
    → i < number (supported s o)
    → is_supported s (role_of (supported s o) i) ≡ true
unfolding supported is_supported
role_of-is_supported zlock o i lt = ground arith
role_of-is_supported rw_lock o i lt = ground arith
role_of-is_supported spin_mutex o i lt = ground arith
role_of-is_supported mutex o i lt = ground arith

calls-request :
    {L T : Type 0} (s : Shim) (a : Addable T) (ext : ExtendedOptions) (content : T) (p : Status L)
    (role : Role) (phase phase' : Phase T) (k : Kind) (d : ℕ)
    → is_supported s role ≡ true
    → Holds ext a content p role phase
    → calls ext p role phase ≡ some (k, d, phase')
    → request s k d ≢ none
unfolding calls request is_supported
calls-request s a ext content p role acquiring phase' k d b held h = ground arith
calls-request s a ext content p role converting phase' k d b held h = ground arith
calls-request s a ext content p role offering phase' k d b held h = ground arith
calls-request s a ext content p role dropping phase' k d b held h = ground arith
calls-request s a ext content p role panicked phase' k d b held h = ground arith
calls-request s a ext content p role head phase' k d b held h = absurd cc
calls-request s a ext content p role checking phase' k d b held h = absurd cc
calls-request s a ext content p role loading phase' k d b held h = absurd cc
calls-request s a ext content p role (adding v) phase' k d b held h = absurd cc
calls-request s a ext content p role trying phase' k d b held h = absurd cc
calls-request s a ext content p role returned phase' k d b held h = absurd cc

-- `run` makes no thread that calls an operation that its lock does not implement.
pub calls-implemented :
    {L T : Type 0} (s : Shim) (o : Options) (i : ℕ) (a : Addable T) (ext : ExtendedOptions)
    (content : T) (p : Status L) (phase phase' : Phase T) (k : Kind) (d : ℕ)
    → i < number (supported s o)
    → Holds ext a content p (role_of (supported s o) i) phase
    → calls ext p (role_of (supported s o) i) phase ≡ some (k, d, phase')
    → request s k d ≢ none
calls-implemented s o i a ext content p phase phase' k d lt held h =
    calls-request s a ext content p (role_of (supported s o) i) phase phase' k d
      (role_of-is_supported s o i lt) held h
