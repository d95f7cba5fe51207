-- ===== src/Monitor/Defs.antt =====
-- anode/src/monitor.rs: directives, and one evaluation of the closure given to `enter`.
use libmutex.Prelude.{◌==◌, ℕ, Bool, true, false, not, Option, ◌>>=◌, some}
use libmutex.Time.{duration_max, is_zero}
use libmutex.Deadline.{Deadline, remaining}

pub data Directive : Type 0 where
  return : Directive
  wait : ℕ → Directive
  notify_one : Directive
  notify_all : Directive

-- What an evaluation of the closure leaves: the variables that it captures, the state of the
-- monitor, and the directive.
pub record Turn (L S : Type 0) : Type 0 where
  pub locals : L
  pub state : S
  pub directive : Directive

-- May `enter` evaluate the closure again after this directive? Not after `Return`, nor after
-- `Wait` with no time left. After a notification it may: it goes round once to take the mutex.
abbrev pub may_repeat : Directive → Bool
may_repeat return = false
may_repeat (wait d) = not (is_zero d)
may_repeat notify_one = true
may_repeat notify_all = true

-- May `enter` return after this directive? Not while the closure waits without a time limit.
abbrev pub may_finish : Directive → Bool
may_finish (wait d) = not (d == duration_max)
may_finish _ = true

-- `if acquired { … } else { Directive::Wait(deadline.remaining()) }`, the end of every closure
-- that tries to acquire: the deadline's new value and the directive.
abbrev pub or_wait : ℕ → ℕ → Deadline → Bool → Directive → Option (Deadline × Directive)
or_wait t u d true reply = some (d, reply)
or_wait t u d false reply = let (d', left) = remaining t u d in left >>= λ r. some (d', wait r)
