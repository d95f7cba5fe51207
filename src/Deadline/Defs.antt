-- ===== src/Deadline/Defs.antt =====
-- anode/src/deadline.rs: the type and its operations.
use libmutex.Prelude.{Bool, true, false, ℕ, ◌-◌, Option, none, some, ◌==◌, if◌then◌else◌}
use libmutex.Time.{duration_max, instant-checked_add}

pub data Deadline : Type 0 where
  point : ℕ → Deadline
  forever : Deadline
  uninitialized : ℕ → Deadline
  elapsed : Deadline

unfoldable pub lazy_after : ℕ → Deadline
lazy_after duration = uninitialized duration

abbrev from_sum : Option ℕ → Deadline
from_sum none = forever
from_sum (some instant) = point instant

pub saturating_add : ℕ → ℕ → Deadline
saturating_add instant duration = from_sum (instant-checked_add instant duration)

unfoldable pub ensure_initialized : ℕ → Deadline → Deadline
unfolding saturating_add
ensure_initialized now (uninitialized duration) =
    if duration == duration_max
    then forever
    else if duration == 0
    then elapsed
    else saturating_add now duration
ensure_initialized now d = d

unfoldable pub after : ℕ → ℕ → Deadline
unfolding lazy_after ensure_initialized
after now duration = ensure_initialized now (lazy_after duration)

-- The match of `remaining`; the last clause is the code's `unreachable!()`.
abbrev pub left : ℕ → Deadline → Option ℕ
left now (point instant) = some (instant - now)
left now forever = some duration_max
left now elapsed = some 0
left now (uninitialized _) = none

-- The new value of the deadline, and the time left, `none` being a panic.
unfoldable pub remaining : ℕ → ℕ → Deadline → Deadline × Option ℕ
unfolding ensure_initialized
remaining first second d = let d' = ensure_initialized first d in (d', left second d')

-- A deadline that never comes.
abbrev pub is_endless : Deadline → Bool
is_endless forever = true
is_endless (uninitialized duration) = duration == duration_max
is_endless _ = false
