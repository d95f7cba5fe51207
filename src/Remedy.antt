-- ===== src/Remedy.antt =====
-- anode/src/remedy.rs: lock results with the poison disregarded, and the wait on a condition.
use libmutex.Prelude.{ℕ, Bool, true, false, Option, none, some, if◌then◌else◌, ◌==◌}
use libmutex.Time.{duration_max, is_zero}

-- `std::sync::LockResult`: a poisoned lock carries the guard too.
pub data LockResult (T : Type 0) : Type 0 where
  ok : T → LockResult T
  poisoned : T → LockResult T

-- `std::sync::TryLockResult`
pub data TryLockResult (T : Type 0) : Type 0 where
  acquired : T → TryLockResult T
  try_poisoned : T → TryLockResult T
  would_block : TryLockResult T

unfoldable pub remedy : {T : Type 0} → LockResult T → T
remedy (ok inner) = inner
remedy (poisoned error) = error

unfoldable pub try_remedy : {T : Type 0} → TryLockResult T → Option T
try_remedy (acquired inner) = some inner
try_remedy (try_poisoned error) = some error
try_remedy would_block = none

-- `std::sync::Condvar`, as far as `cond_wait_remedy` uses it: a wait without and with a time
-- limit, each giving the guard back; the second also says whether it timed out.
pub record Condvar (G : Type 0) : Type 0 where
  pub wait : G → LockResult G
  pub wait_timeout : G → ℕ → LockResult (G × Bool)

unfoldable pub cond_wait_remedy : {G : Type 0} → Condvar G → G → ℕ → G × Bool
unfolding remedy
cond_wait_remedy cond guard duration =
    if is_zero duration
    then (guard, true)
    else if duration == duration_max
    then (remedy (cond.wait guard), false)
    else remedy (cond.wait_timeout guard duration)
