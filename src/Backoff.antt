-- ===== src/Backoff.antt =====
-- anode/src/backoff.rs: exponential backoff as an unbounded iterator of actions.
pub mod Schedule
use libmutex.Prelude.{
  ℕ, ◌+◌, ◌-◌, ◌*◌, ◌^◌, Option, none, some, leb, ltb, if◌then◌else◌, checked_inc, debug_assert,
  ◌>>=◌, ◌>>◌,
}
use libmutex.Time.{duration_max}
use libmutex.Rand.{u64_max}

-- `NonzeroDuration::new`
unfoldable pub nonzero : ℕ → Option ℕ
nonzero duration = do debug_assert (ltb 0 duration); some duration

-- `NonzeroDuration::default`
abbrev pub nonzero_default : ℕ
nonzero_default = 1

pub record ExpBackoff : Type 0 where
  pub spin_iters : ℕ  -- u64
  pub yield_iters : ℕ  -- u64
  pub min_sleep : ℕ
  pub max_sleep : ℕ

unfoldable pub spinny : ExpBackoff
spinny = record {
  spin_iters = u64_max;
  yield_iters = 0;
  min_sleep = nonzero_default;
  max_sleep = nonzero_default;
}

unfoldable pub yieldy : ExpBackoff
yieldy = record {
  spin_iters = 0;
  yield_iters = u64_max;
  min_sleep = nonzero_default;
  max_sleep = nonzero_default;
}

-- From 100 microseconds to 10 milliseconds.
unfoldable pub sleepy : Option ExpBackoff
unfolding nonzero
sleepy = do
  shortest ← nonzero 100_000
  longest ← nonzero 10_000_000
  some (record { spin_iters = 0; yield_iters = 0; min_sleep = shortest; max_sleep = longest })

pub record ExpBackoffIter : Type 0 where
  pub spin_limit : ℕ  -- u64
  pub yield_limit : ℕ  -- u64
  pub max_sleep : ℕ
  pub iterations : ℕ  -- u64
  pub current_sleep : ℕ

-- `u64::saturating_add`
unfoldable pub saturating_add : ℕ → ℕ → ℕ
saturating_add a b = if leb (a + b) u64_max then a + b else u64_max

unfoldable pub into_inf_iter : ExpBackoff → ExpBackoffIter
unfolding saturating_add
into_inf_iter b = record {
  spin_limit = b.spin_iters;
  yield_limit = saturating_add b.spin_iters b.yield_iters;
  max_sleep = b.max_sleep;
  iterations = 0;
  current_sleep = b.min_sleep;
}

pub data ExpBackoffAction : Type 0 where
  nop : ExpBackoffAction
  yield_now : ExpBackoffAction
  sleep : ℕ → ExpBackoffAction

-- `Duration * 2`, which panics beyond `Duration::MAX`.
abbrev pub checked_double : ℕ → Option ℕ
checked_double d = if leb (d * 2) duration_max then some (d * 2) else none

-- `ExpBackoffIter::next`
unfoldable pub next : ExpBackoffIter → Option (ExpBackoffAction × ExpBackoffIter)
next it = do
  iterations ← checked_inc 64 it.iterations
  let it' = record it { iterations = iterations }
  if leb iterations it.spin_limit
      then some (nop, it')
      else if leb iterations it.yield_limit
      then some (yield_now, it')
      else do
        new_sleep ← checked_double it.current_sleep
        some (
          sleep it.current_sleep,
          record it' {
            current_sleep = if leb new_sleep it.max_sleep then new_sleep else it.max_sleep;
          },
        )

-- What the thread does: `ExpBackoffAction::act`, `draw` being `next_range` of the randomness.
pub data Pause : Type 0 where
  no_pause yielded : Pause
  slept : ℕ → Pause

unfoldable pub act : (ℕ → ℕ → ℕ) → ExpBackoffAction → Pause
act draw nop = no_pause
act draw yield_now = yielded
act draw (sleep duration) = slept (draw 0 duration)
