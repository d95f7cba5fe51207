-- ===== src/Wait.antt =====
-- anode/src/wait.rs: the spin wait. `condition k` is what the `k`-th call of the condition gives,
-- `first k` and `second k` what `remaining` reads from the clock in round `k`.
pub mod Rounds
use libmutex.Prelude.{ℕ, zero, suc, Bool, true, false, Option, none, some, if◌then◌else◌}
use libmutex.Time.{is_zero}
use libmutex.Deadline.{Deadline, lazy_after, remaining}
use libmutex.Rand.Range.{fixed_range}
use libmutex.Backoff.{
  ExpBackoff, ExpBackoffIter, ExpBackoffAction, sleepy, into_inf_iter, next, Pause, act,
}

-- `WaitResult`, which is `Result<(), ()>`.
pub data WaitResult : Type 0 where
  ok err : WaitResult

-- A run: the pauses that the thread makes, and how it ends.
pub data Run : Type 0 where
  out_of_fuel panicked : Run
  finished : WaitResult → Run
  pausing : Pause → Run → Run

abbrev pub result : Run → Option WaitResult
result out_of_fuel = none
result panicked = none
result (finished r) = some r
result (pausing _ rest) = result rest

-- The end of the loop's body: `backoff.next().act(…)`, and the next round.
abbrev pub back_off : Option (ExpBackoffAction × ExpBackoffIter) → (ExpBackoffIter → Run) → Run
back_off none rest = panicked
back_off (some (action, backoff)) rest = pausing (act fixed_range action) (rest backoff)

-- One round, from the test of the condition; `rest` is the next round.
abbrev pub round :
    Bool → Deadline × Option ℕ → ExpBackoffIter → (Deadline → ExpBackoffIter → Run) → Run
round true _ backoff rest = finished ok
round false (deadline, none) backoff rest = panicked
round false (deadline, some left) backoff rest =
    if is_zero left then finished err else back_off (next backoff) (rest deadline)

module _ (condition : ℕ → Bool) (first second : ℕ → ℕ) where
  -- The loop, from round `k`.
  pub wait_from : (fuel k : ℕ) → Deadline → ExpBackoffIter → Run
  wait_from zero k deadline backoff = out_of_fuel
  wait_from (suc fuel) k deadline backoff =
      round (condition k) (remaining (first k) (second k) deadline) backoff
        (λ deadline' backoff'. wait_from fuel (suc k) deadline' backoff')

  abbrev pub with_backoff : Option ExpBackoff → ℕ → Deadline → Run
  with_backoff none fuel deadline = panicked
  with_backoff (some b) fuel deadline = wait_from fuel 0 deadline (into_inf_iter b)

  -- `Spin::wait_until`
  unfoldable pub wait_until : (fuel : ℕ) → Deadline → Run
  unfolding sleepy
  wait_until fuel deadline = with_backoff sleepy fuel deadline

  -- `wait_for`
  unfoldable pub wait_for : (fuel : ℕ) → ℕ → Run
  wait_for fuel duration = wait_until fuel (lazy_after duration)

-- `Ordering`
pub data Ordering : Type 0 where
  less equal greater : Ordering

-- `wait_for_inequality`, `compare` being `Ord::cmp` of the type.
unfoldable pub wait_for_inequality :
    {T : Type 0}
    → (T → T → Ordering)
    → (ℕ → T)
    → (Ordering → Bool)
    → T
    → (first second : ℕ → ℕ) → (fuel : ℕ) → ℕ
    → Run
wait_for_inequality compare lhs cmp rhs first second fuel duration =
    wait_for (λ k. cmp (compare (lhs k) rhs)) first second fuel duration
