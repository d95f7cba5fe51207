-- ===== src/Tests/Spins.antt =====
-- Witnesses of the theorems on the spin mutex and the spin wait, at short runs.
use libmutex.Prelude.{
  ℕ, zero, suc, ◌<◌, ◌≡◌, ◌≢◌, refl, arith, Bool, true, false, some, ℕ_discrete, place-all,
}
use libmutex.SpinMutex.{
  System, try_lock, new, holding, outside, locking, call_lock, acquire, call_try_lock, tried, pick,
  init, Reach, start, later,
}
use libmutex.SpinMutex.Exclusion.{guarded}
use libmutex.Wait.{WaitResult, ok, result, wait_for}
use libmutex.Wait.Rounds.{GoesOn, met, wait_for_lem, wait_for-returns}

-- Thread 0 has the guard, thread 1 is about to try for it.
abbrev held : (z : System ℕ) × Reach 2 5 z
unfolding ℕ_discrete init new try_lock
held = (
  _,
  later (later (later start (pick 0 (omega arith) call_lock)) (pick 0 (omega arith) (acquire refl)))
      (pick 1 (omega arith) call_try_lock),
)

guarded_example : (held.0.mutex ≡ held.0.mutex) × (outside ≢ holding)
unfolding ℕ_discrete init new try_lock
guarded_example =
    guarded held.1 1 0 (omega arith) (omega arith) (omega arith) refl (tried {is_ok = false} refl)

-- Thread 0 is about to call `try_lock`.
abbrev free : (z : System ℕ) × Reach 2 5 z
unfolding ℕ_discrete init new
free = (_, later start (pick 0 (omega arith) call_lock))

none_holds : (i : ℕ) → free.0.threads i ≢ holding
unfolding ℕ_discrete init new
none_holds = place-all (λ p. p ≢ holding) (λ _. outside) 0 locking (λ e. cc) (λ j e. cc)

-- A condition that holds from the third call on, and a clock that goes on by 4 a round.
abbrev third : ℕ → Bool
third zero = false
third (suc zero) = false
third (suc (suc _)) = true

abbrev origin : ℕ → ℕ
origin _ = 0

abbrev clock : ℕ → ℕ
clock zero = 0
clock (suc zero) = 4
clock (suc (suc _)) = 100

goes_on : (j : ℕ) → j < 2 → GoesOn third origin clock 10 j
goes_on zero h = (refl, omega arith)
goes_on (suc zero) h = (refl, omega arith)
goes_on (suc (suc j)) h = absurd (omega arith)

wait_for_lem_example : result (wait_for third origin clock 3 10) ≡ some ok
wait_for_lem_example =
    wait_for_lem third origin clock 10 3 2 ok goes_on (met refl) (omega arith) (omega arith)

wait_for-returns_example : (r : WaitResult) × (result (wait_for third origin clock 3 10) ≡ some r)
wait_for-returns_example =
    wait_for-returns third origin clock 10 2 3 refl (omega arith) (omega arith)
