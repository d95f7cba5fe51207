-- ===== src/Monitor/Safety.antt =====
-- anode/src/monitor.rs: what holds whenever threads share a monitor.
use libmutex.Prelude.{
  ℕ, ◌+◌, ◌-◌, ◌<◌, ◌≤◌, ◌≡◌, ◌≢◌, ◌^◌, arith, Bool, none, total, weight-le-total, weights-le-total,
  total-le, Option-cases, inl, inr, checked_dec, Option, some, false, true, ◌>>=◌, refl,
}
use libmutex.Monitor.Defs.{Directive, return, wait, notify_one, notify_all, Turn}
use libmutex.Monitor.Machine.{
  Frame, Pc, outside, contending, inside, locking, about_to_wait, parked, resuming, expired,
  expiring, releasing, signalling, leaving, requesting, owning, Shared, dispatch, round, again,
  num_waiting, System, Reach,
}
use libmutex.Monitor.Counts.{spins, holds, registered, flag}
use libmutex.Monitor.Invariant.{Inv, Reach-Inv}

flag-le : (b : Bool) → flag b ≤ 1
flag-le b = ground arith

-- What a thread that holds the spin lock in `enter` does until it releases it: a round of the loop,
-- or the end of a wait that has timed out. `none` is a panic; a thread elsewhere does nothing.
abbrev pub critical :
    {L S : Type 0}
    → (ℕ → ℕ → L → S → Option (Turn L S))
    → ℕ
    → ℕ
    → Shared S
    → Pc L
    → Option (Shared S × Pc L)
critical f t u m (inside c guard woken) = round f t u c guard woken m
critical f t u m (expiring c) = checked_dec m.waiting >>= λ less.
    some (record m { locked = false; waiting = less }, leaving c true)
critical f t u m p = some (m, p)

module _ {L S : Type 0} (f : ℕ → ℕ → L → S → Option (Turn L S)) {n : ℕ} {s : S} {z : System f}
    (reach : Reach f n s z) where
  inv : Inv f n z
  inv = Reach-Inv f reach

  -- Of two threads that share a monitor, at most one has the spin lock, in `enter` or with a guard
  -- of `lock`, and at most one holds the mutex.
  pub lock_exclusion :
      (i j : ℕ)
      → i < n
      → j < n
      → i ≢ j
      → (spins (z.threads i) + spins (z.threads j) ≤ 1)
        × (holds (z.threads i) + holds (z.threads j) ≤ 1)
  lock_exclusion i j lt_i lt_j ne = (
    omega (
      arith,
      inv.spin_held,
      flag-le z.shared.locked,
      weights-le-total spins n i j z.threads lt_i lt_j ne,
    ),
    omega (
      arith,
      inv.mutex_held,
      flag-le z.shared.mutex,
      weights-le-total holds n i j z.threads lt_i lt_j ne,
    ),
  )

  registered-le : (p : Pc L) → registered p ≤ 1
  registered-le (contending c g w) = flag-le w
  registered-le (inside c g w) = flag-le w
  registered-le _ = omega arith

  -- `num_waiting` is the number of threads between their registration and the end of their wait, and
  -- at most the number of threads.
  pub waiting_lem :
      (num_waiting z.shared ≡ total registered n z.threads) × (num_waiting z.shared ≤ n)
  waiting_lem = (
    inv.waiting_counted,
    omega (
      arith,
      inv.waiting_counted,
      total-le registered n z.threads (λ i. registered-le (z.threads i)),
    ),
  )

  dispatch-ne-none :
      (c : Frame L) (d : Directive) (g : Bool) (w : ℕ) → w + 1 < 2 ^ 32 → dispatch c d g w ≢ none
  unfolding dispatch
  dispatch-ne-none c return g w h = ground arith
  dispatch-ne-none c (wait d) g w h = ground arith
  dispatch-ne-none c notify_one g w h = ground arith
  dispatch-ne-none c notify_all g w h = ground arith

  -- A round of the loop neither underflows nor overflows `waiting`: with fewer than
  -- `2 ^ 32 - 1` threads it panics only where the closure does.
  pub round-ne-none :
      (t u i : ℕ) {c : Frame L} {g w : Bool}
      → i < n
      → z.threads i ≡ inside c g w
      → n + 1 < 2 ^ 32
      → f t u c.locals z.shared.state ≢ none
      → round f t u c g w z.shared ≢ none
  unfolding round
  round-ne-none t u i {c} {g} {w} lt e small ok =
      elim (Option-cases (f t u c.locals z.shared.state)) [
        | inl q ↦ absurd (ok q)
        | inr (r, q) ↦ ground (
          arith,
          q,
          waiting_lem,
          weight-le-total registered n i z.threads lt,
          dispatch-ne-none (again r) r.directive g z.shared.waiting,
          dispatch-ne-none (again r) r.directive g (z.shared.waiting - 1),
        )
      ]

  -- Nor does the end of a wait that has timed out.
  pub unregister-ne-none :
      (i : ℕ) {c : Frame L} → i < n → z.threads i ≡ expiring c → checked_dec z.shared.waiting ≢ none
  unregister-ne-none i lt e =
      ground (arith, waiting_lem, weight-le-total registered n i z.threads lt)

  -- No critical section of a thread panics, if the closure that it evaluates does not.
  pub critical-ne-none :
      (t u i : ℕ)
      → i < n
      → n + 1 < 2 ^ 32
      → ((c : Frame L) (g w : Bool)
          → z.threads i ≡ inside c g w
          → f t u c.locals z.shared.state ≢ none)
      → critical f t u z.shared (z.threads i) ≢ none
  critical-ne-none t u i lt small ok = at_pc (z.threads i) refl
    where
      at_pc : (p : Pc L) → z.threads i ≡ p → critical f t u z.shared p ≢ none
      at_pc (inside c g w) e = round-ne-none t u i lt e small (ok c g w e)
      at_pc (expiring c) e = ground (arith, unregister-ne-none i lt e)
      at_pc outside e = cc
      at_pc (contending _ _ _) e = cc
      at_pc (locking _) e = cc
      at_pc (about_to_wait _ _) e = cc
      at_pc (parked _ _) e = cc
      at_pc (resuming _ _) e = cc
      at_pc (expired _) e = cc
      at_pc (releasing _ _) e = cc
      at_pc (signalling _ _) e = cc
      at_pc (leaving _ _) e = cc
      at_pc requesting e = cc
      at_pc owning e = cc
