-- ===== src/Backoff/Schedule.antt =====
-- anode/src/backoff.rs: which actions the iterator gives, and when.
use libmutex.Prelude.{
  ℕ, zero, suc, ◌+◌, ◌-◌, ◌*◌, ◌^◌, ◌<◌, ◌≤◌, ◌≡◌, refl, arith, Option, none, some, dec_lt, leb,
  ltb, if◌then◌else◌, ◌>>=◌,
}
use native.Mathlib.Nat.{add-zero, zero-add}
use libmutex.Time.{duration_max}
use libmutex.Rand.{u64_max}
use libmutex.Backoff.{
  ExpBackoff, ExpBackoffIter, ExpBackoffAction, nop, yield_now, sleep, into_inf_iter, next,
  saturating_add,
}

-- The length of the `j`-th sleep: it doubles from `min_sleep` up to `max_sleep`.
pub sleep_length : ExpBackoff → ℕ → ℕ
sleep_length b zero = b.min_sleep
sleep_length b (suc j) =
    let twice : ℕ = sleep_length b j * 2 in if leb twice b.max_sleep then twice else b.max_sleep

-- The number of actions before the first sleep.
pub awake : ExpBackoff → ℕ
awake b = saturating_add b.spin_iters b.yield_iters

-- The `k`-th action: spins first, then yields, then sleeps.
abbrev pub scheduled : ExpBackoff → ℕ → ExpBackoffAction
scheduled b k =
    if ltb k b.spin_iters
    then nop
    else if ltb k (awake b)
    then yield_now
    else sleep (sleep_length b (k - awake b))

-- The iterator after `k` actions.
abbrev pub iter_at : ExpBackoff → ℕ → ExpBackoffIter
iter_at b k = record {
  spin_limit = b.spin_iters;
  yield_limit = awake b;
  max_sleep = b.max_sleep;
  iterations = k;
  current_sleep = sleep_length b (k - awake b);
}

-- The `k`-th call of `next`.
pub nth_next : ℕ → ExpBackoffIter → Option (ExpBackoffAction × ExpBackoffIter)
nth_next zero it = next it
nth_next (suc k) it = do (action, it') ← next it; nth_next k it'

sleep_length-next :
    (b : ExpBackoff) (k : ℕ)
    → awake b ≤ k
    → sleep_length b (k + 1 - awake b) ≡ (
        if leb (sleep_length b (k - awake b) * 2) b.max_sleep
        then sleep_length b (k - awake b) * 2
        else b.max_sleep)
unfolding sleep_length
sleep_length-next b k h = let e : k + 1 - awake b ≡ suc (k - awake b) = omega arith in rw e refl

sleep_length-awake :
    (b : ExpBackoff) (k : ℕ)
    → k < awake b
    → sleep_length b (k + 1 - awake b) ≡ sleep_length b (k - awake b)
sleep_length-awake b k h =
    let e : k + 1 - awake b ≡ 0 = omega arith in let f : k - awake b ≡ 0 = omega arith in rw (e, f)

pub into_inf_iter-iter_at : (b : ExpBackoff) → into_inf_iter b ≡ iter_at b 0
unfolding into_inf_iter awake sleep_length
into_inf_iter-iter_at b = let e : 0 - awake b ≡ 0 = omega arith in rw e

spin-le-awake : (b : ExpBackoff) → b.spin_iters ≤ u64_max → b.spin_iters ≤ awake b
unfolding awake saturating_add
spin-le-awake b h = ground arith

module _ (b : ExpBackoff) (fits : b.max_sleep * 2 ≤ duration_max)
    (ordered : b.min_sleep ≤ b.max_sleep) where
  -- No sleep is shorter than `min_sleep` or longer than `max_sleep`.
  pub sleep_length-bounds :
      (j : ℕ) → (b.min_sleep ≤ sleep_length b j) × (sleep_length b j ≤ b.max_sleep)
  unfolding sleep_length
  sleep_length-bounds zero = ground arith
  sleep_length-bounds (suc j) = ground (arith, sleep_length-bounds j)

  pub next-iter_at :
      (k : ℕ)
      → b.spin_iters ≤ u64_max
      → k + 1 < 2 ^ 64
      → next (iter_at b k) ≡ some (scheduled b k, iter_at b (k + 1))
  unfolding next
  next-iter_at k u h = ground (
    arith,
    spin-le-awake b,
    sleep_length-bounds (k - awake b),
    sleep_length-awake b k,
    sleep_length-next b k,
  )

  -- The call that would overflow the `u64` of the iterations panics.
  next-overflow : (k : ℕ) → 2 ^ 64 ≤ k + 1 → next (iter_at b k) ≡ none
  unfolding next
  next-overflow k h = ground arith

  -- What the `k`-th call returns, counted from an iterator that has made `j`.
  abbrev reply_at : ℕ → Option (ExpBackoffAction × ExpBackoffIter)
  reply_at k = if ltb (k + 1) (2 ^ 64) then some (scheduled b k, iter_at b (k + 1)) else none

  next-reply_at : (k : ℕ) → b.spin_iters ≤ u64_max → next (iter_at b k) ≡ reply_at k
  next-reply_at k u = ground (arith, next-iter_at k u, next-overflow k)

  nth_next-iter_at :
      (k j : ℕ) → b.spin_iters ≤ u64_max → nth_next k (iter_at b j) ≡ reply_at (j + k)
  unfolding nth_next
  nth_next-iter_at zero j u = rw add-zero (next-reply_at j u)
  nth_next-iter_at (suc k) j u = elim (dec_lt (j + 1) (2 ^ 64)) [
    | yes h ↦
        let e : j + suc k ≡ j + 1 + k = omega arith in
        rw (next-iter_at j u h, e) (nth_next-iter_at k (j + 1) u)
    | no h ↦ rw (next-overflow j (omega arith)) (ground arith)
  ]

  -- The `k`-th action, counted from 0, of a fresh iterator is the one that is scheduled: spins,
  -- then yields, then sleeps that double from the shortest up to the longest. No call panics before
  -- the one that would bring the `u64` of the iterations to 2 ^ 64; that one and all after it do.
  -- The condition on `spin_iters` is that it is a `u64`; the longest sleep is at most half of the
  -- longest duration, and the shortest not above it.
  pub nth_next-into_inf_iter :
      b.spin_iters ≤ u64_max
      → (k : ℕ)
      → nth_next k (into_inf_iter b)
        ≡ (if ltb (k + 1) (2 ^ 64) then some (scheduled b k, iter_at b (k + 1)) else none)
  nth_next-into_inf_iter u k =
      rw (into_inf_iter-iter_at b) (rw zero-add at (nth_next-iter_at k 0 u))
