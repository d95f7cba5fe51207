-- ===== src/Wait/Rounds.antt =====
-- anode/src/wait.rs: when the spin wait ends, and how.
use libmutex.Prelude.{
  ℕ, zero, suc, ◌+◌, ◌^◌, ◌<◌, ◌≤◌, ◌≡◌, ◌≢◌, refl, arith, Bool, true, false, some, ap, ◌∙◌, ◌⊎◌,
  inl, inr, Bool-cases, ℕ_discrete,
}
use native.Mathlib.Nat.{add-zero, zero-add}
use libmutex.Time.{is_zero}
use libmutex.Deadline.{
  Deadline, lazy_after, remaining, time_left, remaining-remaining, remaining-lazy_after,
}
use libmutex.Backoff.{ExpBackoff, ExpBackoffIter}
use libmutex.Backoff.Schedule.{iter_at, next-iter_at, into_inf_iter-iter_at}
use libmutex.Wait.{WaitResult, ok, err, result, wait_from, wait_until, wait_for}

-- The configuration that `sleepy` makes.
abbrev pub sleepy_config : ExpBackoff
sleepy_config = record {
  spin_iters = 0;
  yield_iters = 0;
  min_sleep = 100_000;
  max_sleep = 10_000_000;
}

not_zero : (x : ℕ) → x ≢ 0 → is_zero x ≡ false
not_zero x h = ground arith

module _ (condition : ℕ → Bool) (first second : ℕ → ℕ) (duration : ℕ) where
  -- The time left in round `k`.
  abbrev pub left_in : ℕ → ℕ
  left_in k = time_left duration (first 0) (second k)

  -- Round `k` is not the last one.
  abbrev pub GoesOn : ℕ → Type 0
  GoesOn k = (condition k ≡ false) × (left_in k ≢ 0)

  -- Round `k` is the last one, with this result.
  pub data EndsAt (k : ℕ) : WaitResult → Type 0 where
    met : condition k ≡ true → EndsAt k ok
    late : condition k ≡ false → left_in k ≡ 0 → EndsAt k err

  -- The deadline once it is initialized.
  abbrev started : Deadline
  started = (remaining (first 0) (second 0) (lazy_after duration)).0

  abbrev IsTimed : Deadline → ℕ → Type 0
  IsTimed deadline k = remaining (first k) (second k) deadline ≡ (started, some (left_in k))

  lazy_after-IsTimed : IsTimed (lazy_after duration) 0
  lazy_after-IsTimed = ap (λ x. (started, x)) (remaining-lazy_after duration (first 0) (second 0))

  started-IsTimed : (k : ℕ) → IsTimed started k
  started-IsTimed k = remaining-remaining duration (first 0) (second 0) (first k) (second k)

  wait_from-last :
      (fuel k : ℕ) (deadline : Deadline) (backoff : ExpBackoffIter) (r : WaitResult)
      → EndsAt k r
      → IsTimed deadline k
      → result (wait_from condition first second (suc fuel) k deadline backoff) ≡ some r
  unfolding wait_from
  wait_from-last fuel k deadline backoff ok (met e) h = rw e refl
  wait_from-last fuel k deadline backoff err (late e z) h = rw (e, h, z) refl

  wait_from-next :
      (fuel k : ℕ) (deadline : Deadline)
      → GoesOn k
      → IsTimed deadline k
      → k + 1 < 2 ^ 64
      → result (wait_from condition first second (suc fuel) k deadline (iter_at sleepy_config k))
        ≡ result
            (wait_from condition first second fuel (suc k) started (iter_at sleepy_config (suc k)))
  unfolding wait_from
  wait_from-next fuel k deadline g h small =
      let e : k + 1 ≡ suc k = omega arith in
      rw
        (
          g.0,
          h,
          not_zero (left_in k) g.1,
          next-iter_at sleepy_config (omega arith) (omega arith) k (omega arith) small,
          e,
        )
        refl

  wait_from-result :
      (m fuel k : ℕ) (deadline : Deadline) (r : WaitResult)
      → ((j : ℕ) → k ≤ j → j < k + m → GoesOn j)
      → EndsAt (k + m) r
      → IsTimed deadline k
      → m < fuel
      → k + m + 1 < 2 ^ 64
      → result (wait_from condition first second fuel k deadline (iter_at sleepy_config k)) ≡ some r
  wait_from-result zero zero k deadline r g e h lt small = absurd (omega arith)
  wait_from-result zero (suc fuel) k deadline r g e h lt small =
      wait_from-last fuel k deadline (iter_at sleepy_config k) r (rw add-zero at e) h
  wait_from-result (suc m) zero k deadline r g e h lt small = absurd (omega arith)
  wait_from-result (suc m) (suc fuel) k deadline r g e h lt small =
      let shift : k + suc m ≡ suc k + m = omega arith in
      wait_from-next fuel k deadline (g k (omega arith) (omega arith)) h (omega arith)
      ∙ wait_from-result m fuel (suc k) started r (λ j a b. g j (omega arith) (omega arith))
          (rw shift at e) (started-IsTimed (suc k)) (omega arith) (omega arith)

  -- The wait ends in the first round in which the condition holds, with success, or no time is
  -- left, with failure, if fuel is given for the rounds and they are fewer than 2^64.
  pub wait_for_lem :
      (fuel n : ℕ) (r : WaitResult)
      → ((j : ℕ) → j < n → GoesOn j)
      → EndsAt n r
      → n < fuel
      → n + 1 < 2 ^ 64
      → result (wait_for condition first second fuel duration) ≡ some r
  unfolding wait_for wait_until
  wait_for_lem fuel n r g e lt small = rw (into_inf_iter-iter_at sleepy_config) (
      wait_from-result n fuel 0 (lazy_after duration) r (λ j _ b. g j (omega arith)) (rw zero-add e)
        lazy_after-IsTimed lt (omega arith))

  step_kind : (k : ℕ) → GoesOn k ⊎ ((r : WaitResult) × EndsAt k r)
  step_kind k = elim (Bool-cases (condition k)) [
    | inl yes_ ↦ inr (ok, met yes_)
    | inr no_ ↦ elim (ℕ_discrete (left_in k) 0) [
      | yes z ↦ inr (err, late no_ z)
      | no p ↦ inl (no_, p)
    ]
  ]

  -- The first round, up to round `k`, that ends the wait.
  first_end :
      (k : ℕ)
      → ((j : ℕ) → j < k → GoesOn j)
        ⊎ ((n : ℕ) × (n < k) × ((j : ℕ) → j < n → GoesOn j) × ((r : WaitResult) × EndsAt n r))
  first_end zero = inl (λ j h. absurd (omega arith))
  first_end (suc k) = elim (first_end k) [
    | inr (n, lt, before, ends) ↦ inr (n, omega arith, before, ends)
    | inl all ↦ elim (step_kind k) [
      | inr ends ↦ inr (k, omega arith, all, ends)
      | inl goes ↦
          inl (λ j h. elim (ℕ_discrete j k) [ yes e ↦ rw e goes | no d ↦ all j (omega arith) ])
    ]
  ]

  -- If in some round, of fewer than 2^64, no time is left, the wait returns, with fuel for the
  -- rounds up to that one.
  pub wait_for-returns :
      (n fuel : ℕ)
      → left_in n ≡ 0
      → n < fuel
      → n + 1 < 2 ^ 64
      → (r : WaitResult) × (result (wait_for condition first second fuel duration) ≡ some r)
  wait_for-returns n fuel z lt small = elim (first_end (suc n)) [
    | inl all ↦ absurd ((all n (omega arith)).1 z)
    | inr (m, le, before, (r, ends)) ↦
        (r, wait_for_lem fuel m r before ends (omega arith) (omega arith))
  ]
