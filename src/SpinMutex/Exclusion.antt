-- ===== src/SpinMutex/Exclusion.antt =====
-- anode/src/spin_mutex.rs: the flag counts the guards, and what follows.
use libmutex.Prelude.{
  ℕ, ◌+◌, ◌-◌, ◌<◌, ◌≡◌, ◌≢◌, refl, arith, Bool, true, false, total, total-place, weight-le-total,
  weights-le-total, total-zero,
}
use libmutex.SpinMutex.{
  SpinMutex, try_lock, unlock, Phase, outside, holding, Move, call_lock, acquire, contend, spin,
  retry, call_try_lock, tried, write, drop, System, pick, init, Reach, start, later,
}

abbrev flag : Bool → ℕ
flag true = 1
flag false = 0

abbrev pub guards : Phase → ℕ
guards holding = 1
guards _ = 0

module _ {T : Type 0} where
  -- A step keeps the count of guards, `a` being that of the other threads.
  Move-guards :
      (a : ℕ) {m m' : SpinMutex T} {p p' : Phase}
      → Move m p m' p'
      → a + guards p ≡ flag m.locked
      → a + guards p' ≡ flag m'.locked
  unfolding try_lock unlock
  Move-guards a call_lock h = h
  Move-guards a {m} {m'} (acquire e) h = ground arith
  Move-guards a {m} {m'} (contend e _) h = ground arith
  Move-guards a (spin _ _) h = h
  Move-guards a (retry _) h = h
  Move-guards a call_try_lock h = h
  Move-guards a {m} {m'} (tried {is_ok = is_ok} e) h = ground arith
  Move-guards a (write t) h = h
  Move-guards a drop h = ground arith

  Reach-guards :
      {n : ℕ} {t : T} {z : System T} → Reach n t z → total guards n z.threads ≡ flag z.mutex.locked
  unfolding init
  Reach-guards {n} start = total-zero guards n (λ _. outside) (λ _. refl)
  Reach-guards {n} (later {y} r (pick i {m} {p} lt mv)) = omega (
    arith,
    weight-le-total guards n i y.threads lt,
    total-place guards n i p y.threads lt,
    Move-guards (total guards n y.threads - guards (y.threads i)) mv
        (omega (arith, weight-le-total guards n i y.threads lt, Reach-guards r)),
  )

  locked_by :
      {n : ℕ} {t : T} {y : System T}
      → Reach n t y
      → (j : ℕ) → j < n
      → y.threads j ≡ holding
      → y.mutex.locked ≡ true
  locked_by {n} {y} r j lt h =
      let w : guards (y.threads j) ≡ 1 = rw h refl in
      ground (arith, weight-le-total guards n j y.threads lt, Reach-guards r)

  -- A thread without the guard does nothing to a mutex that is locked.
  Move-blocked :
      {m m' : SpinMutex T} {p p' : Phase}
      → Move m p m' p'
      → m.locked ≡ true
      → p ≢ holding
      → (m' ≡ m) × (p' ≢ holding)
  unfolding try_lock
  Move-blocked call_lock h d = (refl, λ e. cc)
  Move-blocked {m} {m'} (acquire e) h d = absurd (ground arith)
  Move-blocked {m} {m'} (contend e _) h d = ground arith
  Move-blocked (spin _ _) h d = (refl, λ e. cc)
  Move-blocked (retry _) h d = (refl, λ e. cc)
  Move-blocked call_try_lock h d = (refl, λ e. cc)
  Move-blocked {m} {m'} (tried {is_ok = is_ok} e) h d = ground arith
  Move-blocked (write t) h d = absurd (d refl)
  Move-blocked drop h d = absurd (d refl)

  -- While one thread holds a guard, no step of another one changes the flag or the content, or
  -- makes a guard.
  pub guarded :
      {n : ℕ} {t : T} {y : System T}
      → Reach n t y
      → (i j : ℕ) → i < n
      → j < n
      → i ≢ j
      → y.threads j ≡ holding
      → {m : SpinMutex T} {p : Phase} → Move y.mutex (y.threads i) m p
      → (m ≡ y.mutex) × (p ≢ holding)
  guarded {n} {y} r i j lt_i lt_j d h mv = Move-blocked mv (locked_by r j lt_j h) (λ e.
      let w : guards (y.threads i) ≡ 1 = rw e refl in
      let v : guards (y.threads j) ≡ 1 = rw h refl in
      ground (arith, weights-le-total guards n i j y.threads lt_i lt_j d, Reach-guards r))

  -- While no thread holds a guard, `try_lock` succeeds, and leaves the content alone.
  pub try_lock-free :
      {n : ℕ} {t : T} {y : System T}
      → Reach n t y
      → ((i : ℕ) → y.threads i ≢ holding)
      → try_lock y.mutex ≡ (true, record y.mutex { locked = true })
  unfolding try_lock
  try_lock-free {n} {y} r h =
      let none_held = total-zero guards n y.threads (λ i. not_held (y.threads i) (h i)) in
      ground (arith, none_held, Reach-guards r)
    where
      not_held : (p : Phase) → p ≢ holding → guards p ≡ 0
      not_held holding d = absurd (d refl)
      not_held _ d = refl
