-- ===== src/QuadHarness/Result.antt =====
-- anode-bench/src/quad_harness.rs: the assertions of `run`, and what its result says.
use libmutex.Prelude.{
  ℕ, ◌+◌, ◌<◌, ◌≡◌, ◌≢◌, refl, arith, ◌^◌, true, false, Bool-cases, inl, inr, Option, none, some,
  total, total-zero_below, total-split, ◌∙◌,
}
use libmutex.Completable.{is_none}
use libmutex.Monitor.{may_repeat}
use libmutex.Zlock.System.{Status, idle, reader, writer, entering, evaluated}
use libmutex.Zlock.System.Safety.{Evaluating, at_first, at_repeat}
use libmutex.Zlock.Exclusion.{HasTickets, never_panics}
use libmutex.Zlock.Content.{deref}
use libmutex.Zlock.Implementation.{Implementation, moderator}
use libmutex.QuadHarness.Threads.{
  Addable, AddableLaws, Options, ExtendedOptions, writing, downgrading, returned, panicked, Thread,
  role_of, number,
}
use libmutex.QuadHarness.System.{
  Harness, Reach, panics, iterations_of, upgrades_of, BenchmarkResult, result,
}
use libmutex.QuadHarness.Counter.{additions, is_calm}
use libmutex.QuadHarness.Invariant.{sync-Reach, Reach-Inv}

abbrev or_zero : Option ℕ → ℕ
or_zero none = 0
or_zero (some n) = n

-- The additions that a result reports: its writes are those of writers and downgraders, if there
-- are writers.
abbrev pub additions_in : BenchmarkResult → ℕ
additions_in r = elim r.writes [ some n ↦ n | none ↦ or_zero r.downgrades ] + or_zero r.upgrades

module _ {T : Type 0} where
  -- The additions of writers and downgraders.
  abbrev written : Thread T → ℕ
  written t = iterations_of writing t + iterations_of downgrading t

  returned-additions : (t : Thread T) → t.phase ≡ returned → additions t ≡ written t + upgrades_of t
  returned-additions t e = ground arith

  no-writing :
      (o : Options) (t : Thread T) (i : ℕ)
      → o.writers ≡ 0
      → t.role ≡ role_of o i
      → iterations_of writing t ≡ 0
  no-writing o t i h e = ground arith

  no-downgrading :
      (o : Options) (t : Thread T) (i : ℕ)
      → o.downgraders ≡ 0
      → t.role ≡ role_of o i
      → iterations_of downgrading t ≡ 0
  no-downgrading o t i h e = ground arith

  no-upgrading :
      (o : Options) (t : Thread T) (i : ℕ)
      → i < number o
      → o.upgraders ≡ 0
      → t.role ≡ role_of o i
      → upgrades_of t ≡ 0
  no-upgrading o t i lt h e = ground arith

  result-additions :
      (o : Options) (threads : ℕ → Thread T)
      → ((i : ℕ) → i < number o → (threads i).phase ≡ returned)
      → ((i : ℕ) → (threads i).role ≡ role_of o i)
      → additions_in (result o threads) ≡ total additions (number o) threads
  unfolding result
  result-additions o threads done roles =
      let n = number o in
      let all =
        total-split additions written upgrades_of n threads
          (λ i lt. returned-additions (threads i) (done i lt)) in
      let parts =
        total-split written (iterations_of writing) (iterations_of downgrading) n threads
          (λ i lt. refl) in
      let w = λ (h : o.writers ≡ 0).
        total-zero_below (iterations_of writing) n threads
          (λ i lt. no-writing o (threads i) i h (roles i)) in
      let d = λ (h : o.downgraders ≡ 0).
        total-zero_below (iterations_of downgrading) n threads
          (λ i lt. no-downgrading o (threads i) i h (roles i)) in
      let u = λ (h : o.upgraders ≡ 0).
        total-zero_below upgrades_of n threads
          (λ i lt. no-upgrading o (threads i) i lt h (roles i)) in
      ground (arith, all, parts, w, d, u)

is_none-false : {A : Type 0} (r : Option A) → r ≢ none → is_none r ≡ false
is_none-false none h = absurd (h refl)
is_none-false (some x) h = refl

module _ (cutoff : ℕ → ℕ) (k : Implementation) {T : Type 0} (a : Addable T) (laws : AddableLaws a)
    (o : Options) (ext : ExtendedOptions) {h : Harness (moderator cutoff k) a}
    (reach : Reach (moderator cutoff k) a o ext h) where
  -- No update is lost: whatever the threads have done, the counter is the number of additions that
  -- they have completed.
  pub counter-additions : total additions (number o) h.threads ≡ a.get (deref h.lock)
  counter-additions = (Reach-Inv cutoff k a laws o ext reach).counted

  -- Where the interval of the time checks is not 0 and no spin overflows, and as long as the counter
  -- is not at the limit of its type, there are fewer than 2 ^ 32 - 1 threads, and the next ticket
  -- number of an arrival-ordered moderator is below 2 ^ 64 - 1 (counts of iterations are taken to
  -- stay below 2 ^ 64): no thread has panicked in its own code,
  -- be it on the assertion that the counter never goes back between two of its reads, and the closure
  -- of the lock that a thread may evaluate next does not panic.
  pub never-panicked :
      is_calm ext ≡ true
      → a.get (deref h.lock) + 1 < a.limit
      → number o + 1 < 2 ^ 32
      → HasTickets cutoff k h.lock.sync.state
      → (t u i : ℕ) → i < number o
      → ((h.threads i).phase ≢ panicked)
        × (panics (moderator cutoff k) a t u h.lock.sync.state (h.lock.sync.threads i) ≡ false)
  never-panicked calm room small tickets t u i lt = (
    (λ e.
        let held = rw e at ((Reach-Inv cutoff k a laws o ext reach).sound i lt).holds in
        ground (arith, held, calm)),
    quiet (h.lock.sync.threads i) (λ l e.
        never_panics cutoff k (sync-Reach cutoff k a laws o ext reach) small tickets t u i lt e),
  )
    where
      quiet :
          (p : Status (moderator cutoff k).Local)
          → ((l : (moderator cutoff k).Local)
              → Evaluating l p
              → (moderator cutoff k).eval t u l h.lock.sync.state ≢ none)
          → panics (moderator cutoff k) a t u h.lock.sync.state p ≡ false
      quiet (entering l) q = is_none-false _ (q l at_first)
      quiet (evaluated l d) q = elim (Bool-cases (may_repeat d)) [
        | inl may ↦ rw may (is_none-false _ (q l (at_repeat may)))
        | inr once ↦ rw once refl
      ]
      quiet idle q = refl
      quiet reader q = refl
      quiet writer q = refl

  -- When all threads have returned, the counter is the number of additions that the result reports.
  pub counter-result :
      ((i : ℕ) → i < number o → (h.threads i).phase ≡ returned)
      → additions_in (result o h.threads) ≡ a.get (deref h.lock)
  counter-result done =
      let inv = Reach-Inv cutoff k a laws o ext reach in
      result-additions o h.threads done inv.roles ∙ inv.counted
