-- ===== src/Rand/Cycle.antt =====
-- anode/src/rand.rs: the seeds of `CyclicSeed`, and the lazy generator.
use libmutex.Prelude.{
  ℕ, zero, suc, ◌+◌, ◌%◌, ◌^◌, ◌<◌, ◌≡◌, refl, arith, List, [], ◌∷◌, ◌>>=◌, Option, some,
}
use libmutex.Rand.{Rand, cyclic_next, InitState, lazy, eager, lazy_next}

-- The `k`-th seed after the state `c`.
pub nth_seed : ℕ → ℕ → ℕ
nth_seed zero c = (cyclic_next c).0
nth_seed (suc k) c = nth_seed k (cyclic_next c).1

-- The seeds run through the 64-bit numbers in order, and start again from 0 after the last.
pub nth_seed_lem : (k c : ℕ) → c < 2 ^ 64 → nth_seed k c ≡ (c + k) % 2 ^ 64
unfolding nth_seed cyclic_next
nth_seed_lem zero c h = omega arith
nth_seed_lem (suc k) c h = ground (arith, nth_seed_lem k (cyclic_next c).1)

module _ {R : Type 0} (rand : Rand R) (seed : ℕ → R) where
  -- The first `k` numbers of a generator, and of a lazy one.
  pub eager_run : ℕ → R → List ℕ
  eager_run zero rng = []
  eager_run (suc k) rng = let (next, rng') = rand.next_u64 rng in next ∷ eager_run k rng'

  pub lazy_run : ℕ → Option (InitState R) → Option (List ℕ)
  lazy_run zero st = some []
  lazy_run (suc k) st = do
    (next, st') ← lazy_next rand seed st
    rest ← lazy_run k st'
    some (next ∷ rest)

  lazy_run-ready : (k : ℕ) (rng : R) → lazy_run k (eager rng) ≡ some (eager_run k rng)
  unfolding lazy_run eager_run lazy_next
  lazy_run-ready zero rng = refl
  lazy_run-ready (suc k) rng = rw (lazy_run-ready k (rand.next_u64 rng).1)

  -- A lazy generator returns the numbers of the one that it stands for, started from the seed
  -- that its closure makes, and never meets a state that has been taken out.
  pub lazy_run-uninit : (k f : ℕ) → lazy_run k (lazy f) ≡ some (eager_run k (seed f))
  unfolding lazy_run eager_run lazy_next
  lazy_run-uninit zero f = refl
  lazy_run-uninit (suc k) f = rw (lazy_run-ready k (rand.next_u64 (seed f)).1)
