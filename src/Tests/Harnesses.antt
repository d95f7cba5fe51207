-- ===== src/Tests/Harnesses.antt =====
-- Witnesses of the theorems on the harness, at a run with one writer that adds once.
use libmutex.Prelude.{ℕ, ◌<◌, ◌^◌, ◌≡◌, ◌≢◌, refl, arith, false, ℕ_discrete}
use libmutex.Zlock.System.{idle, first, finish}
use libmutex.Zlock.System as System
use libmutex.Zlock.ArrivalOrdered
use libmutex.Zlock.ArrivalOrdered.{arrival_ordered}
use libmutex.Zlock.Implementation.{Implementation}
use libmutex.Zlock.Content as Content
use libmutex.QuadHarness.Threads.{Options, ExtendedOptions, default, returned, panicked, act, calls}
use libmutex.QuadHarness.Spin.{spin_a_while}
use libmutex.QuadHarness.System.{
  Harness, stop, proceed, call, operate, store, panics, init, Reach, start, later, result,
}
use libmutex.QuadHarness.Result.{additions_in, never-panicked, counter-result}
use libmutex.QuadHarness.Addables.{i64, add_i64, i64-AddableLaws}

abbrev half : ℕ → ℕ
half _ = 2 ^ 63

abbrev one_writer : Options
one_writer = record { readers = 0; writers = 1; downgraders = 0; upgraders = 0 }

abbrev ext : ExtendedOptions
ext = record default {
  time_check_interval = 1;
  write_timeout = 5;
  spin_inside_critical = 3;
  spin_outside_critical = 2;
}

-- The writer has the guard and has read the counter.
abbrev loaded : (h : Harness arrival_ordered i64) × Reach arrival_ordered i64 one_writer ext h
unfolding ℕ_discrete init act calls Content.new System.init ArrivalOrdered.new ArrivalOrdered.begin
    ArrivalOrdered.eval ArrivalOrdered.exit spin_a_while
loaded = (
  _,
  later
      (later
        (later
          (later (later (later start (proceed 0 (omega arith) refl)) (call 0 (omega arith) refl))
            (operate 0 (omega arith) refl refl (first 0 0 refl)))
          (operate 0 (omega arith) refl refl (finish refl refl)))
        (proceed 0 (omega arith) refl))
      (proceed 0 (omega arith) refl),
)

-- It has stored its sum and dropped the guard, and has returned.
abbrev all_returned : (h : Harness arrival_ordered i64) × Reach arrival_ordered i64 one_writer ext h
unfolding ℕ_discrete init act calls Content.new System.init ArrivalOrdered.new ArrivalOrdered.begin
    ArrivalOrdered.eval ArrivalOrdered.exit add_i64 spin_a_while
all_returned = (
  _,
  later
      (later
        (later
          (later
            (later
              (later (later loaded.1 (store 0 (omega arith) refl refl)) (call 0 (omega arith) refl))
              (operate 0 (omega arith) refl refl (first 0 0 refl)))
            (operate 0 (omega arith) refl refl (finish refl refl)))
          (proceed 0 (omega arith) refl))
        stop)
      (proceed 0 (omega arith) refl),
)

never-panicked_example :
    ((all_returned.0.threads 0).phase ≢ panicked)
    × (panics arrival_ordered i64 7 8 all_returned.0.lock.sync.state
          (all_returned.0.lock.sync.threads 0)
        ≡ false)
unfolding ℕ_discrete init act calls Content.new System.init ArrivalOrdered.new ArrivalOrdered.begin
    ArrivalOrdered.eval ArrivalOrdered.exit add_i64 spin_a_while
never-panicked_example =
    never-panicked half Implementation.arrival_ordered i64 i64-AddableLaws one_writer ext
      all_returned.1 refl (omega arith) (omega arith) (omega arith) 7 8 0 (omega arith)

counter-result_example : additions_in (result one_writer all_returned.0.threads) ≡ 1
unfolding ℕ_discrete init act calls Content.new System.init ArrivalOrdered.new ArrivalOrdered.begin
    ArrivalOrdered.eval ArrivalOrdered.exit add_i64 spin_a_while
counter-result_example =
    counter-result half Implementation.arrival_ordered i64 i64-AddableLaws one_writer ext
      all_returned.1 all_done
  where
    all_done : (i : ℕ) → i < 1 → (all_returned.0.threads i).phase ≡ returned
    all_done i lt = let only : i ≡ 0 = omega arith in rw only refl

-- A reader of an `RwLock`.
abbrev one_reader : Options
one_reader = record { readers = 1; writers = 0; downgraders = 0; upgraders = 3 }
