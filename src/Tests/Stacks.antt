-- ===== src/Tests/Stacks.antt =====
-- Witnesses of the theorems on a lock and its monitor together, at a short run of `try_write`.
use libmutex.Prelude.{
  ℕ, ◌<◌, ◌^◌, ◌≡◌, ◌≢◌, refl, arith, none, true, place, place_self, place_other, ℕ_discrete, ap,
  ◌∙◌,
}
use libmutex.Deadline.{lazy_after}
use libmutex.Monitor.Machine.{Pc, acquire, evaluate, leave, move, round, dispatch}
use libmutex.Monitor.{return}
use libmutex.Monitor.Machine as Machine
use libmutex.Monitor.Refinement.{View, away, entering, view}
use libmutex.Zlock.Moderator.{try_write}
use libmutex.Zlock.System.{reader, writer}
use libmutex.Zlock.WriteBiased.{write_biased}
use libmutex.Zlock.WriteBiased
use libmutex.Zlock.Implementation.{Monitored}
use libmutex.Zlock.Deep.{Deep, DeepReach, start, later, inside, call, finish, deep_init, status}
use libmutex.Zlock.Deep.Simulation.{Simulates, deep-Simulates}
use libmutex.Zlock.Deep.Safety.{deep_exclusion, deep_never_panics, deep_no_deadlock}
use libmutex.Monitor.Safety.{critical}
use libmutex.Monitor.Progress.{is_working, Ready}

abbrev half : ℕ → ℕ
half _ = 2 ^ 63

-- A step of thread `i` inside `enter` begins no call of another thread.
others_away :
    {L : Type 0} (threads : ℕ → Pc L) (i : ℕ) (p : Pc L)
    → (view (threads i) ≡ away → view p ≡ away)
    → (j : ℕ) → view (threads j) ≡ away
    → view (place i p threads j) ≡ away
others_away threads i p h j e = elim (ℕ_discrete j i) [
  | yes q ↦ rw (q, place_self i p threads) (h (rw q at e))
  | no d ↦ ap view (place_other i j p threads d) ∙ e
]

busy : {L : Type 0} {l : L} {v : View L} → entering l ≡ away → v ≡ away
busy e = cc

-- Thread 0 has called `try_write` and holds the spin lock.
abbrev acquired : (y : Deep write_biased) × DeepReach write_biased 2 y
unfolding ℕ_discrete deep_init Machine.init Machine.new WriteBiased.new WriteBiased.begin
acquired = (
  _,
  later (later start (call 0 try_write 5 (omega arith) refl refl))
      (inside (move 0 (omega arith) (acquire refl)) (others_away _ 0 _ busy)),
)

-- It has evaluated its closure, left the monitor and returned a guard.
abbrev written : (y : Deep write_biased) × DeepReach write_biased 2 y
unfolding ℕ_discrete deep_init Machine.init Machine.new WriteBiased.new WriteBiased.begin
    WriteBiased.eval WriteBiased.exit round dispatch lazy_after
written = (
  _,
  later
      (later
        (later acquired.1
          (inside (move 0 (omega arith) (evaluate 7 8 refl)) (others_away _ 0 _ busy)))
        (inside (move 0 (omega arith) leave) (others_away _ 0 _ (λ e. refl))))
      (finish 0 {d = return} {b = true} (omega arith) refl refl refl),
)

deep-Simulates_example : Simulates write_biased 2 written.0
unfolding ℕ_discrete deep_init Machine.init Machine.new WriteBiased.new WriteBiased.begin
    WriteBiased.eval WriteBiased.exit round dispatch lazy_after
deep-Simulates_example = deep-Simulates write_biased written.1

deep_exclusion_example :
    (status write_biased written.0 1 ≢ writer) × (status write_biased written.0 1 ≢ reader)
unfolding ℕ_discrete deep_init Machine.init Machine.new WriteBiased.new WriteBiased.begin
    WriteBiased.eval WriteBiased.exit round dispatch lazy_after
deep_exclusion_example =
    deep_exclusion half Monitored.write_biased written.1 0 1 (omega arith) (omega arith)
      (omega arith) refl

deep_never_panics_example :
    critical write_biased.eval 7 8 acquired.0.machine.shared (acquired.0.machine.threads 0) ≢ none
unfolding ℕ_discrete deep_init Machine.init Machine.new WriteBiased.new WriteBiased.begin
deep_never_panics_example =
    deep_never_panics half Monitored.write_biased acquired.1 (omega arith) tt 7 8 0 (omega arith)

deep_no_deadlock_example :
    (j : ℕ) × (j < 2)
    × (is_working (acquired.0.machine.threads j) ≡ true)
    × Ready write_biased.eval acquired.0.machine.shared (acquired.0.machine.threads j)
unfolding ℕ_discrete deep_init Machine.init Machine.new WriteBiased.new WriteBiased.begin
deep_no_deadlock_example =
    deep_no_deadlock half Monitored.write_biased acquired.1 (omega arith) tt 0 (omega arith) refl
