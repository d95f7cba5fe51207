-- ===== src/Tests/Orders.antt =====
-- Witnesses of the theorems on the order of service and on guards, at short runs.
use libmutex.Prelude.{
  ℕ, ◌<◌, ◌≡◌, refl, arith, Bool, true, false, List, [], ◌∷◌, ℕ_discrete, place, place-all,
}
use libmutex.Deadline.{lazy_after, remaining}
use libmutex.Zlock.Moderator.{Kind, try_write, try_read, write_unlock}
use libmutex.Zlock.System.{Status, idle, System, Move, pick, init, call, first, finish}
use libmutex.Zlock.System.Safety.{at_repeat}
use libmutex.Zlock.ArrivalOrdered
use libmutex.Zlock.ArrivalOrdered.{arrival_ordered, State, Local}
use libmutex.Zlock.ArrivalOrdered.Order.{
  has_timed_out, PunctualReach, at_start, and_then, PunctualReach-has_timed_out,
}
use libmutex.Zlock.ArrivalOrdered.Fifo.{first_served}
use libmutex.Zlock.Guards.{
  Call, nothing, Action, try_write_lock, downgrade_guard, try_upgrade_guard, drop_guard, run,
  perform,
}
use libmutex.Zlock.Guards.Discipline.{Follows, run-Follows}

punctual :
    {n : ℕ} {y : System arrival_ordered}
    → PunctualReach n y
    → (i : ℕ) {s : State} {p : Status Local} → i < n
    → Move arrival_ordered y.state (y.threads i) s p
    → has_timed_out p ≡ false
    → PunctualReach n (record { state = s; threads = place i p y.threads })
punctual {y = y} r i {p = p} lt mv h =
    and_then r (pick i lt mv)
      (place-all (λ q. has_timed_out q ≡ false) y.threads i p h (PunctualReach-has_timed_out r))

-- Thread 0 has the write lock, and 1 and 2 wait to read, in this order.
abbrev queue : (z : System arrival_ordered) × PunctualReach 3 z
unfolding ℕ_discrete init ArrivalOrdered.new ArrivalOrdered.begin ArrivalOrdered.eval
    ArrivalOrdered.exit lazy_after remaining
queue =
    let a = punctual {n = 3} at_start 0 (omega arith) (call try_write 5) refl in
    let b = punctual a 0 (omega arith) (first 0 0 refl) refl in
    let c = punctual b 0 (omega arith) (finish refl refl) refl in
    let d = punctual c 1 (omega arith) (call try_read 9) refl in
    let e = punctual d 1 (omega arith) (first 1 1 refl) refl in
    let f = punctual e 2 (omega arith) (call try_read 9) refl in
    let g = punctual f 2 (omega arith) (first 2 2 refl) refl in
    let h = punctual g 0 (omega arith) (call write_unlock 0) refl in
    (_, punctual h 0 (omega arith) (first 3 3 refl) refl)

-- Ticket 2 is served before ticket 3.
first_served_example : 2 < 3
unfolding ℕ_discrete init ArrivalOrdered.new ArrivalOrdered.begin ArrivalOrdered.eval
    ArrivalOrdered.exit lazy_after remaining
first_served_example =
    first_served queue.1 1 2 (omega arith) (omega arith) (omega arith) 4 4 (at_repeat refl) refl
      refl refl 3 (omega arith) refl

-- A write guard is downgraded, an upgrade fails, and the read guard is dropped.
abbrev actions : List (Action × Bool)
actions =
    (try_write_lock, true)
    ∷ (downgrade_guard, true)
    ∷ (try_upgrade_guard, false)
    ∷ (drop_guard, true)
    ∷ []

abbrev calls : List Call
calls =
    record { kind = try_write; answer = true }
    ∷ record { kind = Kind.downgrade; answer = true }
    ∷ record { kind = Kind.try_upgrade; answer = false }
    ∷ record { kind = Kind.read_unlock; answer = true }
    ∷ []

run-Follows_example : Follows ℕ idle calls idle × Unit {0}
unfolding run perform
run-Follows_example = run-Follows ℕ actions nothing calls refl
