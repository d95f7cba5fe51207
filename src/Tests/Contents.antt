-- ===== src/Tests/Contents.antt =====
-- Witnesses of the theorems on the data behind a lock, where thread 0 writes while thread 1 calls
-- `read`, and on a lock that is not in use.
use libmutex.Prelude.{ℕ, ◌+◌, ◌<◌, ◌^◌, ◌≡◌, refl, arith, false, ℕ_discrete, inr}
use libmutex.Time.{duration_max}
use libmutex.Zlock.Moderator.{try_write, write_unlock, try_read}
use libmutex.Zlock.System.{pick, call, first, finish}
use libmutex.Zlock.System
use libmutex.Zlock.ArrivalOrdered.{arrival_ordered}
use libmutex.Zlock.ArrivalOrdered
use libmutex.Zlock.Implementation.{Implementation}
use libmutex.Zlock.Content.{ZLock, new, deref, operate, Reach, start, later, Session, begin, own}
use libmutex.Zlock.Quiet.{idle-IsAsNew}
use libmutex.Zlock.Uncontended.{taking, Succeeds, idle-Succeeds}
use libmutex.Zlock.Content.Sessions.{deref-seen}

abbrev half : ℕ → ℕ
half _ = 2 ^ 63

abbrev called : (z : ZLock arrival_ordered ℕ) × Reach 2 3 z
unfolding ℕ_discrete new System.init ArrivalOrdered.new ArrivalOrdered.begin
called = (_, later start (operate (pick 0 (omega arith) (call try_write 5))))

abbrev written : (z : ZLock arrival_ordered ℕ) × Reach 2 3 z
unfolding ℕ_discrete new System.init ArrivalOrdered.new ArrivalOrdered.begin ArrivalOrdered.eval
    ArrivalOrdered.exit
written = (
  _,
  later (later called.1 (operate (pick 0 (omega arith) (first 0 0 refl))))
      (operate (pick 0 (omega arith) (finish refl refl))),
)

abbrev session : (z : ZLock arrival_ordered ℕ) × Session 2 0 written.0 9 z
unfolding ℕ_discrete new System.init ArrivalOrdered.new ArrivalOrdered.begin ArrivalOrdered.eval
    ArrivalOrdered.exit
session = (
  _,
  Session.operate (own 9 (begin (inr refl)) refl)
      (pick 1 (omega arith) (call try_read duration_max)) (inr refl),
)

deref-seen_example : deref session.0 ≡ 9
deref-seen_example =
    deref-seen half Implementation.arrival_ordered written.1 (omega arith) session.1

-- Thread 0, the only one, has locked and unlocked.
abbrev locked : (z : System.System arrival_ordered) × System.Reach arrival_ordered 1 z
unfolding ℕ_discrete System.init ArrivalOrdered.new ArrivalOrdered.begin ArrivalOrdered.eval
    ArrivalOrdered.exit
locked = (
  _,
  System.later
      (System.later (System.later System.start (pick 0 (omega arith) (call try_write 5)))
        (pick 0 (omega arith) (first 0 0 refl)))
      (pick 0 (omega arith) (finish refl refl)),
)

abbrev unlocked : (z : System.System arrival_ordered) × System.Reach arrival_ordered 1 z
unfolding ℕ_discrete System.init ArrivalOrdered.new ArrivalOrdered.begin ArrivalOrdered.eval
    ArrivalOrdered.exit
unlocked = (
  _,
  System.later
      (System.later (System.later locked.1 (pick 0 (omega arith) (call write_unlock 0)))
        (pick 0 (omega arith) (first 0 0 refl)))
      (pick 0 (omega arith) (finish refl refl)),
)

all_idle : (i : ℕ) → i < 1 → unlocked.0.threads i ≡ System.idle
unfolding ℕ_discrete System.init ArrivalOrdered.new ArrivalOrdered.begin ArrivalOrdered.eval
    ArrivalOrdered.exit
all_idle i lt = let only : i ≡ 0 = omega arith in rw only refl

idle-IsAsNew_example :
    (unlocked.0.state.readers ≡ 0)
    × (unlocked.0.state.writer ≡ false)
    × (unlocked.0.state.next_ticket ≡ unlocked.0.state.serviced_tickets + 1)
unfolding ℕ_discrete System.init ArrivalOrdered.new ArrivalOrdered.begin ArrivalOrdered.eval
    ArrivalOrdered.exit
idle-IsAsNew_example = idle-IsAsNew half Implementation.arrival_ordered unlocked.1 all_idle

-- A reader that would not wait.
idle-Succeeds_example : Succeeds arrival_ordered (taking false) 0 7 8 unlocked.0.state
unfolding ℕ_discrete System.init ArrivalOrdered.new ArrivalOrdered.begin ArrivalOrdered.eval
    ArrivalOrdered.exit
idle-Succeeds_example =
    idle-Succeeds half Implementation.arrival_ordered unlocked.1 all_idle (omega arith) false 0 7 8
