-- ===== src/Zlock/Guards/Discipline.antt =====
-- anode/src/zlock.rs: the guards keep to the order of calls that the moderator relies on.
use libmutex.Prelude.{◌≡◌, refl, Bool, true, false, Option, none, some, List, [], ◌∷◌, ◌++◌, ◌>>=◌}
use libmutex.Zlock.System.{Status, idle, reader, writer, source, outcome}
use libmutex.Zlock.Guards.{
  Call, Owned, nothing, read_guard, write_guard, Action, read_lock, try_read_lock, write_lock,
  try_write_lock, drop_guard, upgrade_guard, try_upgrade_guard, downgrade_guard, perform, run,
}

-- The calls are those of threads in Zlock/System: each with the guard that it takes, from one
-- status to another.
pub data Follows (L : Type 0) : Status L → List Call → Status L → Type 0 where
  stop : {s : Status L} → Follows L s [] s
  step :
      {s t : Status L} {c : Call} {cs : List Call}
      → s ≡ source c.kind
      → Follows L (outcome c.kind c.answer) cs t
      → Follows L s (c ∷ cs) t

Follows-append :
    {L : Type 0} {s t u : Status L} {cs ds : List Call}
    → Follows L s cs t
    → Follows L t ds u
    → Follows L s (cs ++ ds) u
Follows-append stop q = q
Follows-append (step e p) q = step e (Follows-append p q)

-- What a user owns, as the status of a thread. A guard that is owned is locked.
abbrev pub status : {L : Type 0} → Owned → Status L
status nothing = idle
status (read_guard _) = reader
status (write_guard _) = writer

abbrev pub IsLive : Owned → Type 0
IsLive nothing = Unit
IsLive (read_guard g) = g.locked ≡ true
IsLive (write_guard g) = g.locked ≡ true

module _ (L : Type 0) where
  -- The result of actions on `o`, if there is one.
  abbrev IsDisciplined : Owned → Option (Owned × List Call) → Type 0
  IsDisciplined o none = Unit
  IsDisciplined o (some (o', cs)) = Follows L (status o) cs (status o') × IsLive o'

  perform-Follows :
      (action : Action) (answer : Bool) (o : Owned)
      → IsLive o
      → IsDisciplined o (perform action answer o)
  unfolding perform
  perform-Follows read_lock true nothing h = (step refl stop, refl)
  perform-Follows read_lock false nothing h = tt
  perform-Follows try_read_lock true nothing h = (step refl stop, refl)
  perform-Follows try_read_lock false nothing h = (step refl stop, tt)
  perform-Follows write_lock true nothing h = (step refl stop, refl)
  perform-Follows write_lock false nothing h = tt
  perform-Follows try_write_lock true nothing h = (step refl stop, refl)
  perform-Follows try_write_lock false nothing h = (step refl stop, tt)
  perform-Follows drop_guard answer nothing h = tt
  perform-Follows upgrade_guard answer nothing h = tt
  perform-Follows try_upgrade_guard answer nothing h = tt
  perform-Follows downgrade_guard answer nothing h = tt
  perform-Follows read_lock answer (read_guard g) h = tt
  perform-Follows try_read_lock answer (read_guard g) h = tt
  perform-Follows write_lock answer (read_guard g) h = tt
  perform-Follows try_write_lock answer (read_guard g) h = tt
  perform-Follows drop_guard answer (read_guard g) h = rw h (step refl stop, tt)
  perform-Follows upgrade_guard true (read_guard g) h = (step refl stop, refl)
  perform-Follows upgrade_guard false (read_guard g) h = tt
  perform-Follows try_upgrade_guard true (read_guard g) h = (step refl stop, refl)
  perform-Follows try_upgrade_guard false (read_guard g) h = (step refl stop, h)
  perform-Follows downgrade_guard answer (read_guard g) h = tt
  perform-Follows read_lock answer (write_guard g) h = tt
  perform-Follows try_read_lock answer (write_guard g) h = tt
  perform-Follows write_lock answer (write_guard g) h = tt
  perform-Follows try_write_lock answer (write_guard g) h = tt
  perform-Follows drop_guard answer (write_guard g) h = rw h (step refl stop, tt)
  perform-Follows upgrade_guard answer (write_guard g) h = tt
  perform-Follows try_upgrade_guard answer (write_guard g) h = tt
  perform-Follows downgrade_guard answer (write_guard g) h = (step refl stop, refl)

  append-Follows :
      (o o' : Owned) (cs : List Call) (r : Option (Owned × List Call))
      → Follows L (status o) cs (status o')
      → IsDisciplined o' r
      → IsDisciplined o (r >>= λ last. some (last.0, cs ++ last.1))
  append-Follows o o' cs none f h = tt
  append-Follows o o' cs (some (last, ds)) f h = (Follows-append f h.0, h.1)

  rest-Follows :
      (o : Owned) (r : Option (Owned × List Call)) (next : Owned → Option (Owned × List Call))
      → IsDisciplined o r
      → ((o' : Owned) → IsLive o' → IsDisciplined o' (next o'))
      → IsDisciplined o (r >>= λ x. next x.0 >>= λ y. some (y.0, x.1 ++ y.1))
  rest-Follows o none next h k = tt
  rest-Follows o (some (o', cs)) next h k = append-Follows o o' cs (next o') h.0 (k o' h.1)

  results-Follows :
      (actions : List (Action × Bool)) (o : Owned) → IsLive o → IsDisciplined o (run actions o)
  unfolding run
  results-Follows [] o h = (stop, h)
  results-Follows ((action, answer) ∷ rest) o h =
      rest-Follows o (perform action answer o) (run rest) (perform-Follows action answer o h)
        (λ o' live. results-Follows rest o' live)

  -- Whatever a user does with a lock and its guards, from owning nothing, the calls of the
  -- moderator that the methods and drops make are in order: each consumes the guard that the one
  -- before has left, and a guard that is owned at the end is locked and not yet given up.
  pub run-Follows :
      (actions : List (Action × Bool)) (o : Owned) (cs : List Call)
      → run actions nothing ≡ some (o, cs)
      → Follows L idle cs (status o) × IsLive o
  run-Follows actions o cs e = rw e at (results-Follows actions nothing tt)
