-- ===== src/Zlock/Guards/Dyn.antt =====
-- anode/src/zlock/locklike.rs: guards behind trait objects, and the lock of a chosen moderator.
use libmutex.Prelude.{◌≡◌, refl, Bool, true, false, Option, none, some, List, [], ◌∷◌, ◌++◌, ◌>>=◌}
use libmutex.Zlock.Implementation.{
  Implementation, read_biased, write_biased, arrival_ordered, stochastic,
}
use libmutex.Zlock.Guards.{
  Call, LockReadGuard, LockWriteGuard, UpgradeOutcome, upgraded_to, unchanged_from, map_outcome,
  drop_read, drop_write, try_read, try_write, read, write, upgrade, try_upgrade, downgrade, Owned,
  nothing, read_guard, write_guard, Action, read_lock, try_read_lock, write_lock, try_write_lock,
  drop_guard, upgrade_guard, try_upgrade_guard, downgrade_guard, perform, run,
}

-- The boxed guard of some moderator.
pub record DynLockReadGuard : Type 0 where
  pub boxed : LockReadGuard

pub record DynLockWriteGuard : Type 0 where
  pub boxed : LockWriteGuard

-- The two `From` implementations.
abbrev pub from_read : LockReadGuard → DynLockReadGuard
from_read guard = record { boxed = guard }

abbrev pub from_write : LockWriteGuard → DynLockWriteGuard
from_write guard = record { boxed = guard }

abbrev map_first : {A B C : Type 0} → (A → B) → A × C → B × C
map_first f (a, c) = (f a, c)

abbrev map_option : {A B : Type 0} → (A → B) → Option A → Option B
map_option f none = none
map_option f (some a) = some (f a)

-- `Locklike for PolyLock`
unfoldable pub poly_read : Bool → Option (DynLockReadGuard × List Call)
unfolding read
poly_read answer = map_option (map_first from_read) (read answer)

unfoldable pub poly_try_read : Bool → Option DynLockReadGuard × List Call
unfolding try_read
poly_try_read answer = map_first (map_option from_read) (try_read answer)

unfoldable pub poly_write : Bool → Option (DynLockWriteGuard × List Call)
unfolding write
poly_write answer = map_option (map_first from_write) (write answer)

unfoldable pub poly_try_write : Bool → Option DynLockWriteGuard × List Call
unfolding try_write
poly_try_write answer = map_first (map_option from_write) (try_write answer)

-- `LockReadGuardSurrogate for LockReadGuard`
pub upgrade_box : LockReadGuard → Bool → Option (DynLockWriteGuard × List Call)
unfolding upgrade
upgrade_box guard answer = map_option (map_first from_write) (upgrade guard answer)

pub try_upgrade_box :
    LockReadGuard → Bool → UpgradeOutcome DynLockWriteGuard DynLockReadGuard × List Call
unfolding try_upgrade map_outcome
try_upgrade_box guard answer =
    map_first (map_outcome from_write from_read) (try_upgrade guard answer)

-- `LockWriteGuardSurrogate for LockWriteGuard`
pub downgrade_box : LockWriteGuard → DynLockReadGuard × List Call
unfolding downgrade
downgrade_box guard = map_first from_read (downgrade guard)

-- `LockReadGuardlike for DynLockReadGuard`; the conversions from a type to itself do nothing.
unfoldable pub dyn_upgrade : DynLockReadGuard → Bool → Option (DynLockWriteGuard × List Call)
unfolding upgrade_box
dyn_upgrade guard answer = upgrade_box guard.boxed answer

unfoldable pub dyn_try_upgrade :
    DynLockReadGuard → Bool → UpgradeOutcome DynLockWriteGuard DynLockReadGuard × List Call
unfolding try_upgrade_box map_outcome
dyn_try_upgrade guard answer =
    map_first (map_outcome (λ w. w) (λ r. r)) (try_upgrade_box guard.boxed answer)

-- `LockWriteGuardlike for DynLockWriteGuard`
unfoldable pub dyn_downgrade : DynLockWriteGuard → DynLockReadGuard × List Call
unfolding downgrade_box
dyn_downgrade guard = downgrade_box guard.boxed

-- `ModeratorKind`, and the moderator of the lock that `make_lock_for_test` makes.
pub data ModeratorKind : Type 0 where
  for_read_biased for_write_biased for_arrival_ordered for_stochastic : ModeratorKind

unfoldable pub make_lock : ModeratorKind → Implementation
make_lock for_read_biased = read_biased
make_lock for_write_biased = write_biased
make_lock for_arrival_ordered = arrival_ordered
make_lock for_stochastic = stochastic

-- What the user of a boxed lock owns.
pub data DynOwned : Type 0 where
  owns_nothing : DynOwned
  owns_read : DynLockReadGuard → DynOwned
  owns_write : DynLockWriteGuard → DynOwned

abbrev own_read : Option DynLockReadGuard × List Call → DynOwned × List Call
own_read (none, calls) = (owns_nothing, calls)
own_read (some guard, calls) = (owns_read guard, calls)

abbrev own_write : Option DynLockWriteGuard × List Call → DynOwned × List Call
own_write (none, calls) = (owns_nothing, calls)
own_write (some guard, calls) = (owns_write guard, calls)

abbrev own_outcome :
    UpgradeOutcome DynLockWriteGuard DynLockReadGuard × List Call → DynOwned × List Call
own_outcome (upgraded_to guard, calls) = (owns_write guard, calls)
own_outcome (unchanged_from guard, calls) = (owns_read guard, calls)

-- One action through the boxed interface; a boxed guard drops the guard in it.
unfoldable pub dyn_perform : Action → Bool → DynOwned → Option (DynOwned × List Call)
unfolding poly_read poly_try_read poly_write poly_try_write dyn_upgrade dyn_try_upgrade
    dyn_downgrade drop_read drop_write
dyn_perform read_lock answer owns_nothing = poly_read answer >>= λ r. some (owns_read r.0, r.1)
dyn_perform try_read_lock answer owns_nothing = some (own_read (poly_try_read answer))
dyn_perform write_lock answer owns_nothing = poly_write answer >>= λ r. some (owns_write r.0, r.1)
dyn_perform try_write_lock answer owns_nothing = some (own_write (poly_try_write answer))
dyn_perform drop_guard answer (owns_read guard) = some (owns_nothing, drop_read guard.boxed)
dyn_perform upgrade_guard answer (owns_read guard) =
    dyn_upgrade guard answer >>= λ r. some (owns_write r.0, r.1)
dyn_perform try_upgrade_guard answer (owns_read guard) =
    some (own_outcome (dyn_try_upgrade guard answer))
dyn_perform drop_guard answer (owns_write guard) = some (owns_nothing, drop_write guard.boxed)
dyn_perform downgrade_guard answer (owns_write guard) =
    let (new_guard, calls) = dyn_downgrade guard in some (owns_read new_guard, calls)
dyn_perform _ answer _ = none

unfoldable pub dyn_run : List (Action × Bool) → DynOwned → Option (DynOwned × List Call)
dyn_run [] owned = some (owned, [])
dyn_run ((action, answer) ∷ rest) owned = do
  (owned', calls) ← dyn_perform action answer owned
  (last, more) ← dyn_run rest owned'
  some (last, calls ++ more)

abbrev pub box_owned : Owned → DynOwned
box_owned nothing = owns_nothing
box_owned (read_guard guard) = owns_read (from_read guard)
box_owned (write_guard guard) = owns_write (from_write guard)

abbrev pub box_result : Option (Owned × List Call) → Option (DynOwned × List Call)
box_result none = none
box_result (some (owned, calls)) = some (box_owned owned, calls)

dyn_perform-perform :
    (action : Action) (answer : Bool) (o : Owned)
    → dyn_perform action answer (box_owned o) ≡ box_result (perform action answer o)
unfolding dyn_perform perform
dyn_perform-perform read_lock true nothing = refl
dyn_perform-perform read_lock false nothing = refl
dyn_perform-perform try_read_lock true nothing = refl
dyn_perform-perform try_read_lock false nothing = refl
dyn_perform-perform write_lock true nothing = refl
dyn_perform-perform write_lock false nothing = refl
dyn_perform-perform try_write_lock true nothing = refl
dyn_perform-perform try_write_lock false nothing = refl
dyn_perform-perform drop_guard answer nothing = refl
dyn_perform-perform upgrade_guard answer nothing = refl
dyn_perform-perform try_upgrade_guard answer nothing = refl
dyn_perform-perform downgrade_guard answer nothing = refl
dyn_perform-perform read_lock answer (read_guard g) = refl
dyn_perform-perform try_read_lock answer (read_guard g) = refl
dyn_perform-perform write_lock answer (read_guard g) = refl
dyn_perform-perform try_write_lock answer (read_guard g) = refl
dyn_perform-perform drop_guard answer (read_guard g) = refl
dyn_perform-perform upgrade_guard true (read_guard g) = refl
dyn_perform-perform upgrade_guard false (read_guard g) = refl
dyn_perform-perform try_upgrade_guard true (read_guard g) = refl
dyn_perform-perform try_upgrade_guard false (read_guard g) = refl
dyn_perform-perform downgrade_guard answer (read_guard g) = refl
dyn_perform-perform read_lock answer (write_guard g) = refl
dyn_perform-perform try_read_lock answer (write_guard g) = refl
dyn_perform-perform write_lock answer (write_guard g) = refl
dyn_perform-perform try_write_lock answer (write_guard g) = refl
dyn_perform-perform drop_guard answer (write_guard g) = refl
dyn_perform-perform upgrade_guard answer (write_guard g) = refl
dyn_perform-perform try_upgrade_guard answer (write_guard g) = refl
dyn_perform-perform downgrade_guard answer (write_guard g) = refl

box-rest :
    (r : Option (Owned × List Call)) (next : Owned → Option (Owned × List Call))
    (dyn_next : DynOwned → Option (DynOwned × List Call))
    → ((o : Owned) → dyn_next (box_owned o) ≡ box_result (next o))
    → (box_result r >>= λ x. dyn_next x.0 >>= λ y. some (y.0, x.1 ++ y.1))
      ≡ box_result (r >>= λ x. next x.0 >>= λ y. some (y.0, x.1 ++ y.1))
box-rest none next dyn_next h = refl
box-rest (some (o, cs)) next dyn_next h = rw (h o) (box-last (next o) cs)
  where
    box-last :
        (r : Option (Owned × List Call)) (cs : List Call)
        → (box_result r >>= λ y. some (y.0, cs ++ y.1))
          ≡ box_result (r >>= λ y. some (y.0, cs ++ y.1))
    box-last none cs = refl
    box-last (some (o, ds)) cs = refl

-- A user of a boxed lock makes the moderator's calls that a user of the lock itself makes, panics
-- where it panics, and ends with the same guard, boxed.
dyn_run-run :
    (actions : List (Action × Bool)) (o : Owned)
    → dyn_run actions (box_owned o) ≡ box_result (run actions o)
unfolding dyn_run run
dyn_run-run [] o = refl
dyn_run-run ((action, answer) ∷ rest) o =
    rw (dyn_perform-perform action answer o)
      (box-rest (perform action answer o) (run rest) (dyn_run rest) (dyn_run-run rest))
