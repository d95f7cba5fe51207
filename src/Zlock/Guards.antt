-- ===== src/Zlock/Guards.antt =====
-- anode/src/zlock.rs: the guards as values, and the calls of the moderator that each method makes.
-- A method is given the moderator's answer, and returns its result with the calls in their order;
-- `none` is the panic of an `unwrap`. The pointers to the protected data are left out.
pub mod Discipline
pub mod Dyn
use libmutex.Prelude.{
  Bool, true, false, Option, none, some, List, [], ◌∷◌, ◌++◌, if◌then◌else◌, ◌>>=◌,
}
use libmutex.Zlock.Moderator.{Kind}

-- A call of the moderator, with its answer, which is `true` where it has none.
pub record Call : Type 0 where
  pub kind : Kind
  pub answer : Bool

pub record LockReadGuard : Type 0 where
  pub locked : Bool

pub record LockWriteGuard : Type 0 where
  pub locked : Bool

pub data UpgradeOutcome (W R : Type 0) : Type 0 where
  upgraded_to : W → UpgradeOutcome W R
  unchanged_from : R → UpgradeOutcome W R

-- `UpgradeOutcome::upgraded`
unfoldable pub upgraded : {W R : Type 0} → UpgradeOutcome W R → Option W
upgraded (upgraded_to guard) = some guard
upgraded (unchanged_from _) = none

-- `UpgradeOutcome::unchanged`
unfoldable pub unchanged : {W R : Type 0} → UpgradeOutcome W R → Option R
unchanged (upgraded_to _) = none
unchanged (unchanged_from guard) = some guard

-- `UpgradeOutcome::map`
unfoldable pub map_outcome :
    {W R V Q : Type 0} → (W → V) → (R → Q) → UpgradeOutcome W R → UpgradeOutcome V Q
map_outcome f_w f_r (upgraded_to w) = upgraded_to (f_w w)
map_outcome f_w f_r (unchanged_from r) = unchanged_from (f_r r)

abbrev called : Kind → Bool → List Call
called k answer = record { kind = k; answer = answer } ∷ []

-- The drop of each guard.
unfoldable pub drop_read : LockReadGuard → List Call
drop_read guard = if guard.locked then called Kind.read_unlock true else []

unfoldable pub drop_write : LockWriteGuard → List Call
drop_write guard = if guard.locked then called Kind.write_unlock true else []

-- `ZLock::try_read`
unfoldable pub try_read : Bool → Option LockReadGuard × List Call
try_read answer =
    ((if answer then some (record { locked = true }) else none), called Kind.try_read answer)

-- `ZLock::try_write`
unfoldable pub try_write : Bool → Option LockWriteGuard × List Call
try_write answer =
    ((if answer then some (record { locked = true }) else none), called Kind.try_write answer)

-- `ZLock::try_upgrade`
pub lock_try_upgrade : Bool → Option LockWriteGuard × List Call
lock_try_upgrade answer =
    ((if answer then some (record { locked = true }) else none), called Kind.try_upgrade answer)

-- `Option::unwrap`, the calls having been made.
abbrev pub unwrap : {A : Type 0} → Option A × List Call → Option (A × List Call)
unwrap (guard, calls) = guard >>= λ g. some (g, calls)

-- `ZLock::read` and `ZLock::write`
unfoldable pub read : Bool → Option (LockReadGuard × List Call)
unfolding try_read
read answer = unwrap (try_read answer)

unfoldable pub write : Bool → Option (LockWriteGuard × List Call)
unfolding try_write
write answer = unwrap (try_write answer)

-- `LockReadGuard::upgrade`; `self` is dropped at its end.
unfoldable pub upgrade : LockReadGuard → Bool → Option (LockWriteGuard × List Call)
unfolding lock_try_upgrade drop_read
upgrade guard answer = do
  (new_guard, calls) ← unwrap (lock_try_upgrade answer)
  some (new_guard, calls ++ drop_read (record guard { locked = false }))

-- What `LockReadGuard::try_upgrade` makes of the answer.
abbrev pub upgrade_outcome :
    LockReadGuard
    → Option LockWriteGuard × List Call
    → UpgradeOutcome LockWriteGuard LockReadGuard × List Call
upgrade_outcome guard (none, calls) = (unchanged_from guard, calls)
upgrade_outcome guard (some new_guard, calls) =
    (upgraded_to new_guard, calls ++ drop_read (record guard { locked = false }))

-- `LockReadGuard::try_upgrade`
unfoldable pub try_upgrade :
    LockReadGuard → Bool → UpgradeOutcome LockWriteGuard LockReadGuard × List Call
unfolding lock_try_upgrade drop_read
try_upgrade guard answer = upgrade_outcome guard (lock_try_upgrade answer)

-- `LockWriteGuard::downgrade`; `self` is dropped at its end.
unfoldable pub downgrade : LockWriteGuard → LockReadGuard × List Call
unfolding drop_write
downgrade guard = (
  record { locked = true },
  called Kind.downgrade true ++ drop_write (record guard { locked = false }),
)

-- What one user of the lock owns, and what it may do with it; a time limit shows in the answer.
pub data Owned : Type 0 where
  nothing : Owned
  read_guard : LockReadGuard → Owned
  write_guard : LockWriteGuard → Owned

pub data Action : Type 0 where
  read_lock try_read_lock write_lock try_write_lock : Action
  drop_guard upgrade_guard try_upgrade_guard downgrade_guard : Action

-- The guard of an option, or nothing.
abbrev pub own_read : Option LockReadGuard × List Call → Owned × List Call
own_read (none, calls) = (nothing, calls)
own_read (some guard, calls) = (read_guard guard, calls)

abbrev pub own_write : Option LockWriteGuard × List Call → Owned × List Call
own_write (none, calls) = (nothing, calls)
own_write (some guard, calls) = (write_guard guard, calls)

abbrev pub own_outcome : UpgradeOutcome LockWriteGuard LockReadGuard × List Call → Owned × List Call
own_outcome (upgraded_to guard, calls) = (write_guard guard, calls)
own_outcome (unchanged_from guard, calls) = (read_guard guard, calls)

-- One action on what is owned. `none` is a panic, or an action that the types do not allow.
unfoldable pub perform : Action → Bool → Owned → Option (Owned × List Call)
unfolding try_read try_write read write upgrade try_upgrade downgrade drop_read drop_write
perform read_lock answer nothing = read answer >>= λ r. some (read_guard r.0, r.1)
perform try_read_lock answer nothing = some (own_read (try_read answer))
perform write_lock answer nothing = write answer >>= λ r. some (write_guard r.0, r.1)
perform try_write_lock answer nothing = some (own_write (try_write answer))
perform drop_guard answer (read_guard guard) = some (nothing, drop_read guard)
perform upgrade_guard answer (read_guard guard) =
    upgrade guard answer >>= λ r. some (write_guard r.0, r.1)
perform try_upgrade_guard answer (read_guard guard) = some (own_outcome (try_upgrade guard answer))
perform drop_guard answer (write_guard guard) = some (nothing, drop_write guard)
perform downgrade_guard answer (write_guard guard) =
    let (new_guard, calls) = downgrade guard in some (read_guard new_guard, calls)
perform _ answer _ = none

-- A sequence of actions, each with the moderator's answer.
unfoldable pub run : List (Action × Bool) → Owned → Option (Owned × List Call)
run [] owned = some (owned, [])
run ((action, answer) ∷ rest) owned = do
  (owned', calls) ← perform action answer owned
  (last, more) ← run rest owned'
  some (last, calls ++ more)
