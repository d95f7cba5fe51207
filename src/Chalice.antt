-- ===== src/Chalice.antt =====
-- anode/src/chalice.rs: data that is marked as poisoned when a thread panics while it may write.
-- A `MutGuard` is the exclusive borrow of its chalice: it is the chalice, handed over until the
-- guard is dropped. `thread::panicking()` is an argument.
pub mod Sessions
use libmutex.Prelude.{Bool, true, false, if◌then◌else◌}

pub record Chalice (T : Type 0) : Type 0 where
  pub poisoned : Bool
  pub inner : T

pub record MutGuard (T : Type 0) : Type 0 where
  pub chalice : Chalice T

-- `Result<T, Poisoned<T>>`
pub data ChaliceResult (T : Type 0) : Type 0 where
  ok : T → ChaliceResult T
  poisoned : T → ChaliceResult T

module _ {T : Type 0} where
  -- `ChaliceResultExt::either`
  unfoldable pub either : ChaliceResult T → T
  either (ok t) = t
  either (poisoned t) = t

  unfoldable pub new : T → Chalice T
  new t = record { inner = t; poisoned = false }

  unfoldable pub clear_poison : Chalice T → Chalice T
  clear_poison c = record c { poisoned = false }

  unfoldable pub borrow : Chalice T → ChaliceResult T
  borrow c = if c.poisoned then poisoned c.inner else ok c.inner

  unfoldable pub borrow_mut : Chalice T → ChaliceResult (MutGuard T)
  borrow_mut c =
      let guard : MutGuard T = record { chalice = c } in
      if c.poisoned then poisoned guard else ok guard

  pub poison : Chalice T → Chalice T
  poison c = record c { poisoned = true }

  -- `MutGuard::drop`
  unfoldable pub drop : Bool → MutGuard T → Chalice T
  unfolding poison
  drop panicking g = if panicking then poison g.chalice else g.chalice

  -- A write through `deref_mut`.
  unfoldable pub write : (T → T) → MutGuard T → MutGuard T
  write f g = record { chalice = record g.chalice { inner = f g.chalice.inner } }

  -- `MutGuard::clear_poison`
  unfoldable pub guard_clear_poison : MutGuard T → MutGuard T
  unfolding clear_poison
  guard_clear_poison g = record { chalice = clear_poison g.chalice }
