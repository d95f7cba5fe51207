-- ===== src/Prelude/Checked.antt =====
-- Fallible evaluation. `none` is a panic: a failed `debug_assert!`, or an arithmetic overflow, as
-- in the debug profile; where nothing panics, the release profile computes the same values.
use Prim.Native.Nat.{ℕ, ◌+◌, ◌-◌, ◌^◌}
use mathlib.Core.Bool.{Bool, true, false}
use mathlib.Core.Option.{Option, none, some}
use libmutex.Prelude.Tests.{ltb, if◌then◌else◌}

infixl 5 ◌>>=◌ ◌>>◌
abbrev pub ◌>>=◌ {ℓ κ} : {A : Type ℓ} {B : Type κ} → Option A → (A → Option B) → Option B
none >>= f = none
some a >>= f = f a

abbrev pub ◌>>◌ {ℓ} : {B : Type ℓ} → Option (Unit {0}) → Option B → Option B
m >> k = m >>= λ _. k

abbrev pub debug_assert : Bool → Option (Unit {0})
debug_assert true = some tt
debug_assert false = none

-- `n + 1` on an unsigned integer of `w` bits.
abbrev pub checked_inc : ℕ → ℕ → Option ℕ
checked_inc w n = if ltb (n + 1) (2 ^ w) then some (n + 1) else none

-- `n - 1` on an unsigned integer.
abbrev pub checked_dec : ℕ → Option ℕ
checked_dec n = if ltb 0 n then some (n - 1) else none
