-- ===== src/Rand.antt =====
-- anode/src/rand.rs: pseudo-random numbers. A generator is a state and a function that returns the
-- next number with the new state. Products and shifts are written with their wrap-around.
pub mod Bits
pub mod Generators
pub mod Lim
pub mod Range
pub mod Cycle
use Prim.Native.Nat.{bit_or, bit_xor}
use libmutex.Prelude.{
  ℕ, ◌+◌, ◌-◌, ◌*◌, ◌/◌, ◌%◌, ◌^◌, Bool, Option, none, some, ltb, ◌==◌, if◌then◌else◌,
}

abbrev pub u64_max : ℕ
u64_max = 2 ^ 64 - 1

-- The trait `Rand`: its required method.
pub record Rand (R : Type 0) : Type 0 where
  pub next_u64 : R → ℕ × R

-- `Rand::next_u128`
pub next_u128 : {R : Type 0} → Rand R → R → ℕ × R
next_u128 rand rng =
    let (high, rng') = rand.next_u64 rng in
    let (low, rng'') = rand.next_u64 rng' in (bit_or (high * 2 ^ 64) low, rng'')

-- `Rand::next_bool`. There are no floats here: the argument is the cutoff that the code computes
-- from the probability, `(p.0 * u64::MAX as f64) as u64`.
unfoldable pub next_bool : {R : Type 0} → Rand R → ℕ → R → Bool × R
next_bool rand cutoff rng =
    let (next, rng') = rand.next_u64 rng in
    (ltb (if next == u64_max then u64_max - 1 else next) cutoff, rng')

-- `x << k` and `x >> k` on a `u64`.
abbrev pub shl64 : ℕ → ℕ → ℕ
shl64 x k = x * 2 ^ k % 2 ^ 64

abbrev pub shr64 : ℕ → ℕ → ℕ
shr64 x k = x / 2 ^ k

-- `Xorshift::next_u64`. The number returned has one more shift than the state that is kept.
unfoldable pub xorshift_next : ℕ → ℕ × ℕ
xorshift_next self =
    let s : ℕ = bit_xor self (shl64 self 13) in
    let s' : ℕ = bit_xor s (shr64 s 7) in (bit_xor s' (shl64 s' 17), s')

abbrev pub xorshift : Rand ℕ
xorshift = record { next_u64 = xorshift_next }

-- `Xorshift::seed`: `u64::MAX >> 1` in place of 0.
unfoldable pub xorshift_seed : ℕ → ℕ
xorshift_seed seed = if seed == 0 then shr64 u64_max 1 else seed

-- `Wyrand::next_u64`
unfoldable pub wyrand_next : ℕ → ℕ × ℕ
wyrand_next self =
    let self' : ℕ = (self + 0xA0761D6478BD642F) % 2 ^ 64 in
    let r : ℕ = self' * bit_xor self' 0xE7037ED1A0B428DB in
    (bit_xor (r % 2 ^ 64) (r / 2 ^ 64 % 2 ^ 64), self')

-- `Wyrand::seed`
abbrev wyrand_seed : ℕ → ℕ
wyrand_seed seed = seed

abbrev pub wyrand : Rand ℕ
wyrand = record { next_u64 = wyrand_next }

-- `CyclicSeed::new` and `CyclicSeed::default`
abbrev cyclic_new : ℕ → ℕ
cyclic_new seed = seed

abbrev cyclic_default : ℕ
cyclic_default = 0

-- `CyclicSeed::next`
unfoldable pub cyclic_next : ℕ → ℕ × ℕ
cyclic_next self = (self, if self == u64_max then 0 else self + 1)

-- `LazyRand64`: seeded when it is first used. `none` stands for a state that has been taken out.
pub data InitState (R : Type 0) : Type 0 where
  uninit : ℕ → InitState R
  ready : R → InitState R

-- `LazyRand64::lazy` and `LazyRand64::eager`
abbrev pub lazy : {R : Type 0} → ℕ → Option (InitState R)
lazy f = some (uninit f)

abbrev pub eager : {R : Type 0} → R → Option (InitState R)
eager rng = some (ready rng)

-- `LazyRand64::next_u64`; the closure that makes the seed is the seed. `none` is `unreachable!()`.
unfoldable pub lazy_next :
    {R : Type 0} → Rand R → (ℕ → R) → Option (InitState R) → Option (ℕ × Option (InitState R))
lazy_next rand seed none = none
lazy_next rand seed (some (uninit f)) =
    let (next, rng) = rand.next_u64 (seed f) in some (next, some (ready rng))
lazy_next rand seed (some (ready r)) =
    let (next, rng) = rand.next_u64 r in some (next, some (ready rng))

-- `clock_seed`, given the nanoseconds since the epoch, a `u128`.
abbrev clock_seed : ℕ → ℕ
clock_seed time = bit_xor (time / 2 ^ 64) time % 2 ^ 64
