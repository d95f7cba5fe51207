-- ===== src/Rand/Generators.antt =====
-- anode/src/rand.rs: the numbers of the generators.
use Prim.Native.Nat.{bit_xor}
use libmutex.Prelude.{ℕ, ◌^◌, ◌<◌, ◌≡◌, arith, zero, suc, dec_lt}
use libmutex.Rand.{Rand, shl64, shr64, xorshift_next, xorshift_seed, xorshift, wyrand_next, wyrand}
use libmutex.Rand.Bits.{bit_xor-lt, bit_xor-zero}

-- A `u64` that is not 0.
pub record IsState (s : ℕ) : Type 0 where
  pub positive : 0 < s
  pub below : s < 2 ^ 64

-- An exclusive or with another number that differs.
mixed : (s t : ℕ) → IsState s → t < 2 ^ 64 → (s ≡ t → ⊥) → IsState (bit_xor s t)
mixed s t h lt d = record {
  positive = elim (dec_lt 0 (bit_xor s t)) [
    | yes p ↦ p
    | no z ↦ absurd (d (bit_xor-zero s t (omega arith)))
  ];
  below = bit_xor-lt 64 s t h.below lt;
}

left-IsState : (k s : ℕ) → IsState s → (s ≡ shl64 s k → ⊥) → IsState (bit_xor s (shl64 s k))
left-IsState k s h d = mixed s (shl64 s k) h (omega arith) d

pub xorshift_next-IsState :
    (s : ℕ) → IsState s → IsState (xorshift_next s).0 × IsState (xorshift_next s).1
unfolding xorshift_next
xorshift_next-IsState s h =
    let first = left-IsState 13 s h (λ e. absurd (omega (arith, h.positive, h.below))) in
    let a = bit_xor s (shl64 s 13) in
    let second =
      mixed a (shr64 a 7) first (omega (arith, first.below))
        (λ e. absurd (omega (arith, first.positive))) in
    let b = bit_xor a (shr64 a 7) in
    (left-IsState 17 b second (λ e. absurd (omega (arith, second.positive, second.below))), second)

-- The generator after `n` draws.
unfoldable pub after : {R : Type 0} → Rand R → ℕ → R → R
after rand zero rng = rng
after rand (suc n) rng = after rand n (rand.next_u64 rng).1

after-IsState : (n s : ℕ) → IsState s → IsState (after xorshift n s)
unfolding after
after-IsState zero s h = h
after-IsState (suc n) s h = after-IsState n (xorshift_next s).1 (xorshift_next-IsState s h).1

seed-IsState : (seed : ℕ) → seed < 2 ^ 64 → IsState (xorshift_seed seed)
unfolding xorshift_seed
seed-IsState seed h = elim (dec_lt 0 seed) [
  | yes p ↦ record { positive = ground arith; below = ground arith }
  | no z ↦ record { positive = ground arith; below = ground arith }
]

-- For every seed of 64 bits, 0 included, and after any number of draws, the state of the xorshift generator and the number it
-- draws next are below 2 ^ 64 and not 0.
pub xorshift-IsState :
    (seed : ℕ)
    → seed < 2 ^ 64
    → (n : ℕ)
    → IsState (after xorshift n (xorshift_seed seed))
      × IsState (xorshift.next_u64 (after xorshift n (xorshift_seed seed))).0
xorshift-IsState seed h n =
    let state = after-IsState n (xorshift_seed seed) (seed-IsState seed h) in
    (state, (xorshift_next-IsState (after xorshift n (xorshift_seed seed)) state).0)

-- The numbers of a generator are of 64 bits, as long as its state keeps a condition.
pub record IsU64 {R : Type 0} (rand : Rand R) : Type 1 where
  pub Keeps : R → Type 0
  pub next : (r : R) → Keeps r → ((rand.next_u64 r).0 < 2 ^ 64) × Keeps (rand.next_u64 r).1

unfoldable pub xorshift-IsU64 : IsU64 xorshift
xorshift-IsU64 = record {
  Keeps = IsState;
  next = λ s h. let (drawn, state) = xorshift_next-IsState s h in (drawn.below, state);
}

unfoldable pub wyrand-IsU64 : IsU64 wyrand
unfolding wyrand_next
wyrand-IsU64 = record {
  Keeps = λ _. Unit;
  next = λ s _. (bit_xor-lt 64 _ _ (omega arith) (omega arith), tt);
}
