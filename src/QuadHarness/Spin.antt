-- ===== src/QuadHarness/Spin.antt =====
-- anode-bench/src/quad_harness.rs: `spin_a_while`, the delays inside and outside of the critical
-- sections.
use libmutex.Prelude.{
  ℕ, zero, suc, ◌+◌, ◌*◌, ◌<◌, ◌≤◌, ◌^◌, ◌≡◌, refl, arith, not, Option, none, some, ltb, ◌==◌,
  if◌then◌else◌, debug_assert, ◌>>=◌,
}

-- `val += i` on a `u32`.
abbrev add_u32 : ℕ → ℕ → Option ℕ
add_u32 val i = if ltb (val + i) (2 ^ 32) then some (val + i) else none

-- The rounds that are left, from round `i`.
pub spin_from : (left i val : ℕ) → Option ℕ
spin_from zero i val = some val
spin_from (suc left) i val = add_u32 val i >>= λ more. spin_from left (i + 1) more

unfoldable pub spin_a_while : ℕ → Option (Unit {0})
unfolding spin_from
spin_a_while yields = do val ← spin_from yields 0 1; debug_assert (not (val == 0))

-- What the rounds from `i` on add fits if twice of it does.
spin_from-some :
    (left i val : ℕ)
    → 2 * val + left * (2 * i + left) < 2 ^ 33 + left
    → (v : ℕ) × (spin_from left i val ≡ some v) × (val ≤ v)
unfolding spin_from
spin_from-some zero i val h = (val, refl, omega arith)
spin_from-some (suc left) i val h =
    let unroll : suc left * (2 * i + suc left) ≡ left * (2 * (i + 1) + left) + 2 * i + 1 =
      grind arith in
    let more : left ≤ left * (2 * (i + 1) + left) = grind arith in
    let (v, e, le) = spin_from-some left (i + 1) (val + i) (omega (arith, unroll)) in
    let fits : val + i < 2 ^ 32 = omega (arith, unroll, more) in
    (v, ground (arith, fits, e), omega (arith, le))

-- The delay returns, without an overflow of its `u32` and without a failed assertion, for every
-- number of rounds up to 92682.
pub spin_a_while-returns : (yields : ℕ) → yields ≤ 92682 → spin_a_while yields ≡ some tt
unfolding spin_a_while
spin_a_while-returns yields small =
    let square : yields * yields ≤ 92682 * yields = grind arith in
    let (v, e, le) = spin_from-some yields 0 1 (omega (arith, square)) in ground (arith, e, le)
