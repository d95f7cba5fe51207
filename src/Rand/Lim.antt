-- ===== src/Rand/Lim.antt =====
-- anode/src/rand.rs: a number below a limit, by rejection. Drawing again is on fuel; `none` means
-- that it ran out, or that the limit is 0, by which the code divides.
use libmutex.Prelude.{
  ℕ, zero, suc, ◌+◌, ◌-◌, ◌*◌, ◌/◌, ◌%◌, ◌^◌, ◌<◌, ◌≤◌, inl, inr, Option-cases, ◌≡◌, ◌≢◌, arith,
  Option, none, some, ltb, leb, if◌then◌else◌,
}
use libmutex.Rand.{Rand, next_u128, u64_max}

-- The loop of `next_lim` for `u64`, and what follows it.
pub draw_until : {R : Type 0} → Rand R → ℕ → ℕ → ℕ → ℕ → R → Option (ℕ × R)
draw_until rand lim cutoff zero full rng = none
draw_until rand lim cutoff (suc f) full rng =
    let (next, rng') = rand.next_u64 rng in
    let retry = draw_until rand lim cutoff f (next * lim) rng' in
    if ltb (full % 2 ^ 64) cutoff then retry else some (full / 2 ^ 64, rng)

-- `RandLim<u64>::next_lim`. At a limit of 0 the low half is never below it, and 0 is returned.
unfoldable pub next_lim64 : {R : Type 0} → Rand R → ℕ → ℕ → R → Option (ℕ × R)
unfolding draw_until
next_lim64 rand fuel lim rng =
    let (next, rng') = rand.next_u64 rng in
    let full : ℕ = next * lim in
    if ltb (full % 2 ^ 64) lim
    then draw_until rand lim ((2 ^ 64 - lim) % lim) fuel full rng'
    else some (full / 2 ^ 64, rng')

unfoldable pub cutoff_u128 : ℕ → ℕ
cutoff_u128 lim = 2 ^ 128 - 1 - (2 ^ 128 - 1 - lim + 1) % lim

-- The loop of `next_lim` for `u128`.
pub draw_u128 : {R : Type 0} → Rand R → ℕ → ℕ → R → Option (ℕ × R)
draw_u128 rand lim zero rng = none
draw_u128 rand lim (suc f) rng =
    let (x, rng') = next_u128 rand rng in
    let retry = draw_u128 rand lim f rng' in
    if leb x (cutoff_u128 lim) then some (x % lim, rng') else retry

-- `RandLim<u128>::next_lim`
unfoldable pub next_lim128 : {R : Type 0} → Rand R → ℕ → ℕ → R → Option (ℕ × R)
unfolding draw_u128 next_lim64
next_lim128 rand fuel lim rng =
    if leb lim u64_max then next_lim64 rand fuel lim rng else draw_u128 rand lim fuel rng

-- The high half of a product of a 64-bit number and the limit is below the limit.
high_half-lt : (x lim : ℕ) → x < 2 ^ 64 → 0 < lim → x * lim / 2 ^ 64 < lim
high_half-lt x lim h p = grind arith

module _ {R : Type 0} (rand : Rand R) (bounded : (r : R) → (rand.next_u64 r).0 < 2 ^ 64) where
  -- The `k`-th number to come.
  unfoldable pub nth : ℕ → R → ℕ
  nth zero rng = (rand.next_u64 rng).0
  nth (suc k) rng = nth k (rand.next_u64 rng).1

  draw_until-lt :
      (lim cutoff f x : ℕ) (rng : R) (y : ℕ × R)
      → 0 < lim
      → x < 2 ^ 64
      → draw_until rand lim cutoff f (x * lim) rng ≡ some y
      → y.0 < lim
  unfolding draw_until
  draw_until-lt lim cutoff zero x rng y p q h = cc
  draw_until-lt lim cutoff (suc f) x rng y p q h = ground (
    arith,
    high_half-lt x lim q p,
    bounded rng,
    draw_until-lt lim cutoff f (rand.next_u64 rng).0 (rand.next_u64 rng).1 y p,
  )

  -- A number drawn below a limit is below it.
  pub next_lim64-lt :
      (fuel lim : ℕ) (rng : R) (y : ℕ × R)
      → 0 < lim
      → next_lim64 rand fuel lim rng ≡ some y
      → y.0 < lim
  unfolding next_lim64
  next_lim64-lt fuel lim rng y p h = ground (
    arith,
    bounded rng,
    high_half-lt (rand.next_u64 rng).0 lim (bounded rng) p,
    draw_until-lt lim ((2 ^ 64 - lim) % lim) fuel (rand.next_u64 rng).0 (rand.next_u64 rng).1 y p,
  )

  draw_until-ne-none :
      (lim cutoff f k full : ℕ) (rng : R)
      → k < f
      → cutoff ≤ nth k rng * lim % 2 ^ 64
      → draw_until rand lim cutoff (suc f) full rng ≢ none
  unfolding draw_until nth
  draw_until-ne-none lim cutoff zero k full rng h a = absurd (omega arith)
  draw_until-ne-none lim cutoff (suc f) zero full rng h a = ground arith
  draw_until-ne-none lim cutoff (suc f) (suc k) full rng h a =
      ground (
        arith,
        draw_until-ne-none lim cutoff f k ((rand.next_u64 rng).0 * lim) (rand.next_u64 rng).1,
      )

  pub next_lim64-ne-none :
      (fuel lim k : ℕ) (rng : R)
      → k < fuel
      → (2 ^ 64 - lim) % lim ≤ nth k rng * lim % 2 ^ 64
      → next_lim64 rand (suc fuel) lim rng ≢ none
  unfolding next_lim64 nth
  next_lim64-ne-none fuel lim zero rng h a = ground arith
  next_lim64-ne-none fuel lim (suc k) rng h a = ground (
    arith,
    draw_until-ne-none lim ((2 ^ 64 - lim) % lim) fuel k ((rand.next_u64 rng).0 * lim)
        (rand.next_u64 rng).1,
  )

  -- `next_lim` for `u64` returns, with a number below the limit, if one of the next `fuel`
  -- numbers of the generator has a product whose low half is not rejected.
  pub next_lim64-total :
      (fuel lim k : ℕ) (rng : R)
      → 0 < lim
      → k < fuel
      → (2 ^ 64 - lim) % lim ≤ nth k rng * lim % 2 ^ 64
      → (y : ℕ × R) × (next_lim64 rand (suc fuel) lim rng ≡ some y) × (y.0 < lim)
  next_lim64-total fuel lim k rng p h a = elim (Option-cases (next_lim64 rand (suc fuel) lim rng)) [
    | inl e ↦ absurd (next_lim64-ne-none fuel lim k rng h a e)
    | inr (y, e) ↦ (y, e, next_lim64-lt (suc fuel) lim rng y p e)
  ]

-- The same for `u128`, beyond the `u64` limits: an accepted draw is reduced.
pub draw_u128-lt :
    {R : Type 0} (rand : Rand R) (lim fuel : ℕ) (rng : R) (y : ℕ × R)
    → 0 < lim
    → draw_u128 rand lim fuel rng ≡ some y
    → y.0 < lim
unfolding draw_u128
draw_u128-lt rand lim zero rng y p h = cc
draw_u128-lt rand lim (suc f) rng y p h =
    ground (arith, draw_u128-lt rand lim f (next_u128 rand rng).1 y p)

-- The `k`-th 128-bit number to come.
unfoldable pub nth_u128 : {R : Type 0} → Rand R → ℕ → R → ℕ
nth_u128 rand zero rng = (next_u128 rand rng).0
nth_u128 rand (suc k) rng = nth_u128 rand k (next_u128 rand rng).1

-- The loop for `u128` returns if one of the draws that the fuel allows is accepted.
pub draw_u128-ne-none :
    {R : Type 0} (rand : Rand R) (lim fuel k : ℕ) (rng : R)
    → k < fuel
    → nth_u128 rand k rng ≤ cutoff_u128 lim
    → draw_u128 rand lim fuel rng ≢ none
unfolding draw_u128 nth_u128
draw_u128-ne-none rand lim zero k rng h a = absurd (omega arith)
draw_u128-ne-none rand lim (suc f) zero rng h a = ground arith
draw_u128-ne-none rand lim (suc f) (suc k) rng h a =
    ground (arith, draw_u128-ne-none rand lim f k (next_u128 rand rng).1)

-- What is left of `m` below the last whole multiple of `lim` is a multiple.
sub-mod_self : (m lim : ℕ) → 0 < lim → lim ≤ m → (m - (m - lim) % lim) % lim ≡ 0
sub-mod_self m lim p h = grind arith

-- Every number that the `u128` loop accepts lies below a multiple of the limit, so that no
-- remainder is favoured.
pub cutoff_u128-mod : (lim : ℕ) → 0 < lim → lim < 2 ^ 128 → (cutoff_u128 lim + 1) % lim ≡ 0
unfolding cutoff_u128
cutoff_u128-mod lim p h = ground (arith, sub-mod_self (2 ^ 128) lim p)
