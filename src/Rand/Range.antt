-- ===== src/Rand/Range.antt =====
-- anode/src/rand.rs: a number or a duration in a range `start..end`.
use libmutex.Prelude.{
  ℕ, suc, Bool, true, ◌≢◌, none, ◌+◌, ◌-◌, ◌*◌, ◌/◌, ◌%◌, ◌^◌, ◌<◌, ◌≤◌, ◌≡◌, arith, inl, inr,
  Option-cases, Option, some, leb, if◌then◌else◌, ◌>>=◌,
}
use libmutex.Time.{nanos_per_sec, duration_max}
use libmutex.Rand.{Rand, u64_max}
use libmutex.Rand.Lim.{
  next_lim64, next_lim128, next_lim64-lt, draw_u128-lt, nth, nth_u128, cutoff_u128,
  next_lim64-ne-none, draw_u128-ne-none,
}

-- `RandRange<u64>::next_range`
unfoldable pub next_range64 : {R : Type 0} → Rand R → ℕ → ℕ → ℕ → R → Option (ℕ × R)
next_range64 rand fuel start end rng = if leb end start then some (start, rng) else do
  let span = end - start
  (x, rng') ← next_lim64 rand fuel span rng
  some (start + x, rng')

-- `RandRange<u128>::next_range`
unfoldable pub next_range128 : {R : Type 0} → Rand R → ℕ → ℕ → ℕ → R → Option (ℕ × R)
next_range128 rand fuel start end rng = if leb end start then some (start, rng) else do
  let span = end - start
  (random, rng') ← next_lim128 rand fuel span rng
  some (start + random, rng')

-- `duration_from_nanos`: `Duration::new` of the seconds as a `u64` and the rest as a `u32`.
unfoldable pub duration_from_nanos : ℕ → ℕ
duration_from_nanos nanos =
    let secs : ℕ = nanos / nanos_per_sec % 2 ^ 64 in
    let rest : ℕ = nanos % nanos_per_sec % 2 ^ 32 in secs * nanos_per_sec + rest

-- `RandRange<Duration>::next_range`
unfoldable pub next_range_duration : {R : Type 0} → Rand R → ℕ → ℕ → ℕ → R → Option (ℕ × R)
next_range_duration rand fuel start end rng = if leb end start then some (start, rng) else do
  let span = end - start
  (random, rng') ← next_lim128 rand fuel span rng
  some (start + duration_from_nanos random, rng')

-- `FixedDuration::next_range`
unfoldable pub fixed_range : ℕ → ℕ → ℕ
fixed_range start end = if leb end start then start else end - 1

-- `duration_from_nanos` gives back every duration from its count of nanoseconds.
pub duration_from_nanos_lem : (nanos : ℕ) → nanos ≤ duration_max → duration_from_nanos nanos ≡ nanos
unfolding duration_from_nanos
duration_from_nanos_lem nanos h = omega arith

-- The fixed choice lies in a range that is not empty, and is its last nanosecond.
pub fixed_range-bounds :
    (start end : ℕ)
    → start < end
    → (start ≤ fixed_range start end) × (fixed_range start end + 1 ≡ end)
unfolding fixed_range
fixed_range-bounds start end h = ground arith

module _ {R : Type 0} (rand : Rand R) (bounded : (r : R) → (rand.next_u64 r).0 < 2 ^ 64) where
  next_lim128-lt :
      (fuel lim : ℕ) (rng : R) (y : ℕ × R)
      → 0 < lim
      → next_lim128 rand fuel lim rng ≡ some y
      → y.0 < lim
  unfolding next_lim128
  next_lim128-lt fuel lim rng y p h =
      ground
        (arith, next_lim64-lt rand bounded fuel lim rng y p, draw_u128-lt rand lim fuel rng y p)

  -- A number drawn from a range of 64-bit numbers that is not empty lies in it.
  pub next_range64-bounds :
      (fuel start end : ℕ) (rng : R) (x : ℕ) (rng' : R)
      → start < end
      → next_range64 rand fuel start end rng ≡ some (x, rng')
      → (start ≤ x) × (x < end)
  unfolding next_range64
  next_range64-bounds fuel start end rng x rng' p h =
      ground (arith, next_lim64-lt rand bounded fuel (end - start) rng (x - start, rng'))

  next_range_duration-lt :
      (fuel start end : ℕ) (rng : R) (random : ℕ) (rng' : R)
      → start < end
      → end ≤ duration_max
      → next_lim128 rand fuel (end - start) rng ≡ some (random, rng')
      → (next_range_duration rand fuel start end rng
          ≡ some (start + duration_from_nanos random, rng'))
        × (start ≤ start + duration_from_nanos random)
        × (start + duration_from_nanos random < end)
  unfolding next_range_duration
  next_range_duration-lt fuel start end rng random rng' p q e =
      let small = next_lim128-lt fuel (end - start) rng (random, rng') (omega arith) e in
      let same = duration_from_nanos_lem random (omega (arith, small)) in
      (ground (arith, e), omega arith, omega (arith, small, same))

  -- Is the `k`-th draw below `lim` kept, where the next numbers are drawn with `rng`? A limit of
  -- 64 bits draws such numbers, another one numbers of 128 bits.
  abbrev pub is_kept : ℕ → ℕ → R → Bool
  is_kept lim k rng =
      if leb lim u64_max
      then leb ((2 ^ 64 - lim) % lim) (nth rand bounded k rng * lim % 2 ^ 64)
      else leb (nth_u128 rand k rng) (cutoff_u128 lim)

  next_lim128-ne-none :
      (fuel lim k : ℕ) (rng : R)
      → k < fuel
      → is_kept lim k rng ≡ true
      → next_lim128 rand (suc fuel) lim rng ≢ none
  unfolding next_lim128
  next_lim128-ne-none fuel lim k rng h a = ground (
    arith,
    next_lim64-ne-none rand bounded fuel lim k rng h,
    draw_u128-ne-none rand lim (suc fuel) k rng,
  )

  -- A duration is drawn from a range that is not empty, and lies in it, if one of the draws that the
  -- fuel allows is kept: one whose product has a low half that is not rejected, or, if the range is
  -- longer than 2 ^ 64 - 1 nanoseconds, one that is not above the cutoff.
  pub next_range_duration-total :
      (fuel start end k : ℕ) (rng : R)
      → start < end
      → end ≤ duration_max
      → k < fuel
      → is_kept (end - start) k rng ≡ true
      → (x : ℕ) × (rng' : R) × (next_range_duration rand (suc fuel) start end rng ≡ some (x, rng'))
        × (start ≤ x)
        × (x < end)
  next_range_duration-total fuel start end k rng p q h a =
      elim (Option-cases (next_lim128 rand (suc fuel) (end - start) rng)) [
        | inl e ↦ absurd (next_lim128-ne-none fuel (end - start) k rng h a e)
        | inr ((random, rng'), e) ↦
            let r = next_range_duration-lt (suc fuel) start end rng random rng' p q e in
            (start + duration_from_nanos random, rng', r.0, r.1, r.2)
      ]
