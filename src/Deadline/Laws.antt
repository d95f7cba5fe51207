-- ===== src/Deadline/Laws.antt =====
-- anode/src/deadline.rs: what `remaining` returns.
use libmutex.Prelude.{
  ℕ, ◌+◌, ◌-◌, ◌≤◌, ◌≡◌, refl, arith, true, some, if◌then◌else◌, ◌==◌, ltb, ◌||◌,
}
use libmutex.Time.{duration_max, instant_max}
use libmutex.Deadline.Defs.{
  Deadline, point, forever, uninitialized, elapsed, lazy_after, remaining, is_endless,
}

-- What a caller of `lazy_after dur`, first asked at time `t`, expects to be left at time `now`.
abbrev pub time_left : ℕ → ℕ → ℕ → ℕ
time_left dur t now =
    if dur == 0
    then 0
    else if dur == duration_max || ltb instant_max (t + dur)
    then duration_max
    else t + dur - now

-- `remaining` never reaches its `unreachable!()`.
pub remaining-total : (t u : ℕ) (d : Deadline) → (r : ℕ) × ((remaining t u d).1 ≡ some r)
unfolding remaining
remaining-total t u (point i) = (i - u, refl)
remaining-total t u forever = (duration_max, refl)
remaining-total t u elapsed = (0, refl)
remaining-total t u (uninitialized dur) = (time_left dur t u, ground arith)

-- A deadline is fixed by the first call of `remaining`: every later call leaves it as it is, and
-- counts down from the time of the first one.
pub remaining-remaining :
    (dur t u t' u' : ℕ)
    → let d = (remaining t u (lazy_after dur)).0 in
      remaining t' u' d ≡ (d, some (time_left dur t u'))
unfolding remaining lazy_after
remaining-remaining dur t u t' u' = ground arith

-- The first call of `remaining` on a lazy deadline already counts from its own first reading.
pub remaining-lazy_after :
    (dur t u : ℕ) → (remaining t u (lazy_after dur)).1 ≡ some (time_left dur t u)
unfolding remaining lazy_after
remaining-lazy_after dur t u = ground arith

-- The time left never grows as the clock goes on.
pub time_left-le : (dur t u v : ℕ) → u ≤ v → time_left dur t v ≤ time_left dur t u
time_left-le dur t u v h = ground arith

-- A deadline that never comes always leaves `Duration::MAX`.
pub remaining-endless :
    (t u : ℕ) (d : Deadline) → is_endless d ≡ true → remaining t u d ≡ (forever, some duration_max)
unfolding remaining
remaining-endless t u (point i) h = absurd cc
remaining-endless t u forever h = refl
remaining-endless t u elapsed h = absurd cc
remaining-endless t u (uninitialized dur) h = ground arith
