-- ===== src/Monitor/Counts.antt =====
-- anode/src/monitor.rs: who holds the two locks, and what `waiting` counts.
use libmutex.Prelude.{
  ℕ, ◌+◌, ◌-◌, ◌≡◌, arith, Bool, true, false, Option, some, Option-cases, inl, inr,
}
use libmutex.Monitor.Defs.{Directive, return, wait, notify_one, notify_all, Turn}
use libmutex.Monitor.Machine.{
  Frame, Pc, contending, inside, about_to_wait, parked, resuming, expired, expiring, releasing,
  leaving, Shared, dispatch, round, again, Move, enter, acquire, evaluate, lock, park, wake,
  time_out, resume, expire, unregister, release, leave, owning, request, own, assign, disown,
}

abbrev pub flag : Bool → ℕ
flag true = 1
flag false = 0

module _ {L : Type 0} where
  -- Holds the spin lock.
  abbrev pub spins : Pc L → ℕ
  spins (inside _ _ _) = 1
  spins (expiring _) = 1
  spins owning = 1
  spins _ = 0

  -- Holds the mutex.
  abbrev pub holds : Pc L → ℕ
  holds (contending _ guard _) = flag guard
  holds (inside _ guard _) = flag guard
  holds (about_to_wait _ _) = 1
  holds (expired _) = 1
  holds (expiring _) = 1
  holds (releasing _ _) = 1
  holds (leaving _ guard) = flag guard
  holds _ = 0

  -- Is counted in `waiting`.
  abbrev pub registered : Pc L → ℕ
  registered (contending _ _ woken) = flag woken
  registered (inside _ _ woken) = flag woken
  registered (about_to_wait _ _) = 1
  registered (parked _ _) = 1
  registered (resuming _ _) = 1
  registered (expired _) = 1
  registered (expiring _) = 1
  registered _ = 0

pub record Counts {S : Type 0} (m : Shared S) (spinning holding registrations : ℕ) : Type 0 where
  pub spin_held : flag m.locked ≡ spinning
  pub mutex_held : flag m.mutex ≡ holding
  pub waiting_counted : m.waiting ≡ registrations

module _ {L S : Type 0} (f : ℕ → ℕ → L → S → Option (Turn L S)) where
  dispatch-counts :
      (c : Frame L) (d : Directive) (guard : Bool) (w w' : ℕ) (p : Pc L)
      → dispatch c d guard w ≡ some (w', p)
      → (spins p ≡ 0) × (holds p ≡ flag guard) × (w' ≡ w + registered p)
  unfolding dispatch
  dispatch-counts c return guard w w' p h = ground arith
  dispatch-counts c (wait d) guard w w' p h = ground arith
  dispatch-counts c notify_one guard w w' p h = ground arith
  dispatch-counts c notify_all guard w w' p h = ground arith

  -- A round keeps the counts: the thread gives up the spin lock and keeps the mutex, and `waiting`
  -- changes with the thread's own registration. `a`, `b` and `e` are the sums over the others.
  round-Counts :
      (t u : ℕ) (c : Frame L) (guard woken : Bool) (m m' : Shared S) (p : Pc L) (a b e : ℕ)
      → round f t u c guard woken m ≡ some (m', p)
      → Counts m (a + 1) (b + flag guard) (e + flag woken)
      → Counts m' (a + spins p) (b + holds p) (e + registered p)
  unfolding round
  round-Counts t u c guard woken m m' p a b e h k = elim (Option-cases (f t u c.locals m.state)) [
    | inl q ↦ ground (arith, q)
    | inr (r, q) ↦ ground (
      arith,
      q,
      dispatch-counts (again r) r.directive guard (m.waiting - 1) m'.waiting p,
      dispatch-counts (again r) r.directive guard m.waiting m'.waiting p,
    )
  ]

  pub Move-Counts :
      {m m' : Shared S} {p p' : Pc L} (a b e : ℕ)
      → Move f m p m' p'
      → Counts m (a + spins p) (b + holds p) (e + registered p)
      → Counts m' (a + spins p') (b + holds p') (e + registered p')
  Move-Counts a b e (enter l) k = k
  Move-Counts a b e (acquire q) k = ground arith
  Move-Counts a b e (evaluate t u {c} {guard} {woken} q) k =
      round-Counts t u c guard woken _ _ _ a b e q k
  Move-Counts a b e (lock q) k = ground arith
  Move-Counts a b e park k = ground arith
  Move-Counts a b e wake k = k
  Move-Counts a b e (time_out _) k = k
  Move-Counts a b e (resume {timed_out} q) k = ground arith
  Move-Counts a b e (expire q) k = ground arith
  Move-Counts a b e (unregister q) k = ground arith
  Move-Counts a b e release k = ground arith
  Move-Counts a b e (leave {guard}) k = ground arith
  Move-Counts a b e request k = k
  Move-Counts a b e (own q) k = ground arith
  Move-Counts a b e (assign s) k = record {
    spin_held = k.spin_held;
    mutex_held = k.mutex_held;
    waiting_counted = k.waiting_counted;
  }
  Move-Counts a b e disown k = ground arith
