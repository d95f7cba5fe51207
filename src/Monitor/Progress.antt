-- ===== src/Monitor/Progress.antt =====
-- anode/src/monitor.rs: the threads of a monitor do not wait for one another in a circle.
use libmutex.Prelude.{
  ℕ, ◌+◌, ◌<◌, ◌^◌, ◌≡◌, ◌≢◌, refl, arith, Bool, true, false, Option, none, total-positive,
  weight-le-total, Bool-cases, Option-cases, checked_dec, ◌⊎◌, inl, inr,
}
use libmutex.Monitor.Defs.{Turn}
use libmutex.Monitor.Machine.{
  Frame, Pc, outside, contending, inside, locking, about_to_wait, parked, resuming, expired,
  expiring, releasing, signalling, leaving, requesting, owning, Shared, round, Move, acquire,
  evaluate, lock, park, resume, expire, unregister, release, leave, own, disown, System, Reach,
}
use libmutex.Monitor.Counts.{spins, holds}
use libmutex.Monitor.Invariant.{Reach-Inv}
use libmutex.Monitor.Safety.{round-ne-none, unregister-ne-none}

-- In `enter` or `lock`, and not waiting for a notification.
abbrev pub is_working : {L : Type 0} → Pc L → Bool
is_working outside = false
is_working (parked _ _) = false
is_working _ = true

module _ {L S : Type 0} (f : ℕ → ℕ → L → S → Option (Turn L S)) where
  -- What the next access of a thread finds: it can be made at once. A notification waits for
  -- nothing.
  pub data Ready (m : Shared S) (p : Pc L) : Type 0 where
    moves : {m' : Shared S} {p' : Pc L} → Move f m p m' p' → Ready m p
    notifies : {c : Frame L} {everyone : Bool} → p ≡ signalling c everyone → Ready m p

  -- While the spin lock is free, the mutex stops only threads without it.
  free-Ready :
      (m : Shared S) (p : Pc L)
      → m.locked ≡ false
      → spins p ≡ 0
      → is_working p ≡ true
      → (0 < holds p) ⊎ (m.mutex ≡ false)
      → Ready m p
  free-Ready m outside e s w h = absurd cc
  free-Ready m (contending c g k) e s w h = moves (acquire e)
  free-Ready m (inside c g k) e s w h = absurd (omega arith)
  free-Ready m (locking c) e s w (inl h) = absurd (omega arith)
  free-Ready m (locking c) e s w (inr h) = moves (lock h)
  free-Ready m (about_to_wait c d) e s w h = moves park
  free-Ready m (parked c d) e s w h = absurd cc
  free-Ready m (resuming c t) e s w (inl h) = absurd (omega arith)
  free-Ready m (resuming c t) e s w (inr h) = moves (resume h)
  free-Ready m (expired c) e s w h = moves (expire e)
  free-Ready m (expiring c) e s w h = absurd (omega arith)
  free-Ready m (releasing c a) e s w h = moves release
  free-Ready m (signalling c a) e s w h = notifies refl
  free-Ready m (leaving c g) e s w h = moves leave
  free-Ready m requesting e s w h = moves (own e)
  free-Ready m owning e s w h = absurd (omega arith)

  holds-is_working : (p : Pc L) → 0 < holds p → is_working p ≡ true
  holds-is_working p h = ground arith

  spins-is_working : (p : Pc L) → 0 < spins p → is_working p ≡ true
  spins-is_working p h = ground arith

  module _ {n : ℕ} {s : S} {z : System f} (reach : Reach f n s z) (small : n + 1 < 2 ^ 32)
      (alive : (i : ℕ) (c : Frame L) (g w : Bool)
        → i < n
        → z.threads i ≡ inside c g w
        → f 0 0 c.locals z.shared.state ≢ none) where
    -- A thread that has the spin lock goes on.
    spinning-Ready : (i : ℕ) (p : Pc L) → i < n → z.threads i ≡ p → 0 < spins p → Ready z.shared p
    spinning-Ready i (inside c g w) lt e h = elim (Option-cases (round f 0 0 c g w z.shared)) [
      | inl q ↦ absurd (round-ne-none f reach 0 0 i lt e small (alive i c g w lt e) q)
      | inr (r, q) ↦ moves (evaluate 0 0 q)
    ]
    spinning-Ready i (expiring c) lt e h = elim (Option-cases (checked_dec z.shared.waiting)) [
      | inl q ↦ absurd (unregister-ne-none f reach i lt e q)
      | inr (less, q) ↦ moves (unregister q)
    ]
    spinning-Ready i owning lt e h = moves disown
    spinning-Ready i outside lt e h = absurd (omega arith)
    spinning-Ready i (contending c g w) lt e h = absurd (omega arith)
    spinning-Ready i (locking c) lt e h = absurd (omega arith)
    spinning-Ready i (about_to_wait c d) lt e h = absurd (omega arith)
    spinning-Ready i (parked c d) lt e h = absurd (omega arith)
    spinning-Ready i (resuming c t) lt e h = absurd (omega arith)
    spinning-Ready i (expired c) lt e h = absurd (omega arith)
    spinning-Ready i (releasing c a) lt e h = absurd (omega arith)
    spinning-Ready i (signalling c a) lt e h = absurd (omega arith)
    spinning-Ready i (leaving c g) lt e h = absurd (omega arith)
    spinning-Ready i requesting lt e h = absurd (omega arith)

    unheld : (i : ℕ) → i < n → z.shared.locked ≡ false → spins (z.threads i) ≡ 0
    unheld i lt e =
        ground (arith, (Reach-Inv f reach).spin_held, weight-le-total spins n i z.threads lt)

    -- No deadlock: where a thread is in `enter` or `lock` and not waiting for a notification, one
    -- such thread can make its next access at once, if the closure does not panic there.
    pub no_deadlock :
        (i : ℕ)
        → i < n
        → is_working (z.threads i) ≡ true
        → (j : ℕ) × (j < n) × (is_working (z.threads j) ≡ true) × Ready z.shared (z.threads j)
    no_deadlock i lt w = elim (Bool-cases z.shared.locked) [
      | inl q ↦
          let (j, lt_j, h) =
            total-positive spins n z.threads (ground (arith, (Reach-Inv f reach).spin_held)) in
          (j, lt_j, spins-is_working (z.threads j) h, spinning-Ready j (z.threads j) lt_j refl h)
      | inr q ↦ elim (Bool-cases z.shared.mutex) [
        | inl r ↦
            let (j, lt_j, h) =
              total-positive holds n z.threads (ground (arith, (Reach-Inv f reach).mutex_held)) in
            let k = holds-is_working (z.threads j) h in
            (j, lt_j, k, free-Ready z.shared (z.threads j) q (unheld j lt_j q) k (inl h))
        | inr r ↦ (i, lt, w, free-Ready z.shared (z.threads i) q (unheld i lt q) w (inr r))
      ]
    ]
