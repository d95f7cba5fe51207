-- ===== src/Monitor/Wakeup.antt =====
-- anode/src/monitor.rs: what `enter` does for the threads that wait, once a closure has returned
-- `NotifyAll`.
use libmutex.Prelude.{
  ℕ, ◌<◌, ◌≡◌, ◌≢◌, refl, arith, Bool, true, false, Option, some, place, place_self, place_other,
  weights-le-total, ℕ_discrete, ◌⊎◌, inl, inr, ◌∙◌, ap, place-all, if◌then◌else◌,
}
use libmutex.Monitor.Defs.{notify_all, Turn}
use libmutex.Monitor.Machine as Machine
use libmutex.Monitor.Machine.{
  Frame, Pc, outside, contending, inside, locking, about_to_wait, parked, resuming, expired,
  expiring, releasing, signalling, leaving, requesting, owning, Shared, dispatch, round, again,
  release, System, notified, Step, Move, move, wake_all, wake_one, wake_none, Reach,
}
use libmutex.Monitor.Counts.{registered, holds}
use libmutex.Monitor.Safety.{lock_exclusion, waiting_lem}

module _ {L : Type 0} where
  abbrev pub is_parked : Pc L → Bool
  is_parked (parked _ _) = true
  is_parked _ = false

  -- Is at `drop(guard)`, or at the `notify_all` below it.
  abbrev pub is_notifying : Pc L → Bool
  is_notifying (releasing _ everyone) = everyone
  is_notifying (signalling _ everyone) = everyone
  is_notifying _ = false

  notified-is_parked : (p : Pc L) → is_parked (notified p) ≡ false
  notified-is_parked (parked c d) = refl
  notified-is_parked outside = refl
  notified-is_parked (contending _ _ _) = refl
  notified-is_parked (inside _ _ _) = refl
  notified-is_parked (locking _) = refl
  notified-is_parked (about_to_wait _ _) = refl
  notified-is_parked (resuming _ _) = refl
  notified-is_parked (expired _) = refl
  notified-is_parked (expiring _) = refl
  notified-is_parked (releasing _ _) = refl
  notified-is_parked (signalling _ _) = refl
  notified-is_parked (leaving _ _) = refl
  notified-is_parked requesting = refl
  notified-is_parked owning = refl

  woken-is_parked :
      (g : ℕ → Pc L) (k j : ℕ) (c : Frame L)
      → is_parked (place k (leaving c false) (λ o. notified (g o)) j) ≡ false
  woken-is_parked g k j c =
      place-all (λ p. is_parked p ≡ false) (λ o. notified (g o)) k (leaving c false) refl
        (λ o. notified-is_parked (g o)) j

module _ {L S : Type 0} (f : ℕ → ℕ → L → S → Option (Turn L S)) where
  -- A round that returns `NotifyAll` while others are counted does not end the call.
  round-notify_all :
      (t u : ℕ) (c : Frame L) (guard woken : Bool) (m m' : Shared S) (p : Pc L) (r : Turn L S)
      → f t u c.locals m.state ≡ some r
      → r.directive ≡ notify_all
      → registered (inside c guard woken) < m.waiting
      → round f t u c guard woken m ≡ some (m', p)
      → p ≡ (if guard then releasing (again r) true else locking (again r))
  unfolding round dispatch
  round-notify_all t u c guard woken m m' p r q d lt h = ground (arith, q, d)

  module _ {n : ℕ} {s : S} {z : System f} (reach : Reach f n s z) where
    crowded :
        (i j : ℕ) {p : Pc L}
        → i < n
        → j < n
        → i ≢ j
        → registered (z.threads j) ≡ 1
        → z.threads i ≡ p
        → registered p < z.shared.waiting
    crowded i j lt_i lt_j ne w e = omega (
      arith,
      (waiting_lem f reach).0,
      weights-le-total registered n i j z.threads lt_i lt_j ne,
      ap registered e,
    )

    -- Where thread `i` has evaluated its closure to `NotifyAll` while another thread `j` is counted in
    -- `waiting`, it does not leave: without the mutex it goes to take it, and round; with the mutex
    -- it goes on to notify, and then `j` is not on its way into the wait, where the notification
    -- would miss it.
    pub notify_all_lem :
        (t u i j : ℕ) {c : Frame L} {guard woken : Bool} {m' : Shared S} {p : Pc L} {r : Turn L S}
        → i < n
        → j < n
        → i ≢ j
        → z.threads i ≡ inside c guard woken
        → f t u c.locals z.shared.state ≡ some r
        → r.directive ≡ notify_all
        → registered (z.threads j) ≡ 1
        → round f t u c guard woken z.shared ≡ some (m', p)
        → ((guard ≡ false) × (p ≡ locking (again r)))
          ⊎ ((guard ≡ true)
              × (p ≡ releasing (again r) true)
              × ((c' : Frame L) (d : ℕ) → z.threads j ≢ about_to_wait c' d))
    notify_all_lem t u i j {c} {guard = false} {woken} {m'} {p} {r} lt_i lt_j ne e q d w h = inl (
      refl,
      round-notify_all t u c false woken z.shared m' p r q d (crowded i j lt_i lt_j ne w e) h,
    )
    notify_all_lem t u i j {c} {guard = true} {woken} {m'} {p} {r} lt_i lt_j ne e q d w h = inr (
      refl,
      round-notify_all t u c true woken z.shared m' p r q d (crowded i j lt_i lt_j ne w e) h,
      λ c' d' k.
          absurd
            (omega (arith, (lock_exclusion f reach i j lt_i lt_j ne).1, ap holds e, ap holds k)),
    )

  -- Steps during which thread `j` stays parked.
  pub data Sleeps (n j : ℕ) (y : System f) : System f → Type 0 where
    now : is_parked (y.threads j) ≡ true → Sleeps n j y y
    later :
        {x z : System f}
        → Sleeps n j y x
        → Step f n x z
        → is_parked (z.threads j) ≡ true
        → Sleeps n j y z

  Move-is_notifying :
      {m m' : Shared S} {p p' : Pc L}
      → Move f m p m' p'
      → is_notifying p ≡ true
      → is_notifying p' ≡ true
  Move-is_notifying (release {everyone}) h = h
  Move-is_notifying (Machine.enter l) h = absurd cc h
  Move-is_notifying _ h = absurd cc h

  Step-is_notifying :
      (i j : ℕ) {n : ℕ} {x z : System f}
      → Step f n x z
      → is_notifying (x.threads i) ≡ true
      → is_parked (z.threads j) ≡ true
      → is_notifying (z.threads i) ≡ true
  Step-is_notifying i j {x = x} (move k {p} lt mv) e h = elim (ℕ_discrete i k) [
    | yes q ↦ rw (q, place_self k p x.threads) (Move-is_notifying mv (rw q at e))
    | no d ↦ ap is_notifying (place_other k i p x.threads d) ∙ e
  ]
  Step-is_notifying i j {x = x} (wake_all k {c} lt q) e h =
      absurd cc (woken-is_parked x.threads k j c, h)
  Step-is_notifying i j {x = x} (wake_one k o {c} {c'} {d} lt_k lt_o q p) e h =
      let apart : i ≢ k = λ w. cc (ap x.threads w) in
      let apart' : i ≢ o = λ w. cc (ap x.threads w) in
      ap is_notifying (
        place_other k i (leaving c false) (place o (resuming c' false) x.threads) apart
        ∙ place_other o i (resuming c' false) x.threads apart')
      ∙ e
  Step-is_notifying i j {x = x} (wake_none k {c} lt q _) e h =
      ap is_notifying (place_other k i (leaving c false) x.threads (λ w. cc (ap x.threads w))) ∙ e

  -- A thread that is parked when another one is about to drop the mutex and notify all is woken
  -- before that one goes on: as long as it sleeps, the other has not made the notification.
  pub Sleeps-is_notifying :
      (i j : ℕ) {n : ℕ} {y z : System f} {c : Frame L}
      → y.threads i ≡ releasing c true
      → Sleeps n j y z
      → is_notifying (z.threads i) ≡ true
  Sleeps-is_notifying i j e (now _) = rw e refl
  Sleeps-is_notifying i j e (later r st h) =
      Step-is_notifying i j st (Sleeps-is_notifying i j e r) h
