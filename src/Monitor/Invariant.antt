-- ===== src/Monitor/Invariant.antt =====
-- anode/src/monitor.rs: the invariant of threads that share a monitor, kept by every step.
use libmutex.Prelude.{
  ℕ, ◌+◌, ◌-◌, ◌<◌, ◌≡◌, ◌≢◌, refl, arith, Bool, true, false, Option, place, total, total-place,
  weight-le-total, total-zero, total-congr, ap, sym, ◌∙◌, if_neg,
}
use libmutex.Monitor.Defs.{Turn}
use libmutex.Monitor.Machine.{
  Frame, Pc, outside, parked, resuming, signalling, leaving, new, System, notified, Step, move,
  wake_all, wake_one, wake_none, Reach, start, later, init,
}
use libmutex.Monitor.Counts.{spins, holds, registered, Counts, Move-Counts}

module _ {L : Type 0} where
  -- A notification moves threads from one place to another of the same weight.
  record IsWeight (w : Pc L → ℕ) : Type 0 where
    on_wake : (p : Pc L) → w (notified p) ≡ w p
    on_signal : (c : Frame L) (everyone : Bool) → w (signalling c everyone) ≡ w (leaving c false)

  spins-IsWeight : IsWeight spins
  spins-IsWeight = record { on_wake = same; on_signal = λ c e. refl }
    where
      same : (p : Pc L) → spins (notified p) ≡ spins p
      same (parked c d) = refl
      same _ = refl

  holds-IsWeight : IsWeight holds
  holds-IsWeight = record { on_wake = same; on_signal = λ c e. refl }
    where
      same : (p : Pc L) → holds (notified p) ≡ holds p
      same (parked c d) = refl
      same _ = refl

  registered-IsWeight : IsWeight registered
  registered-IsWeight = record { on_wake = same; on_signal = λ c e. refl }
    where
      same : (p : Pc L) → registered (notified p) ≡ registered p
      same (parked c d) = refl
      same _ = refl

  -- The sums over the threads other than one.
  rest : (Pc L → ℕ) → ℕ → ℕ → (ℕ → Pc L) → ℕ
  rest w n i g = total w n g - w (g i)

  rest-add : (w : Pc L → ℕ) (n i : ℕ) (g : ℕ → Pc L) → i < n → rest w n i g + w (g i) ≡ total w n g
  unfolding rest
  rest-add w n i g lt = omega (arith, weight-le-total w n i g lt)

  rest-place :
      (w : Pc L → ℕ) (n i : ℕ) (g : ℕ → Pc L) (p : Pc L)
      → i < n
      → rest w n i g + w p ≡ total w n (place i p g)
  unfolding rest
  rest-place w n i g p lt = omega (arith, weight-le-total w n i g lt, total-place w n i p g lt)

  -- A step that changes no weight changes no sum.
  place-same :
      (w : Pc L → ℕ) (n i : ℕ) (g : ℕ → Pc L) (p : Pc L)
      → i < n
      → w (g i) ≡ w p
      → total w n (place i p g) ≡ total w n g
  place-same w n i g p lt e = omega (arith, total-place w n i p g lt)

  wake_all-total :
      (w : Pc L → ℕ)
      → IsWeight w
      → (n i : ℕ) (g : ℕ → Pc L) (c : Frame L) → i < n
      → g i ≡ signalling c true
      → total w n (place i (leaving c false) (λ j. notified (g j))) ≡ total w n g
  wake_all-total w k n i g c lt e =
      place-same w n i (λ j. notified (g j)) (leaving c false) lt
        (k.on_wake (g i) ∙ ap w e ∙ k.on_signal c true)
      ∙ total-congr w n (λ j. notified (g j)) g (λ j. k.on_wake (g j))

  wake_one-total :
      (w : Pc L → ℕ)
      → IsWeight w
      → (n i j : ℕ) (g : ℕ → Pc L) (c c' : Frame L) (d : ℕ) → i < n
      → j < n
      → g i ≡ signalling c false
      → g j ≡ parked c' d
      → total w n (place i (leaving c false) (place j (resuming c' false) g)) ≡ total w n g
  wake_one-total w k n i j g c c' d lt_i lt_j e h =
      place-same w n i (place j (resuming c' false) g) (leaving c false) lt_i
        (ap w (rw (if_neg _ apart) e) ∙ k.on_signal c false)
      ∙ place-same w n j g (resuming c' false) lt_j (ap w h ∙ sym (k.on_wake (parked c' d)))
    where
      apart : i ≢ j
      apart q = cc (ap g q)

  wake_none-total :
      (w : Pc L → ℕ)
      → IsWeight w
      → (n i : ℕ) (g : ℕ → Pc L) (c : Frame L) → i < n
      → g i ≡ signalling c false
      → total w n (place i (leaving c false) g) ≡ total w n g
  wake_none-total w k n i g c lt e =
      place-same w n i g (leaving c false) lt (ap w e ∙ k.on_signal c false)

module _ {L S : Type 0} (f : ℕ → ℕ → L → S → Option (Turn L S)) where
  abbrev pub Inv : ℕ → System f → Type 0
  Inv n z =
      Counts z.shared (total spins n z.threads) (total holds n z.threads)
        (total registered n z.threads)

  -- Every step keeps the counts.
  pub Step-Inv : {n : ℕ} {y z : System f} → Step f n y z → Inv n y → Inv n z
  Step-Inv {n} {y} (move i {m} {p} lt mv) inv =
      let g = y.threads in
      let before : Counts y.shared (rest spins n i g + spins (g i)) (rest holds n i g + holds (g i))
          (rest registered n i g + registered (g i)) =
        rw (rest-add spins n i g lt, rest-add holds n i g lt, rest-add registered n i g lt) inv in
      let after =
        Move-Counts f (rest spins n i g) (rest holds n i g) (rest registered n i g) mv before in
      rw
        (rest-place spins n i g p lt, rest-place holds n i g p lt, rest-place registered n i g p lt)
        at after
  Step-Inv {n} {y} (wake_all i {c} lt e) inv =
      rw
        (
          wake_all-total spins spins-IsWeight n i y.threads c lt e,
          wake_all-total holds holds-IsWeight n i y.threads c lt e,
          wake_all-total registered registered-IsWeight n i y.threads c lt e,
        )
        inv
  Step-Inv {n} {y} (wake_one i j {c} {c'} {d} lt_i lt_j e h) inv =
      rw
        (
          wake_one-total spins spins-IsWeight n i j y.threads c c' d lt_i lt_j e h,
          wake_one-total holds holds-IsWeight n i j y.threads c c' d lt_i lt_j e h,
          wake_one-total registered registered-IsWeight n i j y.threads c c' d lt_i lt_j e h,
        )
        inv
  Step-Inv {n} {y} (wake_none i {c} lt e _) inv =
      rw
        (
          wake_none-total spins spins-IsWeight n i y.threads c lt e,
          wake_none-total holds holds-IsWeight n i y.threads c lt e,
          wake_none-total registered registered-IsWeight n i y.threads c lt e,
        )
        inv

  pub Reach-Inv : {n : ℕ} {s : S} {z : System f} → Reach f n s z → Inv n z
  unfolding init new
  Reach-Inv {n} start =
      let none_spins : total {A = Pc L} spins n (λ _. outside) ≡ 0 =
        total-zero spins n (λ _. outside) (λ _. refl) in
      let none_holds : total {A = Pc L} holds n (λ _. outside) ≡ 0 =
        total-zero holds n (λ _. outside) (λ _. refl) in
      let none_registered : total {A = Pc L} registered n (λ _. outside) ≡ 0 =
        total-zero registered n (λ _. outside) (λ _. refl) in
      record {
        spin_held = sym none_spins;
        mutex_held = sym none_holds;
        waiting_counted = sym none_registered;
      }
  Reach-Inv (later r st) = Step-Inv st (Reach-Inv r)
