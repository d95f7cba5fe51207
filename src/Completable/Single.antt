-- ===== src/Completable/Single.antt =====
-- anode/src/completable.rs: of all calls, in any interleaving, one at most completes. The
-- invariant of one evaluation, then that of all calls.

use libmutex.Prelude.{ℕ, ◌+◌, ◌≡◌, refl, arith, Bool, true, false, not, Option, none, some}
use libmutex.Time.{duration_max}
use libmutex.Deadline.{
  is_endless, lazy_after, Deadline, point, forever, uninitialized, elapsed, remaining,
  remaining-total,
}
use libmutex.Monitor.{Directive, Turn, may_finish}
use libmutex.Completable.{
  is_some, begin, Request, complete, complete_exclusive, try_get, Local, completing,
  completing_exclusive, getting, eval,
}

abbrev pub flag : Bool → ℕ
flag true = 1
flag false = 0

module _ {T : Type 0} where
  -- The call's own value has been taken.
  abbrev pub taken : Local T → ℕ
  taken (completing _ kept) = flag (not (is_some kept))
  taken (completing_exclusive _ kept) = flag (not (is_some kept))
  taken (getting _) = 0

  -- The closure is that of the request, with the request's own value or duration.
  abbrev pub IsFor : Request T → Local T → Type 0
  IsFor (complete val) (completing val' _) = val' ≡ val
  IsFor (complete_exclusive val) (completing_exclusive val' _) = val' ≡ val
  IsFor (try_get duration) (getting d) = duration ≡ duration_max → is_endless d ≡ true
  IsFor _ _ = false ≡ true

  -- What a call knows of the state before an evaluation.
  abbrev pub IsFit : Option T → Local T → Type 0
  IsFit s (completing val none) = s ≡ some val
  IsFit s (completing val (some v)) = v ≡ val
  IsFit s (completing_exclusive val none) = (s ≡ val) × (is_some s ≡ true)
  IsFit s (completing_exclusive val (some v)) = v ≡ val
  IsFit s (getting _) = Unit

  -- What it knows after an evaluation that returned the directive.
  abbrev pub IsSettled : Option T → Local T → Directive → Type 0
  IsSettled s (completing val none) d = s ≡ some val
  IsSettled s (completing val (some v)) d = (v ≡ val) × (is_some s ≡ true)
  IsSettled s (completing_exclusive val none) d = (s ≡ val) × (is_some s ≡ true)
  IsSettled s (completing_exclusive val (some v)) d = (v ≡ val) × (is_some s ≡ true)
  IsSettled s (getting deadline) d =
      is_endless deadline ≡ true → may_finish d ≡ true → is_some s ≡ true

  pub IsSettled-IsFit : (s : Option T) (l : Local T) (d : Directive) → IsSettled s l d → IsFit s l
  IsSettled-IsFit s (completing val none) d h = h
  IsSettled-IsFit s (completing val (some v)) d h = h.0
  IsSettled-IsFit s (completing_exclusive val none) d h = h
  IsSettled-IsFit s (completing_exclusive val (some v)) d h = h.0
  IsSettled-IsFit s (getting _) d h = tt

  get-IsSettled :
      (t u : ℕ) (d : Deadline) (s : Option T) (r : Turn (Local T) (Option T))
      → eval t u (getting d) s ≡ some r
      → IsSettled r.state r.locals r.directive
  unfolding eval remaining
  get-IsSettled t u d (some v) r h = ground arith
  get-IsSettled t u (point i) none r h = ground arith
  get-IsSettled t u forever none r h = ground arith
  get-IsSettled t u elapsed none r h = ground arith
  get-IsSettled t u (uninitialized dur) none r h = ground arith

  -- One evaluation: the count of the values taken agrees with the state, and the call knows how
  -- it came out. `a` counts the values that other calls have taken.
  pub eval-IsSettled :
      (t u : ℕ) (l : Local T) (s : Option T) (r : Turn (Local T) (Option T)) (a : ℕ)
      → IsFit s l
      → eval t u l s ≡ some r
      → a + taken l ≡ flag (is_some s)
      → (a + taken r.locals ≡ flag (is_some r.state)) × IsSettled r.state r.locals r.directive
  unfolding eval
  eval-IsSettled t u (completing val none) none r a k h e = absurd cc
  eval-IsSettled t u (completing val none) (some x) r a k h e = ground arith
  eval-IsSettled t u (completing val (some v)) none r a k h e = ground arith
  eval-IsSettled t u (completing val (some v)) (some x) r a k h e = ground arith
  eval-IsSettled t u (completing_exclusive val none) none r a k h e = absurd cc
  eval-IsSettled t u (completing_exclusive val none) (some x) r a k h e = ground arith
  eval-IsSettled t u (completing_exclusive val (some v)) none r a k h e = ground arith
  eval-IsSettled t u (completing_exclusive val (some v)) (some x) r a k h e = ground arith
  eval-IsSettled t u (getting d) s r a k h e =
      (ground (arith, remaining-total t u d), get-IsSettled t u d s r h)

  pub begin-IsFor : (q : Request T) → IsFor q (begin q)
  unfolding begin lazy_after
  begin-IsFor (complete val) = refl
  begin-IsFor (complete_exclusive val) = refl
  begin-IsFor (try_get duration) = λ e. ground arith

  pub begin-IsFit : (q : Request T) (s : Option T) → IsFit s (begin q) × (taken (begin q) ≡ 0)
  unfolding begin
  begin-IsFit (complete val) s = (refl, refl)
  begin-IsFit (complete_exclusive val) s = (refl, refl)
  begin-IsFit (try_get duration) s = (tt, refl)

  pub eval-IsFor :
      (t u : ℕ) (q : Request T) (l : Local T) (s : Option T) (r : Turn (Local T) (Option T))
      → IsFor q l
      → eval t u l s ≡ some r
      → IsFor q r.locals
  unfolding eval remaining
  eval-IsFor t u (complete x) (completing val kept) s r k h = ground arith
  eval-IsFor t u (complete_exclusive x) (completing_exclusive val kept) none r k h = ground arith
  eval-IsFor t u (complete_exclusive x) (completing_exclusive val kept) (some _) r k h =
      ground arith
  eval-IsFor t u (try_get dur) (getting d) (some v) r k h = ground arith
  eval-IsFor t u (try_get dur) (getting forever) none r k h = ground arith
  eval-IsFor t u (try_get dur) (getting elapsed) none r k h = ground arith
  eval-IsFor t u (try_get dur) (getting (point i)) none r k h = ground arith
  eval-IsFor t u (try_get dur) (getting (uninitialized e)) none r k h = ground arith
  eval-IsFor t u _ _ s r k h = absurd cc

  -- A value that is there stays.
  pub eval-stable :
      (t u : ℕ) (l : Local T) (s : Option T) (r : Turn (Local T) (Option T)) (v : T)
      → eval t u l s ≡ some r
      → s ≡ some v
      → r.state ≡ some v
  unfolding eval
  eval-stable t u (completing val kept) none r v h e = absurd cc
  eval-stable t u (completing val kept) (some x) r v h e = ground arith
  eval-stable t u (completing_exclusive val kept) none r v h e = absurd cc
  eval-stable t u (completing_exclusive val kept) (some x) r v h e = ground arith
  eval-stable t u (getting d) s r v h e = ground arith

  -- Does the call of `f` panic, and has it not been made?
  abbrev pub is_faulty : Local T → Bool
  is_faulty (completing_exclusive none (some none)) = true
  is_faulty _ = false

  -- No closure panics, but for one whose `f` does.
  pub eval-ne-none :
      (t u : ℕ) (l : Local T) (s : Option T) → IsFit s l → eval t u l s ≡ none → is_faulty l ≡ true
  unfolding eval
  eval-ne-none t u (completing val kept) s k h = absurd cc
  eval-ne-none t u (completing_exclusive val none) none k h = absurd cc
  eval-ne-none t u (completing_exclusive none (some none)) none k h = refl
  eval-ne-none t u (completing_exclusive (some v) (some none)) none k h = absurd cc
  eval-ne-none t u (completing_exclusive val (some (some v))) none k h = absurd cc
  eval-ne-none t u (completing_exclusive val kept) (some x) k h = absurd cc
  eval-ne-none t u (getting d) s k h = absurd (ground (arith, remaining-total t u d))

  is_some-stable :
      (s s' : Option T)
      → ((v : T) → s ≡ some v → s' ≡ some v)
      → is_some s ≡ true
      → is_some s' ≡ true
  is_some-stable none s' q h = absurd cc
  is_some-stable (some v) s' q h = rw (q v refl) refl

  exclusive-stable :
      (s s' val : Option T)
      → ((v : T) → s ≡ some v → s' ≡ some v)
      → (s ≡ val) × (is_some s ≡ true)
      → (s' ≡ val) × (is_some s' ≡ true)
  exclusive-stable none s' val q h = absurd cc
  exclusive-stable (some v) s' val q h = rw (q v refl) h

  -- What a call knows stays true when another call sets the value.
  pub IsFit-stable :
      (s s' : Option T) (l : Local T)
      → ((v : T) → s ≡ some v → s' ≡ some v)
      → IsFit s l
      → IsFit s' l
  IsFit-stable s s' (completing val none) q h = q val h
  IsFit-stable s s' (completing val (some v)) q h = h
  IsFit-stable s s' (completing_exclusive val none) q h = exclusive-stable s s' val q h
  IsFit-stable s s' (completing_exclusive val (some v)) q h = h
  IsFit-stable s s' (getting _) q h = tt

  pub IsSettled-stable :
      (s s' : Option T) (l : Local T) (d : Directive)
      → ((v : T) → s ≡ some v → s' ≡ some v)
      → IsSettled s l d
      → IsSettled s' l d
  IsSettled-stable s s' (completing val none) d q h = q val h
  IsSettled-stable s s' (completing val (some v)) d q h = (h.0, is_some-stable s s' q h.1)
  IsSettled-stable s s' (completing_exclusive val none) d q h = exclusive-stable s s' val q h
  IsSettled-stable s s' (completing_exclusive val (some v)) d q h = (h.0, is_some-stable s s' q h.1)
  IsSettled-stable s s' (getting _) d q h = λ e f. is_some-stable s s' q (h e f)
