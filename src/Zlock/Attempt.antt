-- ===== src/Zlock/Attempt.antt =====
-- anode/src/zlock.rs: `read`, `write` and `upgrade`, which try with `Duration::MAX` and unwrap the
-- answer. One thread's operation is followed from its call, in whatever states others leave.
use libmutex.Prelude.{ℕ, ◌≡◌, refl, Bool, true, false, ◌||◌, some, ◌∙◌}
use libmutex.Time.{duration_max}
use libmutex.Monitor.{Turn, may_finish}
use libmutex.Zlock.Moderator.{Kind, again, done, Moderator, is_try}
use libmutex.Zlock.System.{
  Status, idle, reader, writer, entering, evaluated, outcome, Move, call, first, repeat, continue,
  finish,
}

or_true : (b : Bool) → b || true ≡ true
or_true true = refl
or_true false = refl

module _ (m : Moderator) where
  open m use {State, Local, begin, eval, exit, kind, granted}

  abbrev pub is_running : Status Local → Bool
  is_running (entering _) = true
  is_running (evaluated _ _) = true
  is_running _ = false

  -- What an operation that began with this kind and duration has come to.
  pub data Attempt (k : Kind) (d : ℕ) : Status Local → Type 0 where
    begun : Attempt k d (entering (begin k d))
    goes :
        {s s' : State} {p p' : Status Local}
        → Attempt k d p
        → is_running p ≡ true
        → Move m s p s' p'
        → Attempt k d p'

  -- `endless` tells whether a local variable holds a deadline that never comes.
  pub record PatienceLaws (endless : Local → Bool) : Type 0 where
    pub begin_kind : (k : Kind) (d : ℕ) → kind (begin k d) ≡ k
    pub begin_endless : (k : Kind) → is_try k ≡ true → endless (begin k duration_max) ≡ true
    pub eval_kind :
        (t u : ℕ) (l : Local) (s : State) (r : Turn Local State)
        → eval t u l s ≡ some r
        → kind r.locals ≡ kind l
    pub eval_endless :
        (t u : ℕ) (l : Local) (s : State) (r : Turn Local State)
        → granted l || endless l ≡ true
        → eval t u l s ≡ some r
        → (granted r.locals || endless r.locals ≡ true)
          × (may_finish r.directive ≡ true → granted r.locals ≡ true)
    pub again_keeps :
        (l l' : Local) → exit l ≡ again l' → (kind l' ≡ kind l) × (granted l' ≡ granted l)
    pub done_granted : (l : Local) (b : Bool) → exit l ≡ done b → granted l ≡ true → b ≡ true

  module _ (endless : Local → Bool) (laws : PatienceLaws endless) where
    -- As long as the operation runs it can only succeed.
    IsPatient : Kind → Status Local → Type 0
    IsPatient k (entering l) = (kind l ≡ k) × (granted l || endless l ≡ true)
    IsPatient k (evaluated l d) =
        (kind l ≡ k) × (granted l || endless l ≡ true) × (may_finish d ≡ true → granted l ≡ true)
    IsPatient k p = p ≡ outcome k true

    evaluated-IsPatient :
        (k : Kind) (t u : ℕ) (l : Local) (s : State) (r : Turn Local State)
        → (kind l ≡ k) × (granted l || endless l ≡ true)
        → eval t u l s ≡ some r
        → IsPatient k (evaluated r.locals r.directive)
    unfolding IsPatient
    evaluated-IsPatient k t u l s r h e =
        let (same, may) = laws.eval_endless t u l s r h.1 e in
        (laws.eval_kind t u l s r e ∙ h.0, same, may)

    outcome-IsPatient : (k : Kind) → is_try k ≡ true → IsPatient k (outcome k true)
    unfolding IsPatient
    outcome-IsPatient Kind.try_read h = refl
    outcome-IsPatient Kind.try_write h = refl
    outcome-IsPatient Kind.try_upgrade h = refl
    outcome-IsPatient Kind.read_unlock h = absurd cc
    outcome-IsPatient Kind.write_unlock h = absurd cc
    outcome-IsPatient Kind.downgrade h = absurd cc

    Move-IsPatient :
        (k : Kind) {s s' : State} {p p' : Status Local}
        → is_try k ≡ true
        → Move m s p s' p'
        → is_running p ≡ true
        → IsPatient k p
        → IsPatient k p'
    unfolding IsPatient
    Move-IsPatient k w (call Kind.try_read d) run h = absurd cc
    Move-IsPatient k w (call Kind.try_write d) run h = absurd cc
    Move-IsPatient k w (call Kind.try_upgrade d) run h = absurd cc
    Move-IsPatient k w (call Kind.read_unlock d) run h = absurd cc
    Move-IsPatient k w (call Kind.write_unlock d) run h = absurd cc
    Move-IsPatient k w (call Kind.downgrade d) run h = absurd cc
    Move-IsPatient k {s} w (first t u {l} {r} e) run h = evaluated-IsPatient k t u l s r h e
    Move-IsPatient k {s} w (repeat t u {l} {d} {r} _ e) run h =
        evaluated-IsPatient k t u l s r (h.0, h.1) e
    Move-IsPatient k w (continue {l} {l'} may e) run h =
        let (same, still) = laws.again_keeps l l' e in (same ∙ h.0, rw (still, h.2 may) refl)
    Move-IsPatient k w (finish {l} {d} {b} may e) run h =
        let won : b ≡ true = laws.done_granted l b e (h.2 may) in
        rw (won, h.0) (outcome-IsPatient k w)

    Attempt-IsPatient :
        (k : Kind) {p : Status Local} → is_try k ≡ true → Attempt k duration_max p → IsPatient k p
    unfolding IsPatient
    Attempt-IsPatient k w begun = (
      laws.begin_kind k duration_max,
      rw (laws.begin_endless k w) (or_true (granted (begin k duration_max))),
    )
    Attempt-IsPatient k w (goes a run mv) = Move-IsPatient k w mv run (Attempt-IsPatient k w a)

    -- An operation with no time limit returns its guard, when it returns.
    pub endless_granted :
        (k : Kind) {p : Status Local}
        → is_try k ≡ true
        → Attempt k duration_max p
        → is_running p ≡ false
        → p ≡ outcome k true
    unfolding IsPatient
    endless_granted k {p} w a stopped = settle p (Attempt-IsPatient k w a) stopped
      where
        settle : (p : Status Local) → IsPatient k p → is_running p ≡ false → p ≡ outcome k true
        settle idle h e = h
        settle reader h e = h
        settle writer h e = h
        settle (entering l) h e = absurd cc
        settle (evaluated l d) h e = absurd cc
