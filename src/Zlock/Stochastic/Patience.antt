-- ===== src/Zlock/Stochastic/Patience.antt =====
-- anode/src/zlock/stochastic.rs: an operation with no time limit goes on until it is granted.
use libmutex.Prelude.{ℕ, ◌≡◌, refl, arith, Bool, true, false, ◌||◌, some}
use libmutex.Time.{duration_max}
use libmutex.Deadline.{is_endless, remaining-endless, lazy_after}
use libmutex.Monitor.{Turn, may_finish}
use libmutex.Zlock.Moderator.{Kind, again, done, is_try}
use libmutex.Zlock.Attempt.{PatienceLaws}
use libmutex.Zlock.Stochastic.{
  State, Local, reading, read_leaving, read_unlocking, writing, write_clearing, write_unlocking,
  downgrading, upgrading, upgrade_clearing, eval, kind, granted, exit, begin, stochastic,
}

abbrev pub endless : Local → Bool
endless (reading deadline _ _ _ _) = is_endless deadline
endless (writing deadline _ _) = is_endless deadline
endless (upgrading deadline _ _) = is_endless deadline
endless _ = false

begin-Endless : (k : Kind) → is_try k ≡ true → endless (begin k duration_max) ≡ true
unfolding begin lazy_after
begin-Endless Kind.try_read h = ground arith
begin-Endless Kind.try_write h = ground arith
begin-Endless Kind.try_upgrade h = ground arith
begin-Endless Kind.read_unlock h = absurd cc
begin-Endless Kind.write_unlock h = absurd cc
begin-Endless Kind.downgrade h = absurd cc

eval-kind :
    (cutoff : ℕ → ℕ) (t u : ℕ) (l : Local) (s : State) (r : Turn Local State)
    → eval cutoff t u l s ≡ some r
    → kind r.locals ≡ kind l
unfolding eval
eval-kind cutoff t u (reading d acq saw det pos) s r h = ground arith
eval-kind cutoff t u (read_leaving left) s r h = ground arith
eval-kind cutoff t u (read_unlocking rel) s r h = ground arith
eval-kind cutoff t u (writing d acq self) s r h = ground arith
eval-kind cutoff t u (write_clearing acq clr) s r h = ground arith
eval-kind cutoff t u (write_unlocking rel) s r h = ground arith
eval-kind cutoff t u (downgrading rel) s r h = ground arith
eval-kind cutoff t u (upgrading d acq self) s r h = ground arith
eval-kind cutoff t u (upgrade_clearing acq clr) s r h = ground arith

eval-Endless :
    (cutoff : ℕ → ℕ) (t u : ℕ) (l : Local) (s : State) (r : Turn Local State)
    → granted l || endless l ≡ true
    → eval cutoff t u l s ≡ some r
    → (granted r.locals || endless r.locals ≡ true)
      × (may_finish r.directive ≡ true → granted r.locals ≡ true)
unfolding eval
eval-Endless cutoff t u (reading d acq saw det pos) s r g h =
    ground (arith, remaining-endless t u d)
eval-Endless cutoff t u (read_leaving left) s r g h = ground arith
eval-Endless cutoff t u (read_unlocking rel) s r g h = ground arith
eval-Endless cutoff t u (writing d acq self) s r g h = ground (arith, remaining-endless t u d)
eval-Endless cutoff t u (write_clearing acq clr) s r g h = ground arith
eval-Endless cutoff t u (write_unlocking rel) s r g h = ground arith
eval-Endless cutoff t u (downgrading rel) s r g h = ground arith
eval-Endless cutoff t u (upgrading d acq self) s r g h = ground (arith, remaining-endless t u d)
eval-Endless cutoff t u (upgrade_clearing acq clr) s r g h = ground arith

again-keeps : (l l' : Local) → exit l ≡ again l' → (kind l' ≡ kind l) × (granted l' ≡ granted l)
unfolding exit
again-keeps (reading _ _ _ _ _) l' e = ground arith
again-keeps _ l' e = ground arith

done-granted : (l : Local) (b : Bool) → exit l ≡ done b → granted l ≡ true → b ≡ true
unfolding exit
done-granted (reading _ _ _ _ _) b e h = ground arith
done-granted _ b e h = ground arith

begin-kind : (k : Kind) (d : ℕ) → kind (begin k d) ≡ k
unfolding begin
begin-kind Kind.try_read d = refl
begin-kind _ d = refl

pub stochastic-PatienceLaws : (cutoff : ℕ → ℕ) → PatienceLaws (stochastic cutoff) endless
stochastic-PatienceLaws cutoff = record {
  begin_kind = begin-kind;
  begin_endless = begin-Endless;
  eval_kind = eval-kind cutoff;
  eval_endless = eval-Endless cutoff;
  again_keeps = again-keeps;
  done_granted = done-granted;
}
