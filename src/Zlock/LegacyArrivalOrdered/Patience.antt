-- ===== src/Zlock/LegacyArrivalOrdered/Patience.antt =====
-- anode/src/zlock/legacy_arrival_ordered.rs: an operation with no time limit goes on until it is granted.
use libmutex.Prelude.{ℕ, ◌≡◌, refl, arith, Bool, true, false, ◌||◌, some}
use libmutex.Time.{duration_max}
use libmutex.Deadline.{is_endless, remaining-endless, lazy_after}
use libmutex.Monitor.{Turn, may_finish}
use libmutex.Zlock.Moderator.{Kind, again, done, is_try}
use libmutex.Zlock.Attempt.{PatienceLaws}
use libmutex.Zlock.LegacyArrivalOrdered.{
  State, Local, reading, read_unlocking, writing, write_unlocking, downgrading, upgrading, skipping,
  skipped, finished, eval, kind, granted, exit, begin, legacy_arrival_ordered,
}

abbrev pub endless : Local → Bool
endless (reading deadline _) = is_endless deadline
endless (writing deadline _) = is_endless deadline
endless (upgrading deadline) = is_endless deadline
endless _ = false

begin-Endless : (k : Kind) → is_try k ≡ true → endless (begin k duration_max) ≡ true
unfolding begin lazy_after
begin-Endless Kind.try_read h = ground arith
begin-Endless Kind.try_write h = ground arith
begin-Endless Kind.try_upgrade h = ground arith
begin-Endless Kind.read_unlock h = absurd cc
begin-Endless Kind.write_unlock h = absurd cc
begin-Endless Kind.downgrade h = absurd cc

eval-kind :
    (t u : ℕ) (l : Local) (s : State) (r : Turn Local State)
    → eval t u l s ≡ some r
    → kind r.locals ≡ kind l
unfolding eval
eval-kind t u (reading d ticket) s r h = ground arith
eval-kind t u read_unlocking s r h = ground arith
eval-kind t u (writing d ticket) s r h = ground arith
eval-kind t u write_unlocking s r h = ground arith
eval-kind t u downgrading s r h = ground arith
eval-kind t u (upgrading d) s r h = ground arith
eval-kind t u (skipping k) s r h = ground arith
eval-kind t u (skipped k) s r h = ground arith
eval-kind t u (finished k) s r h = ground arith

eval-Endless :
    (t u : ℕ) (l : Local) (s : State) (r : Turn Local State)
    → granted l || endless l ≡ true
    → eval t u l s ≡ some r
    → (granted r.locals || endless r.locals ≡ true)
      × (may_finish r.directive ≡ true → granted r.locals ≡ true)
unfolding eval
eval-Endless t u (reading d ticket) s r g h = ground (arith, remaining-endless t u d)
eval-Endless t u read_unlocking s r g h = ground arith
eval-Endless t u (writing d ticket) s r g h = ground (arith, remaining-endless t u d)
eval-Endless t u write_unlocking s r g h = ground arith
eval-Endless t u downgrading s r g h = ground arith
eval-Endless t u (upgrading d) s r g h = ground (arith, remaining-endless t u d)
eval-Endless t u (skipping k) s r g h = ground arith
eval-Endless t u (skipped k) s r g h = ground arith
eval-Endless t u (finished k) s r g h = ground arith

again-keeps : (l l' : Local) → exit l ≡ again l' → (kind l' ≡ kind l) × (granted l' ≡ granted l)
unfolding exit
again-keeps (reading _ _) l' e = ground arith
again-keeps _ l' e = ground arith

done-granted : (l : Local) (b : Bool) → exit l ≡ done b → granted l ≡ true → b ≡ true
unfolding exit
done-granted (reading _ _) b e h = ground arith
done-granted _ b e h = ground arith

begin-kind : (k : Kind) (d : ℕ) → kind (begin k d) ≡ k
unfolding begin
begin-kind Kind.try_read d = refl
begin-kind _ d = refl

pub legacy_arrival_ordered-PatienceLaws : PatienceLaws legacy_arrival_ordered endless
legacy_arrival_ordered-PatienceLaws = record {
  begin_kind = begin-kind;
  begin_endless = begin-Endless;
  eval_kind = eval-kind;
  eval_endless = eval-Endless;
  again_keeps = again-keeps;
  done_granted = done-granted;
}
