-- ===== src/Zlock/LegacyWriteBiased/Laws.antt =====
-- anode/src/zlock/legacy_write_biased.rs: the loops implement the reader-writer specification, and `writer_pending` belongs to one
-- operation at a time.
use libmutex.Prelude.{◌≢◌, ℕ, ◌+◌, ◌<◌, ◌^◌, ◌≡◌, refl, arith, Bool, true, none, some}
use libmutex.Deadline.{remaining-total}
use libmutex.Monitor.{Turn, may_repeat}
use libmutex.Zlock.Moderator.{Kind, again, done, Laws, Begins, Granting, Held, Continues, Finishes}
use libmutex.Zlock.LegacyWriteBiased.{
  State, Local, reading, read_unlocking, writing, write_unlocking, downgrading, upgrading, clearing,
  cleared, finished, eval, kind, granted, debt, Tally, ready, settled, exit, begin,
  legacy_write_biased, new,
}

-- One critical section leaves the reader count and the writer flag alone, or grants the operation
-- as the specification says.
Granting_lem :
    (t u : ℕ) (l : Local) (s : State) {r : Turn Local State}
    → eval t u l s ≡ some r
    → Granting
        (kind l)
        (granted l)
        (granted r.locals)
        s.readers
        s.writer
        r.state.readers
        r.state.writer
unfolding eval
Granting_lem t u (reading d was) s h = ground arith
Granting_lem t u read_unlocking s h = ground arith
Granting_lem t u (writing d self) s h = ground arith
Granting_lem t u write_unlocking s h = ground arith
Granting_lem t u downgrading s h = ground arith
Granting_lem t u (upgrading d self woken) s h = ground arith
Granting_lem t u (clearing k) s h = ground arith
Granting_lem t u (cleared k) s h = ground arith
Granting_lem t u (finished k) s h = ground arith

eval_keeps :
    (t u : ℕ) (l : Local) (s : State) {r : Turn Local State}
    → ready l ≡ true
    → eval t u l s ≡ some r
    → (kind r.locals ≡ kind l)
      × (settled r.locals ≡ true)
      × (may_repeat r.directive ≡ true → ready r.locals ≡ true)
unfolding eval
eval_keeps t u (reading d was) s rd h = ground arith
eval_keeps t u read_unlocking s rd h = ground arith
eval_keeps t u (writing d self) s rd h = ground arith
eval_keeps t u write_unlocking s rd h = ground arith
eval_keeps t u downgrading s rd h = ground arith
eval_keeps t u (upgrading d self woken) s rd h = ground arith
eval_keeps t u (clearing k) s rd h = ground arith
eval_keeps t u (cleared k) s rd h = ground arith
eval_keeps t u (finished k) s rd h = ground arith

-- `writer_pending` is the number of operations that have set it and not yet cleared it, `a` of
-- them in other threads.
Tally_lem :
    (t u : ℕ) (l : Local) (s : State) (a b : ℕ) {r : Turn Local State}
    → ready l ≡ true
    → Tally s (a + debt l) b
    → eval t u l s ≡ some r
    → Tally r.state (a + debt r.locals) b
unfolding eval
Tally_lem t u (reading d was) s a b rd g h = ground arith
Tally_lem t u read_unlocking s a b rd g h = ground arith
Tally_lem t u (writing d self) s a b rd g h = ground arith
Tally_lem t u write_unlocking s a b rd g h = ground arith
Tally_lem t u downgrading s a b rd g h = ground arith
Tally_lem t u (upgrading d self woken) s a b rd g h = ground arith
Tally_lem t u (clearing k) s a b rd g h = ground arith
Tally_lem t u (cleared k) s a b rd g h = ground arith
Tally_lem t u (finished k) s a b rd g h = ground arith

-- No assertion fails and no counter overflows, if the caller holds the guard that the operation
-- consumes, the account is right, and there is room in the counters.
eval-ne-none :
    (t u : ℕ) (l : Local) (s : State) (a b : ℕ)
    → ready l ≡ true
    → Tally s (a + debt l) b
    → Held (kind l) (granted l) s.readers s.writer
    → s.readers + 1 < 2 ^ 32
    → eval t u l s ≢ none
unfolding eval
eval-ne-none t u (reading d was) s a b rd g h room = ground (arith, remaining-total t u d)
eval-ne-none t u read_unlocking s a b rd g h room = ground arith
eval-ne-none t u (writing d self) s a b rd g h room = ground (arith, remaining-total t u d)
eval-ne-none t u write_unlocking s a b rd g h room = ground arith
eval-ne-none t u downgrading s a b rd g h room = ground arith
eval-ne-none t u (upgrading d self woken) s a b rd g h room = ground (arith, remaining-total t u d)
eval-ne-none t u (clearing k) s a b rd g h room = ground arith
eval-ne-none t u (cleared k) s a b rd g h room = ground arith
eval-ne-none t u (finished k) s a b rd g h room = ground arith

pub legacy_write_biased-Laws : Laws legacy_write_biased
unfolding exit begin new
legacy_write_biased-Laws = record {
  new-readers = refl;
  new-writer = refl;
  new-Tally = refl;
  begin_lem = λ k d. begins k d;
  eval_lem = λ t u l s a b r may tally h. record {
    same = (eval_keeps t u l s may h).0;
    granting = Granting_lem t u l s h;
    tally = Tally_lem t u l s a b may tally h;
    settles = (eval_keeps t u l s may h).1;
    stays_ready = (eval_keeps t u l s may h).2;
  };
  eval_ne_none = λ t u l s a b may tally held room. eval-ne-none t u l s a b may tally held room;
  again_lem = agains;
  done_lem = dones;
}
  where
    begins : (k : Kind) (d : ℕ) → Begins legacy_write_biased k (begin k d)
    begins Kind.try_read d = ground arith
    begins _ d = ground arith

    agains :
        (l l' : Local) → settled l ≡ true → exit l ≡ again l' → Continues legacy_write_biased l l'
    agains (reading _ _) l' e h = ground arith
    agains _ l' e h = ground arith

    dones :
        (l : Local) (b : Bool)
        → settled l ≡ true
        → exit l ≡ done b
        → Finishes legacy_write_biased l b
    dones (reading _ _) b e h = ground arith
    dones _ b e h = ground arith
