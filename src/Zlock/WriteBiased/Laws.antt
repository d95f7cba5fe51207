-- ===== src/Zlock/WriteBiased/Laws.antt =====
-- anode/src/zlock/write_biased.rs: the closures implement the reader-writer specification, and
-- `writer_pending` belongs to one operation at a time.
use libmutex.Prelude.{◌≢◌, ℕ, ◌+◌, ◌<◌, ◌^◌, ◌≡◌, refl, arith, Bool, true, none, some}
use libmutex.Deadline.{remaining-total}
use libmutex.Monitor.{Turn}
use libmutex.Zlock.Moderator.{Kind, again, done, Laws, Begins, Granting, Held, Continues, Finishes}
use libmutex.Zlock.WriteBiased.{
  State, Local, reading, read_unlocking, writing, write_clearing, write_unlocking, downgrading,
  upgrading, upgrade_clearing, eval, kind, granted, debt, settled, exit, begin, Tally, write_biased,
  new,
}

-- One evaluation of any closure leaves the reader count and the writer flag alone, or grants the
-- operation as the specification says.
pub write_biased-Granting :
    (t u : ℕ) (l : Local) (s : State) {r : Turn Local State}
    → eval t u l s ≡ some r
    → Granting
        (kind l)
        (granted l)
        (granted r.locals)
        s.readers
        s.writer
        r.state.readers
        r.state.writer
unfolding eval
write_biased-Granting t u (reading d acq saw) s h = ground arith
write_biased-Granting t u (read_unlocking rel) s h = ground arith
write_biased-Granting t u (writing d acq self) s h = ground arith
write_biased-Granting t u (write_clearing acq clr) s h = ground arith
write_biased-Granting t u (write_unlocking rel) s h = ground arith
write_biased-Granting t u (downgrading rel) s h = ground arith
write_biased-Granting t u (upgrading d acq self) s h = ground arith
write_biased-Granting t u (upgrade_clearing acq clr) s h = ground arith

eval_keeps :
    (t u : ℕ) (l : Local) (s : State) {r : Turn Local State}
    → eval t u l s ≡ some r
    → (kind r.locals ≡ kind l) × (settled r.locals ≡ true)
unfolding eval
eval_keeps t u (reading d acq saw) s h = ground arith
eval_keeps t u (read_unlocking rel) s h = ground arith
eval_keeps t u (writing d acq self) s h = ground arith
eval_keeps t u (write_clearing acq clr) s h = ground arith
eval_keeps t u (write_unlocking rel) s h = ground arith
eval_keeps t u (downgrading rel) s h = ground arith
eval_keeps t u (upgrading d acq self) s h = ground arith
eval_keeps t u (upgrade_clearing acq clr) s h = ground arith

-- One evaluation keeps `writer_pending` equal to the number of operations that have set it and
-- not yet cleared it, `a` of them in other threads.
pub write_biased-Tally :
    (t u : ℕ) (l : Local) (s : State) (a b : ℕ) {r : Turn Local State}
    → Tally s (a + debt l) b
    → eval t u l s ≡ some r
    → Tally r.state (a + debt r.locals) b
unfolding eval
write_biased-Tally t u (reading d acq saw) s a b g h = ground arith
write_biased-Tally t u (read_unlocking rel) s a b g h = ground arith
write_biased-Tally t u (writing d acq self) s a b g h = ground arith
write_biased-Tally t u (write_clearing acq clr) s a b g h = ground arith
write_biased-Tally t u (write_unlocking rel) s a b g h = ground arith
write_biased-Tally t u (downgrading rel) s a b g h = ground arith
write_biased-Tally t u (upgrading d acq self) s a b g h = ground arith
write_biased-Tally t u (upgrade_clearing acq clr) s a b g h = ground arith

-- No assertion fails and no counter overflows, if the caller holds the guard that the operation
-- consumes and there is room for one more reader.
pub eval-ne-none :
    (t u : ℕ) (l : Local) (s : State)
    → Held (kind l) (granted l) s.readers s.writer
    → s.readers + 1 < 2 ^ 32
    → eval t u l s ≢ none
unfolding eval
eval-ne-none t u (reading d acq saw) s h room = ground (arith, remaining-total t u d)
eval-ne-none t u (read_unlocking rel) s h room = ground arith
eval-ne-none t u (writing d acq self) s h room = ground (arith, remaining-total t u d)
eval-ne-none t u (write_clearing acq clr) s h room = ground arith
eval-ne-none t u (write_unlocking rel) s h room = ground arith
eval-ne-none t u (downgrading rel) s h room = ground arith
eval-ne-none t u (upgrading d acq self) s h room = ground (arith, remaining-total t u d)
eval-ne-none t u (upgrade_clearing acq clr) s h room = ground arith

pub write_biased-Laws : Laws write_biased
unfolding exit begin new
write_biased-Laws = record {
  new-readers = refl;
  new-writer = refl;
  new-Tally = refl;
  begin_lem = λ k d. begins k d;
  eval_lem = λ t u l s a b r _ tally h. record {
    same = (eval_keeps t u l s h).0;
    granting = write_biased-Granting t u l s h;
    tally = write_biased-Tally t u l s a b tally h;
    settles = (eval_keeps t u l s h).1;
    stays_ready = λ _. refl;
  };
  eval_ne_none = λ t u l s a b _ _ held room. eval-ne-none t u l s held room;
  again_lem = agains;
  done_lem = dones;
}
  where
    begins : (k : Kind) (d : ℕ) → Begins write_biased k (begin k d)
    begins Kind.try_read d = ground arith
    begins _ d = ground arith

    agains : (l l' : Local) → settled l ≡ true → exit l ≡ again l' → Continues write_biased l l'
    agains (reading _ _ _) l' e h = ground arith
    agains _ l' e h = ground arith

    dones : (l : Local) (b : Bool) → settled l ≡ true → exit l ≡ done b → Finishes write_biased l b
    dones (reading _ _ _) b e h = ground arith
    dones _ b e h = ground arith
