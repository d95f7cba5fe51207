-- ===== src/Zlock/ReadBiased/Laws.antt =====
-- anode/src/zlock/read_biased.rs: the closures implement the reader-writer specification.
use libmutex.Prelude.{◌≢◌, ℕ, ◌+◌, ◌<◌, ◌^◌, ◌≡◌, refl, arith, Bool, true, none, some}
use libmutex.Deadline.{remaining-total}
use libmutex.Monitor.{Turn}
use libmutex.Zlock.Moderator.{Kind, again, done, Laws, Begins, Granting, Held, Continues, Finishes}
use libmutex.Zlock.ReadBiased.{
  State, Local, reading, read_unlocking, writing, write_unlocking, downgrading, upgrading, eval,
  kind, granted, settled, exit, begin, read_biased, new,
}

-- One evaluation of any closure leaves the reader count and the writer flag alone, or grants the
-- operation as the specification says.
pub read_biased-Granting :
    (t u : ℕ) (l : Local) (s : State) {r : Turn Local State}
    → eval t u l s ≡ some r
    → Granting
        (kind l)
        (granted l)
        (granted r.locals)
        s.readers
        s.writer
        r.state.readers
        r.state.writer
unfolding eval
read_biased-Granting t u (reading d acq) s h = ground arith
read_biased-Granting t u (read_unlocking rel) s h = ground arith
read_biased-Granting t u (writing d acq) s h = ground arith
read_biased-Granting t u (write_unlocking rel) s h = ground arith
read_biased-Granting t u (downgrading rel) s h = ground arith
read_biased-Granting t u (upgrading d acq) s h = ground arith

eval_keeps :
    (t u : ℕ) (l : Local) (s : State) {r : Turn Local State}
    → eval t u l s ≡ some r
    → (kind r.locals ≡ kind l) × (settled r.locals ≡ true)
unfolding eval
eval_keeps t u (reading d acq) s h = ground arith
eval_keeps t u (read_unlocking rel) s h = ground arith
eval_keeps t u (writing d acq) s h = ground arith
eval_keeps t u (write_unlocking rel) s h = ground arith
eval_keeps t u (downgrading rel) s h = ground arith
eval_keeps t u (upgrading d acq) s h = ground arith

-- No assertion fails and no counter overflows, if the caller holds the guard that the operation
-- consumes and there is room for one more reader.
pub eval-ne-none :
    (t u : ℕ) (l : Local) (s : State)
    → Held (kind l) (granted l) s.readers s.writer
    → s.readers + 1 < 2 ^ 32
    → eval t u l s ≢ none
unfolding eval
eval-ne-none t u (reading d acq) s h room = ground (arith, remaining-total t u d)
eval-ne-none t u (read_unlocking rel) s h room = ground arith
eval-ne-none t u (writing d acq) s h room = ground (arith, remaining-total t u d)
eval-ne-none t u (write_unlocking rel) s h room = ground arith
eval-ne-none t u (downgrading rel) s h room = ground arith
eval-ne-none t u (upgrading d acq) s h room = ground (arith, remaining-total t u d)

pub read_biased-Laws : Laws read_biased
unfolding exit begin new
read_biased-Laws = record {
  new-readers = refl;
  new-writer = refl;
  new-Tally = tt;
  begin_lem = λ k d. begins k d;
  eval_lem = λ t u l s a b r _ _ h. record {
    same = (eval_keeps t u l s h).0;
    granting = read_biased-Granting t u l s h;
    tally = tt;
    settles = (eval_keeps t u l s h).1;
    stays_ready = λ _. refl;
  };
  eval_ne_none = λ t u l s a b _ _ held room. eval-ne-none t u l s held room;
  again_lem = agains;
  done_lem = dones;
}
  where
    begins : (k : Kind) (d : ℕ) → Begins read_biased k (begin k d)
    begins Kind.try_read d = ground arith
    begins _ d = ground arith

    agains : (l l' : Local) → settled l ≡ true → exit l ≡ again l' → Continues read_biased l l'
    agains (reading _ _) l' e h = ground arith
    agains _ l' e h = ground arith

    dones : (l : Local) (b : Bool) → settled l ≡ true → exit l ≡ done b → Finishes read_biased l b
    dones (reading _ _) b e h = ground arith
    dones _ b e h = ground arith
