-- ===== src/Zlock/ArrivalOrdered/Laws.antt =====
-- anode/src/zlock/arrival_ordered.rs: the closures implement the reader-writer specification, and
-- every ticket is serviced once.
use libmutex.Prelude.{◌≢◌, ℕ, ◌+◌, ◌≡◌, refl, arith, Bool, true, none, some}
use libmutex.Deadline.{remaining-total}
use libmutex.Monitor.{Turn}
use libmutex.Zlock.Moderator.{Kind, again, done, Laws, Begins, Granting, Held, Continues, Finishes}
use libmutex.Zlock.ArrivalOrdered.{
  State, Local, reading, read_skipping, read_unlocking, writing, write_skipping, write_unlocking,
  downgrading, upgrading, eval, kind, granted, debt, ready, settled, exit, begin, Tally, Room,
  arrival_ordered, new,
}

-- One evaluation of any closure leaves the reader count and the writer flag alone, or grants the
-- operation as the specification says.
pub arrival_ordered-Granting :
    (t u : ℕ) (l : Local) (s : State) {r : Turn Local State}
    → eval t u l s ≡ some r
    → Granting
        (kind l)
        (granted l)
        (granted r.locals)
        s.readers
        s.writer
        r.state.readers
        r.state.writer
unfolding eval
arrival_ordered-Granting t u (reading d acq ticket) s h = ground arith
arrival_ordered-Granting t u (read_skipping inc) s h = ground arith
arrival_ordered-Granting t u (read_unlocking rel) s h = ground arith
arrival_ordered-Granting t u (writing d acq ticket) s h = ground arith
arrival_ordered-Granting t u (write_skipping inc) s h = ground arith
arrival_ordered-Granting t u (write_unlocking rel) s h = ground arith
arrival_ordered-Granting t u (downgrading rel) s h = ground arith
arrival_ordered-Granting t u (upgrading d acq) s h = ground arith

eval_keeps :
    (t u : ℕ) (l : Local) (s : State) (a b : ℕ) {r : Turn Local State}
    → Tally s (a + debt l) b
    → eval t u l s ≡ some r
    → (kind r.locals ≡ kind l) × (settled r.locals ≡ true)
unfolding eval
eval_keeps t u (reading d acq ticket) s a b g h = ground arith
eval_keeps t u (read_skipping inc) s a b g h = ground arith
eval_keeps t u (read_unlocking rel) s a b g h = ground arith
eval_keeps t u (writing d acq ticket) s a b g h = ground arith
eval_keeps t u (write_skipping inc) s a b g h = ground arith
eval_keeps t u (write_unlocking rel) s a b g h = ground arith
eval_keeps t u (downgrading rel) s a b g h = ground arith
eval_keeps t u (upgrading d acq) s a b g h = ground arith

-- One evaluation keeps the account of tickets: those serviced and those still owed, `a` of them
-- by other threads, are all that were handed out.
pub arrival_ordered-Tally :
    (t u : ℕ) (l : Local) (s : State) (a b : ℕ) {r : Turn Local State}
    → ready l ≡ true
    → Tally s (a + debt l) b
    → eval t u l s ≡ some r
    → Tally r.state (a + debt r.locals) b
unfolding eval
arrival_ordered-Tally t u (reading d acq ticket) s a b rd g h = ground arith
arrival_ordered-Tally t u (read_skipping inc) s a b rd g h = ground arith
arrival_ordered-Tally t u (read_unlocking rel) s a b rd g h = ground arith
arrival_ordered-Tally t u (writing d acq ticket) s a b rd g h = ground arith
arrival_ordered-Tally t u (write_skipping inc) s a b rd g h = ground arith
arrival_ordered-Tally t u (write_unlocking rel) s a b rd g h = ground arith
arrival_ordered-Tally t u (downgrading rel) s a b rd g h = ground arith
arrival_ordered-Tally t u (upgrading d acq) s a b rd g h = ground arith

-- No assertion fails and no counter overflows, if the caller holds the guard that the operation
-- consumes, the account of tickets is right, and there is room for one more reader and ticket.
pub eval-ne-none :
    (t u : ℕ) (l : Local) (s : State) (a b : ℕ)
    → Tally s (a + debt l) b
    → Held (kind l) (granted l) s.readers s.writer
    → Room s
    → eval t u l s ≢ none
unfolding eval
eval-ne-none t u (reading d acq ticket) s a b g h room = ground (arith, remaining-total t u d)
eval-ne-none t u (read_skipping inc) s a b g h room = ground arith
eval-ne-none t u (read_unlocking rel) s a b g h room = ground arith
eval-ne-none t u (writing d acq ticket) s a b g h room = ground (arith, remaining-total t u d)
eval-ne-none t u (write_skipping inc) s a b g h room = ground arith
eval-ne-none t u (write_unlocking rel) s a b g h room = ground arith
eval-ne-none t u (downgrading rel) s a b g h room = ground arith
eval-ne-none t u (upgrading d acq) s a b g h room = ground (arith, remaining-total t u d)

settled-ready : (l : Local) → settled l ≡ true → ready l ≡ true
settled-ready (reading d acq ticket) h = ground arith
settled-ready (writing d acq ticket) h = ground arith
settled-ready _ h = refl

pub arrival_ordered-Laws : Laws arrival_ordered
unfolding exit begin new
arrival_ordered-Laws = record {
  new-readers = refl;
  new-writer = refl;
  new-Tally = refl;
  begin_lem = λ k d. begins k d;
  eval_lem = λ t u l s a b r may tally h. record {
    same = (eval_keeps t u l s a b tally h).0;
    granting = arrival_ordered-Granting t u l s h;
    tally = arrival_ordered-Tally t u l s a b may tally h;
    settles = (eval_keeps t u l s a b tally h).1;
    stays_ready = λ _. settled-ready r.locals (eval_keeps t u l s a b tally h).1;
  };
  eval_ne_none = λ t u l s a b _ tally held room. eval-ne-none t u l s a b tally held room;
  again_lem = agains;
  done_lem = dones;
}
  where
    begins : (k : Kind) (d : ℕ) → Begins arrival_ordered k (begin k d)
    begins Kind.try_read d = ground arith
    begins _ d = ground arith

    agains : (l l' : Local) → settled l ≡ true → exit l ≡ again l' → Continues arrival_ordered l l'
    agains (reading _ _ _) l' e h = ground arith
    agains _ l' e h = ground arith

    dones :
        (l : Local) (b : Bool) → settled l ≡ true → exit l ≡ done b → Finishes arrival_ordered l b
    dones (reading _ _ _) b e h = ground arith
    dones _ b e h = ground arith
