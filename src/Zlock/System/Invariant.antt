-- ===== src/Zlock/System/Invariant.antt =====
-- anode/src/zlock.rs: the invariant of a `ZLock` shared by threads, for any moderator that meets
-- its laws, and that every step keeps it.
use libmutex.Prelude.{
  ℕ, ◌+◌, ◌-◌, ◌<◌, ◌≤◌, ◌≡◌, refl, arith, Bool, true, false, some, place, place-all, total,
  total-place, weight-le-total, total-zero,
}
use libmutex.Monitor.{Directive, Turn, may_repeat}
use libmutex.Zlock.Moderator.{
  Kind, try_read, read_unlock, try_write, write_unlock, downgrade, try_upgrade, again, done,
  Moderator, Laws, is_try,
}
use libmutex.Zlock.System.{
  Status, idle, reader, writer, entering, evaluated, source, outcome, Move, call, first, repeat,
  continue, finish, System, Step, pick, Reach, start, later, init,
}
use libmutex.Zlock.System.Counts.{reads_of, writes_of, reads_of-le, Counts, Granting-Counts}

module _ (m : Moderator) where
  -- Read access, write access, and what a thread has still to settle.
  abbrev pub reads : Status m.Local → ℕ
  reads idle = 0
  reads reader = 1
  reads writer = 0
  reads (entering l) = reads_of (m.kind l) (m.granted l)
  reads (evaluated l _) = reads_of (m.kind l) (m.granted l)

  abbrev pub writes : Status m.Local → ℕ
  writes idle = 0
  writes reader = 0
  writes writer = 1
  writes (entering l) = writes_of (m.kind l) (m.granted l)
  writes (evaluated l _) = writes_of (m.kind l) (m.granted l)

  pub reads-le : (p : Status m.Local) → reads p ≤ 1
  reads-le idle = omega arith
  reads-le reader = omega arith
  reads-le writer = omega arith
  reads-le (entering l) = reads_of-le (m.kind l) (m.granted l)
  reads-le (evaluated l d) = reads_of-le (m.kind l) (m.granted l)

  abbrev pub debts : Status m.Local → ℕ
  debts (entering l) = m.debt l
  debts (evaluated l _) = m.debt l
  debts _ = 0

  abbrev pub queued : Status m.Local → ℕ
  queued (entering l) = m.place_in_queue l
  queued (evaluated l _) = m.place_in_queue l
  queued _ = 0

  -- A guard has the shares of an operation that is about to consume it, or that has returned it.
  source-shares :
      (k : Kind)
      → (reads (source k) ≡ reads_of k false)
        × (writes (source k) ≡ writes_of k false)
        × (debts (source k) ≡ 0)
        × (queued (source k) ≡ 0)
  source-shares try_read = (refl, refl, refl, refl)
  source-shares _ = (refl, refl, refl, refl)

  outcome-shares :
      (k : Kind) (g b : Bool)
      → (is_try k ≡ true → b ≡ g)
      → (is_try k ≡ false → g ≡ true)
      → (reads (outcome k b) ≡ reads_of k g)
        × (writes (outcome k b) ≡ writes_of k g)
        × (debts (outcome k b) ≡ 0)
        × (queued (outcome k b) ≡ 0)
  outcome-shares try_read g b p q = ground (arith, p refl)
  outcome-shares read_unlock g b p q = ground (arith, q refl)
  outcome-shares try_write g b p q = ground (arith, p refl)
  outcome-shares write_unlock g b p q = ground (arith, q refl)
  outcome-shares downgrade g b p q = ground (arith, q refl)
  outcome-shares try_upgrade g b p q = ground (arith, p refl)

  -- Where a thread is about to evaluate it may, and where `enter` may return all is settled.
  abbrev pub IsSound : Status m.Local → Type 0
  IsSound (entering l) = m.ready l ≡ true
  IsSound (evaluated l d) = (m.settled l ≡ true) × (may_repeat d ≡ true → m.ready l ≡ true)
  IsSound _ = Unit

  outcome-IsSound : (k : Kind) (b : Bool) → IsSound (outcome k b)
  outcome-IsSound try_read true = tt
  outcome-IsSound try_read false = tt
  outcome-IsSound try_write true = tt
  outcome-IsSound try_write false = tt
  outcome-IsSound try_upgrade true = tt
  outcome-IsSound try_upgrade false = tt
  outcome-IsSound read_unlock b = tt
  outcome-IsSound write_unlock b = tt
  outcome-IsSound downgrade b = tt

  -- What one thread's step keeps, `a`, `b`, `c` and `e` being the sums over the others.
  pub record Keeps (s : m.State) (p : Status m.Local) (a b c e : ℕ) : Type 0 where
    pub counts : Counts (m.readers s) (m.writer s) (a + reads p) (b + writes p)
    pub tally : m.Tally s (c + debts p) (e + queued p)
    pub sound : IsSound p

  module _ (laws : Laws m) where
    evaluates-Keeps :
        (t u : ℕ) (l : m.Local) (s : m.State) (r : Turn m.Local m.State) (a b c e : ℕ)
        → m.ready l ≡ true
        → m.eval t u l s ≡ some r
        → Keeps s (entering l) a b c e
        → Keeps r.state (evaluated r.locals r.directive) a b c e
    evaluates-Keeps t u l s r a b c e ready h k =
        let ev = laws.eval_lem t u l s c e r ready k.tally h in
        let new_counts =
          Granting-Counts (m.kind l) (m.granted l) (m.granted r.locals) (m.readers s)
            (m.readers r.state) (m.writer s) (m.writer r.state) a b ev.granting k.counts in
        record {
          counts = rw ev.same new_counts;
          tally = ev.tally;
          sound = (ev.settles, ev.stays_ready);
        }

    call-Keeps :
        (k : Kind) (d : ℕ) (s : m.State) (a b c e : ℕ)
        → Keeps s (source k) a b c e
        → Keeps s (entering (m.begin k d)) a b c e
    call-Keeps k d s a b c e h =
        let n = laws.begin_lem k d in
        let (same_reads, same_writes, no_debt, no_queue) = source-shares k in
        record {
          counts = rw (n.same, n.fresh) (rw (same_reads, same_writes) at h.counts);
          tally = rw (n.free, n.unqueued) (rw (no_debt, no_queue) at h.tally);
          sound = n.starts_ready;
        }

    continue-Keeps :
        (l l' : m.Local) (d : Directive) (s : m.State) (a b c e : ℕ)
        → m.exit l ≡ again l'
        → Keeps s (evaluated l d) a b c e
        → Keeps s (entering l') a b c e
    continue-Keeps l l' d s a b c e x h =
        let n = laws.again_lem l l' h.sound.0 x in
        record {
          counts = rw (n.same, n.still) h.counts;
          tally = rw (n.owes, n.queues) h.tally;
          sound = n.starts_ready;
        }

    finish-Keeps :
        (l : m.Local) (d : Directive) (r : Bool) (s : m.State) (a b c e : ℕ)
        → m.exit l ≡ done r
        → Keeps s (evaluated l d) a b c e
        → Keeps s (outcome (m.kind l) r) a b c e
    finish-Keeps l d r s a b c e x h =
        let n = laws.done_lem l r h.sound.0 x in
        let (same_reads, same_writes, no_debt, no_queue) =
          outcome-shares (m.kind l) (m.granted l) r n.result n.effect in
        record {
          counts = rw (same_reads, same_writes) h.counts;
          tally = rw (no_debt, no_queue) (rw (n.paid, n.left) at h.tally);
          sound = outcome-IsSound (m.kind l) r;
        }

    Move-Keeps :
        {s s' : m.State} {p p' : Status m.Local} (a b c e : ℕ)
        → Move m s p s' p'
        → Keeps s p a b c e
        → Keeps s' p' a b c e
    Move-Keeps a b c e (call k d) h = call-Keeps k d _ a b c e h
    Move-Keeps a b c e (first t u q) h = evaluates-Keeps t u _ _ _ a b c e h.sound q h
    Move-Keeps a b c e (repeat t u may q) h =
        evaluates-Keeps t u _ _ _ a b c e (h.sound.1 may) q
          (record { counts = h.counts; tally = h.tally; sound = h.sound.1 may })
    Move-Keeps a b c e (continue _ x) h = continue-Keeps _ _ _ _ a b c e x h
    Move-Keeps a b c e (finish _ x) h = finish-Keeps _ _ _ _ a b c e x h

  -- The invariant of the system, over the sums of what all threads hold.
  pub record Inv (n : ℕ) (z : System m) : Type 0 where
    pub counts :
        Counts
          (m.readers z.state)
          (m.writer z.state)
          (total reads n z.threads)
          (total writes n z.threads)
    pub tally : m.Tally z.state (total debts n z.threads) (total queued n z.threads)
    pub sound : (i : ℕ) → IsSound (z.threads i)

  -- The share of one thread, put apart from that of the others.
  pub rest : (Status m.Local → ℕ) → ℕ → ℕ → (ℕ → Status m.Local) → ℕ
  rest w n i f = total w n f - w (f i)

  pub rest-add :
      (w : Status m.Local → ℕ) (n i : ℕ) (f : ℕ → Status m.Local)
      → i < n
      → rest w n i f + w (f i) ≡ total w n f
  unfolding rest
  rest-add w n i f h = omega (arith, weight-le-total w n i f h)

  pub rest-place :
      (w : Status m.Local → ℕ) (n i : ℕ) (f : ℕ → Status m.Local) (p : Status m.Local)
      → i < n
      → rest w n i f + w p ≡ total w n (place i p f)
  unfolding rest
  rest-place w n i f p h = omega (arith, weight-le-total w n i f h, total-place w n i p f h)

  -- The invariant, as seen by one thread.
  pub isolate :
      {n : ℕ} {z : System m}
      → Inv n z
      → (i : ℕ) → i < n
      → Keeps z.state
          (z.threads i)
          (rest reads n i z.threads)
          (rest writes n i z.threads)
          (rest debts n i z.threads)
          (rest queued n i z.threads)
  isolate {n} {z} inv i lt = record {
    counts = rw (rest-add reads n i f lt, rest-add writes n i f lt) inv.counts;
    tally = rw (rest-add debts n i f lt, rest-add queued n i f lt) inv.tally;
    sound = inv.sound i;
  }
    where
      f : ℕ → Status m.Local
      f = z.threads

  -- Every step keeps the invariant.
  pub Step-Inv : Laws m → {n : ℕ} {y z : System m} → Step m n y z → Inv n y → Inv n z
  Step-Inv laws {n} {y} (pick i {s} {p} lt mv) inv =
      let f = y.threads in
      let k =
        Move-Keeps laws (rest reads n i f) (rest writes n i f) (rest debts n i f)
          (rest queued n i f) mv (isolate inv i lt) in
      record {
        counts = rw (rest-place reads n i f p lt, rest-place writes n i f p lt) at k.counts;
        tally = rw (rest-place debts n i f p lt, rest-place queued n i f p lt) at k.tally;
        sound = place-all IsSound f i p k.sound inv.sound;
      }

  pub Reach-Inv : Laws m → {n : ℕ} {z : System m} → Reach m n z → Inv n z
  unfolding init
  Reach-Inv laws {n} start = record {
    counts = ground (
      arith,
      laws.new-readers,
      laws.new-writer,
      total-zero reads n (λ _. idle) (λ _. refl),
      total-zero writes n (λ _. idle) (λ _. refl),
    );
    tally =
        rw (total-zero debts n (λ _. idle) (λ _. refl), total-zero queued n (λ _. idle) (λ _. refl))
          laws.new-Tally;
    sound = λ _. tt;
  }
  Reach-Inv laws (later r st) = Step-Inv laws st (Reach-Inv laws r)
