-- ===== src/Zlock/Stochastic/Laws.antt =====
-- anode/src/zlock/stochastic.rs: the closures implement the reader-writer specification,
-- `writer_pending` belongs to one operation at a time, and `queued` counts the waiting readers.
use libmutex.Prelude.{
  inl, inr, not, ◌||◌, false, Option-cases, Option, ◌≢◌, ℕ, ◌+◌, ◌≤◌, ◌≡◌, refl, arith, Bool, true,
  none, some,
}
use libmutex.Deadline.{remaining-total}
use libmutex.Monitor.{Turn, may_repeat}
use libmutex.Zlock.Moderator.{
  flag, Kind, again, done, Laws, Begins, Granting, Held, Continues, Finishes,
}
use libmutex.Zlock.Stochastic.{
  State, Local, reading, read_leaving, read_unlocking, writing, write_clearing, write_unlocking,
  downgrading, upgrading, upgrade_clearing, eval, Privilege, privilege, seek_privilege,
  has_position, kind, granted, debt, place_in_queue, ready, settled, exit, begin, Tally, Room,
  stochastic, new,
}

-- A reader counts once.
pub place_in_queue-le : (l : Local) → place_in_queue l ≤ 1
place_in_queue-le (reading d acq saw det pos) = ground arith
place_in_queue-le (read_leaving left) = ground arith
place_in_queue-le _ = omega arith

module _ (cutoff : ℕ → ℕ) where
  -- One evaluation of any closure leaves the reader count and the writer flag alone, or grants
  -- the operation as the specification says.
  pub stochastic-Granting :
      (t u : ℕ) (l : Local) (s : State) {r : Turn Local State}
      → eval cutoff t u l s ≡ some r
      → Granting
          (kind l)
          (granted l)
          (granted r.locals)
          s.readers
          s.writer
          r.state.readers
          r.state.writer
  unfolding eval privilege seek_privilege
  stochastic-Granting t u (reading d acq saw det pos) s h = ground arith
  stochastic-Granting t u (read_leaving left) s h = ground arith
  stochastic-Granting t u (read_unlocking rel) s h = ground arith
  stochastic-Granting t u (writing d acq self) s h = ground arith
  stochastic-Granting t u (write_clearing acq clr) s h = ground arith
  stochastic-Granting t u (write_unlocking rel) s h = ground arith
  stochastic-Granting t u (downgrading rel) s h = ground arith
  stochastic-Granting t u (upgrading d acq self) s h = ground arith
  stochastic-Granting t u (upgrade_clearing acq clr) s h = ground arith

  eval_keeps :
      (t u : ℕ) (l : Local) (s : State) {r : Turn Local State}
      → ready l ≡ true
      → eval cutoff t u l s ≡ some r
      → (kind r.locals ≡ kind l)
        × (settled r.locals ≡ true)
        × (may_repeat r.directive ≡ true → ready r.locals ≡ true)
  unfolding eval privilege seek_privilege
  eval_keeps t u (reading d acq saw det pos) s rd h = ground arith
  eval_keeps t u (read_leaving left) s rd h = ground arith
  eval_keeps t u (read_unlocking rel) s rd h = ground arith
  eval_keeps t u (writing d acq self) s rd h = ground arith
  eval_keeps t u (write_clearing acq clr) s rd h = ground arith
  eval_keeps t u (write_unlocking rel) s rd h = ground arith
  eval_keeps t u (downgrading rel) s rd h = ground arith
  eval_keeps t u (upgrading d acq self) s rd h = ground arith
  eval_keeps t u (upgrade_clearing acq clr) s rd h = ground arith

  -- The search for a privilege changes nothing of the state but the queue and the seed.
  privilege-state :
      (acq saw det : Bool) (pos : Option ℕ) (s : State) (p : Privilege)
      → privilege cutoff acq saw det pos s ≡ some p
      → (p.state.writer_pending ≡ s.writer_pending)
        × (p.state.writer ≡ s.writer)
        × (p.state.queued + flag (has_position pos) ≡ s.queued + flag (has_position p.position))
        × (acq ≡ false → (has_position pos || not saw) ≡ true → has_position p.position ≡ true)
  unfolding privilege seek_privilege
  privilege-state acq saw det pos s p h = ground arith

  -- One evaluation keeps `writer_pending` equal to the number of operations that have set it and
  -- not yet cleared it, `a` of them in other threads, and `queued` equal to the number of readers
  -- that wait, `b` of them in other threads.
  pub stochastic-Tally :
      (t u : ℕ) (l : Local) (s : State) (a b : ℕ) {r : Turn Local State}
      → ready l ≡ true
      → Tally s (a + debt l) (b + place_in_queue l)
      → eval cutoff t u l s ≡ some r
      → Tally r.state (a + debt r.locals) (b + place_in_queue r.locals)
  unfolding eval
  stochastic-Tally t u (reading d acq saw det pos) s a b rd g h =
      elim (Option-cases (privilege cutoff acq saw det pos s)) [
        | inl e ↦ ground (arith, e)
        | inr (p, e) ↦ ground (arith, e, privilege-state acq saw det pos s p e)
      ]
  stochastic-Tally t u (read_leaving left) s a b rd g h = ground arith
  stochastic-Tally t u (read_unlocking rel) s a b rd g h = ground arith
  stochastic-Tally t u (writing d acq self) s a b rd g h = ground arith
  stochastic-Tally t u (write_clearing acq clr) s a b rd g h = ground arith
  stochastic-Tally t u (write_unlocking rel) s a b rd g h = ground arith
  stochastic-Tally t u (downgrading rel) s a b rd g h = ground arith
  stochastic-Tally t u (upgrading d acq self) s a b rd g h = ground arith
  stochastic-Tally t u (upgrade_clearing acq clr) s a b rd g h = ground arith

  -- No assertion fails and no counter overflows, if the caller holds the guard that the operation
  -- consumes, the counts are right, and there is room for one more reader in both counters.
  pub eval-ne-none :
      (t u : ℕ) (l : Local) (s : State) (a b : ℕ)
      → ready l ≡ true
      → Tally s (a + debt l) (b + place_in_queue l)
      → Held (kind l) (granted l) s.readers s.writer
      → Room s
      → eval cutoff t u l s ≢ none
  unfolding eval privilege seek_privilege
  eval-ne-none t u (reading d acq saw det pos) s a b rd g h room =
      ground (arith, remaining-total t u d)
  eval-ne-none t u (read_leaving left) s a b rd g h room = ground arith
  eval-ne-none t u (read_unlocking rel) s a b rd g h room = ground arith
  eval-ne-none t u (writing d acq self) s a b rd g h room = ground (arith, remaining-total t u d)
  eval-ne-none t u (write_clearing acq clr) s a b rd g h room = ground arith
  eval-ne-none t u (write_unlocking rel) s a b rd g h room = ground arith
  eval-ne-none t u (downgrading rel) s a b rd g h room = ground arith
  eval-ne-none t u (upgrading d acq self) s a b rd g h room = ground (arith, remaining-total t u d)
  eval-ne-none t u (upgrade_clearing acq clr) s a b rd g h room = ground arith

  pub stochastic-Laws : Laws (stochastic cutoff)
  unfolding exit begin new
  stochastic-Laws = record {
    new-readers = refl;
    new-writer = refl;
    new-Tally = (refl, refl);
    begin_lem = λ k d. begins k d;
    eval_lem = λ t u l s a b r may tally h. record {
      same = (eval_keeps t u l s may h).0;
      granting = stochastic-Granting t u l s h;
      tally = stochastic-Tally t u l s a b may tally h;
      settles = (eval_keeps t u l s may h).1;
      stays_ready = (eval_keeps t u l s may h).2;
    };
    eval_ne_none = eval-ne-none;
    again_lem = agains;
    done_lem = dones;
  }
    where
      begins : (k : Kind) (d : ℕ) → Begins (stochastic cutoff) k (begin k d)
      begins Kind.try_read d = ground arith
      begins _ d = ground arith

      agains :
          (l l' : Local) → settled l ≡ true → exit l ≡ again l' → Continues (stochastic cutoff) l l'
      agains (reading _ _ _ _ _) l' e h = ground arith
      agains _ l' e h = ground arith

      dones :
          (l : Local) (b : Bool)
          → settled l ≡ true
          → exit l ≡ done b
          → Finishes (stochastic cutoff) l b
      dones (reading _ _ _ _ _) b e h = ground arith
      dones _ b e h = ground arith
