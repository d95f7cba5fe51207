-- ===== src/Zlock/System/Safety.antt =====
-- anode/src/zlock.rs: what holds in every state that threads can reach, for any moderator that
-- meets its laws.
use libmutex.Prelude.{
  ℕ, ◌<◌, ◌≤◌, ◌≡◌, ◌≢◌, arith, Bool, true, none, total, weight-le-total, weights-le-total,
  total-le,
}
use libmutex.Monitor.{Directive, may_repeat}
use libmutex.Zlock.Moderator.{Moderator, Laws, flag}
use libmutex.Zlock.System.{Status, reader, writer, entering, evaluated, System, Reach}
use libmutex.Zlock.System.Counts.{Counts-Held}
use libmutex.Zlock.System.Invariant.{reads, writes, Inv, Reach-Inv, reads-le, Keeps, isolate}

flag-le : (b : Bool) → flag b ≤ 1
flag-le b = ground arith

-- A closure that the thread is about to evaluate, for the first time or again.
pub data Evaluating {L : Type 0} (l : L) : Status L → Type 0 where
  at_first : Evaluating l (entering l)
  at_repeat : {d : Directive} → may_repeat d ≡ true → Evaluating l (evaluated l d)

module _ (m : Moderator) (laws : Laws m) where
  Keeps-ne-none :
      (t u : ℕ) {l : m.Local} {p : Status m.Local} (s : m.State) (a b c e : ℕ)
      → Evaluating l p
      → Keeps m s p a b c e
      → m.Room s
      → m.eval t u l s ≢ none
  Keeps-ne-none t u {l} s a b c e at_first h room =
      laws.eval_ne_none t u l s c e h.sound h.tally
        (Counts-Held (m.kind l) (m.granted l) (m.readers s) (m.writer s) a b h.counts) room
  Keeps-ne-none t u {l} s a b c e (at_repeat may) h room =
      laws.eval_ne_none t u l s c e (h.sound.1 may) h.tally
        (Counts-Held (m.kind l) (m.granted l) (m.readers s) (m.writer s) a b h.counts) room

module _ (m : Moderator) (laws : Laws m) {n : ℕ} {z : System m} (reach : Reach m n z) where
  inv : Inv m n z
  inv = Reach-Inv m laws reach

  writers-le : total (writes m) n z.threads ≤ 1
  writers-le = omega (arith, inv.counts.writer_counted, flag-le (m.writer z.state))

  reads_of_writes : 0 < total (writes m) n z.threads → total (reads m) n z.threads ≡ 0
  reads_of_writes h = ground (arith, inv.counts)

  -- While a thread holds a write guard, no other thread holds a guard of either kind.
  pub writer_excludes :
      (i j : ℕ)
      → i < n
      → j < n
      → i ≢ j
      → z.threads i ≡ writer
      → (z.threads j ≢ writer) × (z.threads j ≢ reader)
  writer_excludes i j lt_i lt_j ne e = (
    (λ f. ground (arith, writers-le, weights-le-total (writes m) n i j z.threads lt_i lt_j ne)),
    λ f. ground (
      arith,
      reads_of_writes,
      weight-le-total (writes m) n i z.threads lt_i,
      weight-le-total (reads m) n j z.threads lt_j,
    ),
  )

  -- The reader count is at most the number of threads.
  pub readers-le : m.readers z.state ≤ n
  readers-le = omega (arith, inv.counts.readers_counted, total-le (reads m) n z.threads reads_small)
    where
      reads_small : (i : ℕ) → reads m (z.threads i) ≤ 1
      reads_small i = reads-le m (z.threads i)

  -- A thread that evaluates a closure meets no failing assertion and no overflow, as long as
  -- there is room in the counters.
  pub no_panic :
      (t u i : ℕ) {l : m.Local}
      → i < n
      → Evaluating l (z.threads i)
      → m.Room z.state
      → m.eval t u l z.state ≢ none
  no_panic t u i lt e room = Keeps-ne-none m laws t u z.state _ _ _ _ e (isolate m inv i lt) room
