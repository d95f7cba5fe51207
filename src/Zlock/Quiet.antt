-- ===== src/Zlock/Quiet.antt =====
-- anode/src/zlock.rs with each of its moderators: the lock once no thread uses it.
use libmutex.Prelude.{ℕ, ◌+◌, ◌<◌, ◌≡◌, arith, false, ap, total-zero_below}
use libmutex.Zlock.Moderator.{Moderator, Laws}
use libmutex.Zlock.System.{idle, System, Reach}
use libmutex.Zlock.System.Invariant.{reads, writes, debts, queued, Inv, Reach-Inv}
use libmutex.Zlock.ReadBiased
use libmutex.Zlock.WriteBiased
use libmutex.Zlock.Stochastic
use libmutex.Zlock.LegacyReadBiased
use libmutex.Zlock.LegacyWriteBiased
use libmutex.Zlock.Implementation.{Implementation, moderator, moderator-Laws}

-- The state of a new lock, but for the tickets that have been handed out, all of them serviced, and
-- the seed of the next draw.
abbrev pub IsAsNew : (cutoff : ℕ → ℕ) (k : Implementation) → (moderator cutoff k).State → Type 0
IsAsNew cutoff Implementation.read_biased s = s ≡ ReadBiased.new
IsAsNew cutoff Implementation.write_biased s = s ≡ WriteBiased.new
IsAsNew cutoff Implementation.arrival_ordered s =
    (s.readers ≡ 0) × (s.writer ≡ false) × (s.next_ticket ≡ s.serviced_tickets + 1)
IsAsNew cutoff Implementation.stochastic s = s ≡ record Stochastic.new { seed = s.seed }
IsAsNew cutoff Implementation.legacy_read_biased s = s ≡ LegacyReadBiased.new
IsAsNew cutoff Implementation.legacy_write_biased s = s ≡ LegacyWriteBiased.new
IsAsNew cutoff Implementation.legacy_arrival_ordered s =
    (s.readers ≡ 0) × (s.writer ≡ false) × (s.next_ticket ≡ s.serviced_tickets + 1)

record Settled (m : Moderator) (s : m.State) : Type 0 where
  pub no_readers : m.readers s ≡ 0
  pub no_writer : m.writer s ≡ false
  pub tally : m.Tally s 0 0

module _ (m : Moderator) (laws : Laws m) {n : ℕ} {z : System m} (reach : Reach m n z)
    (quiet : (i : ℕ) → i < n → z.threads i ≡ idle) where
  idle-Settled : Settled m z.state
  idle-Settled =
      let inv : Inv m n z = Reach-Inv m laws reach in
      let read = total-zero_below (reads m) n z.threads (λ i lt. ap (reads m) (quiet i lt)) in
      let written = total-zero_below (writes m) n z.threads (λ i lt. ap (writes m) (quiet i lt)) in
      let owed = total-zero_below (debts m) n z.threads (λ i lt. ap (debts m) (quiet i lt)) in
      let placed = total-zero_below (queued m) n z.threads (λ i lt. ap (queued m) (quiet i lt)) in
      record {
        no_readers = ground (arith, inv.counts, read);
        no_writer = ground (arith, inv.counts, written);
        tally = rw (owed, placed) at inv.tally;
      }

Settled-IsAsNew :
    (cutoff : ℕ → ℕ) (k : Implementation) (s : (moderator cutoff k).State)
    → Settled (moderator cutoff k) s
    → IsAsNew cutoff k s
unfolding ReadBiased.new WriteBiased.new Stochastic.new LegacyReadBiased.new LegacyWriteBiased.new
Settled-IsAsNew cutoff Implementation.read_biased s h = ground (arith, h.no_readers, h.no_writer)
Settled-IsAsNew cutoff Implementation.write_biased s h =
    ground (arith, h.no_readers, h.no_writer, h.tally)
Settled-IsAsNew cutoff Implementation.arrival_ordered s h =
    ground (arith, h.no_readers, h.no_writer, h.tally)
Settled-IsAsNew cutoff Implementation.stochastic s h =
    ground (arith, h.no_readers, h.no_writer, h.tally)
Settled-IsAsNew cutoff Implementation.legacy_read_biased s h =
    ground (arith, h.no_readers, h.no_writer)
Settled-IsAsNew cutoff Implementation.legacy_write_biased s h =
    ground (arith, h.no_readers, h.no_writer, h.tally)
Settled-IsAsNew cutoff Implementation.legacy_arrival_ordered s h =
    ground (arith, h.no_readers, h.no_writer, h.tally)

-- Under each of the seven moderators, whatever threads have done with a lock, time-outs, upgrades and
-- downgrades included: once each is idle again, the state is that of a new lock, but for the seed of the
-- stochastic one. Nothing is left counted, marked, queued or owed; the tickets that have been handed
-- out are all serviced.
pub idle-IsAsNew :
    (cutoff : ℕ → ℕ) (k : Implementation) {n : ℕ} {z : System (moderator cutoff k)}
    → Reach (moderator cutoff k) n z
    → ((i : ℕ) → i < n → z.threads i ≡ idle)
    → IsAsNew cutoff k z.state
idle-IsAsNew cutoff k {z = z} reach quiet =
    Settled-IsAsNew cutoff k z.state
      (idle-Settled (moderator cutoff k) (moderator-Laws cutoff k) reach quiet)
