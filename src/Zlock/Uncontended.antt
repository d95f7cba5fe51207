-- ===== src/Zlock/Uncontended.antt =====
-- anode/src/zlock.rs with each of its moderators: an operation on a lock that no thread uses.
use libmutex.Prelude.{
  ℕ, ◌+◌, ◌<◌, ◌≡◌, refl, arith, ◌^◌, Option-cases, inl, inr, Bool, true, false, some,
}
use libmutex.Monitor.{Turn, may_finish}
use libmutex.Zlock.Moderator.{Moderator, Kind, done}
use libmutex.Zlock.System.{idle, System, Reach}
use libmutex.Zlock.ReadBiased
use libmutex.Zlock.WriteBiased
use libmutex.Zlock.ArrivalOrdered
use libmutex.Zlock.Stochastic
use libmutex.Zlock.LegacyReadBiased
use libmutex.Zlock.LegacyWriteBiased
use libmutex.Zlock.LegacyArrivalOrdered
use libmutex.Zlock.Implementation.{Implementation, moderator}
use libmutex.Zlock.Exclusion.{HasTickets}
use libmutex.Zlock.Quiet.{IsAsNew, idle-IsAsNew}

-- The operations that take a lock.
abbrev pub taking : Bool → Kind
taking true = Kind.try_write
taking false = Kind.try_read

-- The operation ends after one evaluation, with a guard.
pub record Succeeds (m : Moderator) (op : Kind) (d t u : ℕ) (s : m.State) : Type 0 where
  pub turn : Turn m.Local m.State
  pub evaluated : m.eval t u (m.begin op d) s ≡ some turn
  pub finishes : may_finish turn.directive ≡ true
  pub succeeds : m.exit turn.locals ≡ done true

read_biased-Succeeds :
    (write : Bool) (d t u : ℕ) → Succeeds ReadBiased.read_biased (taking write) d t u ReadBiased.new
unfolding ReadBiased.new ReadBiased.begin ReadBiased.eval ReadBiased.exit
read_biased-Succeeds true d t u = record {
  turn = _;
  evaluated = refl;
  finishes = refl;
  succeeds = refl;
}
read_biased-Succeeds false d t u = record {
  turn = _;
  evaluated = refl;
  finishes = refl;
  succeeds = refl;
}

write_biased-Succeeds :
    (write : Bool) (d t u : ℕ)
    → Succeeds WriteBiased.write_biased (taking write) d t u WriteBiased.new
unfolding WriteBiased.new WriteBiased.begin WriteBiased.eval WriteBiased.exit
write_biased-Succeeds true d t u = record {
  turn = _;
  evaluated = refl;
  finishes = refl;
  succeeds = refl;
}
write_biased-Succeeds false d t u = record {
  turn = _;
  evaluated = refl;
  finishes = refl;
  succeeds = refl;
}

legacy_read_biased-Succeeds :
    (write : Bool) (d t u : ℕ)
    → Succeeds LegacyReadBiased.legacy_read_biased (taking write) d t u LegacyReadBiased.new
unfolding LegacyReadBiased.new LegacyReadBiased.begin LegacyReadBiased.eval LegacyReadBiased.exit
legacy_read_biased-Succeeds true d t u = record {
  turn = _;
  evaluated = refl;
  finishes = refl;
  succeeds = refl;
}
legacy_read_biased-Succeeds false d t u = record {
  turn = _;
  evaluated = refl;
  finishes = refl;
  succeeds = refl;
}

legacy_write_biased-Succeeds :
    (write : Bool) (d t u : ℕ)
    → Succeeds LegacyWriteBiased.legacy_write_biased (taking write) d t u LegacyWriteBiased.new
unfolding LegacyWriteBiased.new LegacyWriteBiased.begin LegacyWriteBiased.eval
    LegacyWriteBiased.exit
legacy_write_biased-Succeeds true d t u = record {
  turn = _;
  evaluated = refl;
  finishes = refl;
  succeeds = refl;
}
legacy_write_biased-Succeeds false d t u = record {
  turn = _;
  evaluated = refl;
  finishes = refl;
  succeeds = refl;
}

arrival_ordered-Succeeds :
    (write : Bool) (d t u : ℕ) (s : ArrivalOrdered.State)
    → s.readers ≡ 0
    → s.writer ≡ false
    → s.next_ticket ≡ s.serviced_tickets + 1
    → s.next_ticket + 1 < 2 ^ 64
    → Succeeds ArrivalOrdered.arrival_ordered (taking write) d t u s
unfolding ArrivalOrdered.begin ArrivalOrdered.eval ArrivalOrdered.exit
arrival_ordered-Succeeds true d t u s r w e small =
    elim (Option-cases (ArrivalOrdered.eval t u (ArrivalOrdered.begin Kind.try_write d) s)) [
      | inl q ↦ absurd (ground (arith, q))
      | inr (turn, q) ↦ record {
        turn = turn;
        evaluated = q;
        finishes = ground (arith, q);
        succeeds = ground (arith, q);
      }
    ]
arrival_ordered-Succeeds false d t u s r w e small =
    elim (Option-cases (ArrivalOrdered.eval t u (ArrivalOrdered.begin Kind.try_read d) s)) [
      | inl q ↦ absurd (ground (arith, q))
      | inr (turn, q) ↦ record {
        turn = turn;
        evaluated = q;
        finishes = ground (arith, q);
        succeeds = ground (arith, q);
      }
    ]

legacy_arrival_ordered-Succeeds :
    (write : Bool) (d t u : ℕ) (s : LegacyArrivalOrdered.State)
    → s.readers ≡ 0
    → s.writer ≡ false
    → s.next_ticket ≡ s.serviced_tickets + 1
    → s.next_ticket + 1 < 2 ^ 64
    → Succeeds LegacyArrivalOrdered.legacy_arrival_ordered (taking write) d t u s
unfolding LegacyArrivalOrdered.begin LegacyArrivalOrdered.eval LegacyArrivalOrdered.exit
legacy_arrival_ordered-Succeeds true d t u s r w e small =
    elim (Option-cases
      (LegacyArrivalOrdered.eval t u (LegacyArrivalOrdered.begin Kind.try_write d) s)) [
        | inl q ↦ absurd (ground (arith, q))
        | inr (turn, q) ↦ record {
          turn = turn;
          evaluated = q;
          finishes = ground (arith, q);
          succeeds = ground (arith, q);
        }
      ]
legacy_arrival_ordered-Succeeds false d t u s r w e small =
    elim (Option-cases
      (LegacyArrivalOrdered.eval t u (LegacyArrivalOrdered.begin Kind.try_read d) s)) [
        | inl q ↦ absurd (ground (arith, q))
        | inr (turn, q) ↦ record {
          turn = turn;
          evaluated = q;
          finishes = ground (arith, q);
          succeeds = ground (arith, q);
        }
      ]

stochastic-Succeeds :
    (cutoff : ℕ → ℕ) (write : Bool) (d t u seed : ℕ)
    → Succeeds
        (Stochastic.stochastic cutoff)
        (taking write)
        d
        t
        u
        (record Stochastic.new { seed = seed })
unfolding Stochastic.new Stochastic.begin Stochastic.eval Stochastic.exit Stochastic.privilege
    Stochastic.seek_privilege
stochastic-Succeeds cutoff true d t u seed = record {
  turn = _;
  evaluated = refl;
  finishes = refl;
  succeeds = refl;
}
stochastic-Succeeds cutoff false d t u seed = record {
  turn = _;
  evaluated = refl;
  finishes = refl;
  succeeds = refl;
}

-- A state like a new one, but for what the moderator has counted of the past.
IsAsNew-Succeeds :
    (cutoff : ℕ → ℕ) (k : Implementation) (s : (moderator cutoff k).State) (write : Bool)
    (d t u : ℕ)
    → IsAsNew cutoff k s
    → HasTickets cutoff k s
    → Succeeds (moderator cutoff k) (taking write) d t u s
IsAsNew-Succeeds cutoff Implementation.read_biased s write d t u e h =
    rw e (read_biased-Succeeds write d t u)
IsAsNew-Succeeds cutoff Implementation.write_biased s write d t u e h =
    rw e (write_biased-Succeeds write d t u)
IsAsNew-Succeeds cutoff Implementation.arrival_ordered s write d t u e h =
    arrival_ordered-Succeeds write d t u s e.0 e.1 e.2 h
IsAsNew-Succeeds cutoff Implementation.stochastic s write d t u e h =
    rw e (stochastic-Succeeds cutoff write d t u s.seed)
IsAsNew-Succeeds cutoff Implementation.legacy_read_biased s write d t u e h =
    rw e (legacy_read_biased-Succeeds write d t u)
IsAsNew-Succeeds cutoff Implementation.legacy_write_biased s write d t u e h =
    rw e (legacy_write_biased-Succeeds write d t u)
IsAsNew-Succeeds cutoff Implementation.legacy_arrival_ordered s write d t u e h =
    legacy_arrival_ordered-Succeeds write d t u s e.0 e.1 e.2 h

-- A lock that no thread uses is taken at once: under each of the seven moderators, as long as the
-- next ticket number of an arrival-ordered one is below `2 ^ 64 - 1`, `try_read` and `try_write`
-- return their guard after one evaluation, with any duration, that of zero included, and whatever
-- threads have done with the lock before.
pub idle-Succeeds :
    (cutoff : ℕ → ℕ) (k : Implementation) {n : ℕ} {z : System (moderator cutoff k)}
    → Reach (moderator cutoff k) n z
    → ((i : ℕ) → i < n → z.threads i ≡ idle)
    → HasTickets cutoff k z.state
    → (write : Bool) (d t u : ℕ) → Succeeds (moderator cutoff k) (taking write) d t u z.state
idle-Succeeds cutoff k {z = z} reach quiet tickets write d t u =
    IsAsNew-Succeeds cutoff k z.state write d t u (idle-IsAsNew cutoff k reach quiet) tickets
