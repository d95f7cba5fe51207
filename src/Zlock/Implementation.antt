-- ===== src/Zlock/Implementation.antt =====
-- anode/src/zlock.rs: the moderators of the crate. `cutoff` is the draw of the stochastic one.
use libmutex.Prelude.{ℕ, Bool}
use libmutex.Zlock.Moderator.{Moderator, Laws}
use libmutex.Zlock.Attempt.{PatienceLaws}
use libmutex.Zlock.ReadBiased
use libmutex.Zlock.WriteBiased
use libmutex.Zlock.ArrivalOrdered
use libmutex.Zlock.Stochastic
use libmutex.Zlock.LegacyReadBiased
use libmutex.Zlock.LegacyWriteBiased
use libmutex.Zlock.LegacyArrivalOrdered
use libmutex.Zlock.ReadBiased.Laws.{read_biased-Laws}
use libmutex.Zlock.WriteBiased.Laws.{write_biased-Laws}
use libmutex.Zlock.ArrivalOrdered.Laws.{arrival_ordered-Laws}
use libmutex.Zlock.Stochastic.Laws.{stochastic-Laws}
use libmutex.Zlock.LegacyReadBiased.Laws.{legacy_read_biased-Laws}
use libmutex.Zlock.LegacyWriteBiased.Laws.{legacy_write_biased-Laws}
use libmutex.Zlock.LegacyArrivalOrdered.Laws.{legacy_arrival_ordered-Laws}
use libmutex.Zlock.ReadBiased.Patience as ReadBiasedPatience
use libmutex.Zlock.WriteBiased.Patience as WriteBiasedPatience
use libmutex.Zlock.ArrivalOrdered.Patience as ArrivalOrderedPatience
use libmutex.Zlock.Stochastic.Patience as StochasticPatience
use libmutex.Zlock.LegacyReadBiased.Patience as LegacyReadBiasedPatience
use libmutex.Zlock.LegacyWriteBiased.Patience as LegacyWriteBiasedPatience
use libmutex.Zlock.LegacyArrivalOrdered.Patience as LegacyArrivalOrderedPatience

pub data Implementation : Type 0 where
  read_biased write_biased arrival_ordered stochastic : Implementation
  legacy_read_biased legacy_write_biased legacy_arrival_ordered : Implementation

module _ (cutoff : ℕ → ℕ) where
  abbrev pub moderator : Implementation → Moderator
  moderator read_biased = ReadBiased.read_biased
  moderator write_biased = WriteBiased.write_biased
  moderator arrival_ordered = ArrivalOrdered.arrival_ordered
  moderator stochastic = Stochastic.stochastic cutoff
  moderator legacy_read_biased = LegacyReadBiased.legacy_read_biased
  moderator legacy_write_biased = LegacyWriteBiased.legacy_write_biased
  moderator legacy_arrival_ordered = LegacyArrivalOrdered.legacy_arrival_ordered

  pub moderator-Laws : (k : Implementation) → Laws (moderator k)
  moderator-Laws read_biased = read_biased-Laws
  moderator-Laws write_biased = write_biased-Laws
  moderator-Laws arrival_ordered = arrival_ordered-Laws
  moderator-Laws stochastic = stochastic-Laws cutoff
  moderator-Laws legacy_read_biased = legacy_read_biased-Laws
  moderator-Laws legacy_write_biased = legacy_write_biased-Laws
  moderator-Laws legacy_arrival_ordered = legacy_arrival_ordered-Laws

  -- Where each moderator keeps its deadline, with the laws of patience.
  pub moderator-Patience :
      (k : Implementation)
      → (endless : (moderator k).Local → Bool) × PatienceLaws (moderator k) endless
  moderator-Patience read_biased =
      (ReadBiasedPatience.endless, ReadBiasedPatience.read_biased-PatienceLaws)
  moderator-Patience write_biased =
      (WriteBiasedPatience.endless, WriteBiasedPatience.write_biased-PatienceLaws)
  moderator-Patience arrival_ordered =
      (ArrivalOrderedPatience.endless, ArrivalOrderedPatience.arrival_ordered-PatienceLaws)
  moderator-Patience stochastic =
      (StochasticPatience.endless, StochasticPatience.stochastic-PatienceLaws cutoff)
  moderator-Patience legacy_read_biased =
      (LegacyReadBiasedPatience.endless, LegacyReadBiasedPatience.legacy_read_biased-PatienceLaws)
  moderator-Patience legacy_write_biased = (
    LegacyWriteBiasedPatience.endless, LegacyWriteBiasedPatience.legacy_write_biased-PatienceLaws,
  )
  moderator-Patience legacy_arrival_ordered = (
    LegacyArrivalOrderedPatience.endless,
    LegacyArrivalOrderedPatience.legacy_arrival_ordered-PatienceLaws,
  )

-- Those whose state is in a `SpeculativeMonitor`. The legacy ones keep it in a `Mutex`.
pub data Monitored : Type 0 where
  read_biased write_biased arrival_ordered stochastic : Monitored

abbrev pub implementation : Monitored → Implementation
implementation Monitored.read_biased = Implementation.read_biased
implementation Monitored.write_biased = Implementation.write_biased
implementation Monitored.arrival_ordered = Implementation.arrival_ordered
implementation Monitored.stochastic = Implementation.stochastic
