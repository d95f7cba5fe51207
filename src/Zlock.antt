-- ===== src/Zlock.antt =====
-- anode/src/zlock.rs and anode/src/zlock/*.rs: the lock and its moderators.
pub mod Moderator
pub mod ReadBiased
pub mod WriteBiased
pub mod ArrivalOrdered
pub mod Stochastic
pub mod LegacyReadBiased
pub mod LegacyWriteBiased
pub mod LegacyArrivalOrdered
pub mod System
pub mod Implementation
pub mod Exclusion
pub mod Attempt
pub mod Guards
pub mod Quiet
pub mod Uncontended
pub mod Content
pub mod Deep
