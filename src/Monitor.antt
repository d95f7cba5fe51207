-- ===== src/Monitor.antt =====
-- anode/src/monitor.rs: the speculative monitor. `Machine` has `enter` and `lock`.
mod Defs
pub mod Machine
pub mod Counts
pub mod Invariant
pub mod Safety
pub mod Refinement
pub mod Wakeup
pub mod Progress
unfoldable pub use Defs.*
