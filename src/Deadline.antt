-- ===== src/Deadline.antt =====
-- anode/src/deadline.rs: a point in time that is fixed when it is first asked for.
-- `Instant::now()` is an argument. `remaining` reads the clock up to twice, so it takes two
-- readings: the first one fixes the deadline, the second one is subtracted from it.
mod Laws
pub use Laws.*
mod Defs
unfoldable pub use Defs.*
