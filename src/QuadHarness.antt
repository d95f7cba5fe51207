-- ===== src/QuadHarness.antt =====
-- anode-bench/src/quad_harness.rs, with lock_spec.rs and lock_shims.rs: threads that read and add to
-- a counter behind a lock.
pub mod Threads
pub mod System
pub mod Spin
pub mod Counter
pub mod Invariant
pub mod Result
pub mod Addables
pub mod Shims
