-- ===== src/Lib.antt =====
-- libmutex (crate `anode`): mutual exclusion, monitors and what is built on them, in Rust.
--
-- The parts, from the bottom up. A `SpinMutex` and the standard library's mutex and condition
-- variable make the `SpeculativeMonitor` (anode/src/monitor.rs), whose `enter` evaluates a closure
-- on a protected state until its directive says to return. A `ZLock` (anode/src/zlock.rs) is a
-- reader-writer lock over a `Moderator`; each moderator (anode/src/zlock/*.rs) is a small state in
-- a monitor, with its six operations as closures given to `enter`. Deadlines, backoff, iterators
-- and pseudo-random numbers serve these parts.
--
-- - Prelude: shared names, tests, lists, panics as `none`, sums over threads. Time: durations and instants
--   as nanoseconds, with the bounds of 64-bit Linux.
-- - Deadline, Remedy, Backoff, InfIterator, Chalice, Rand: the files of these names, with the
--   functions under their names in the code. A mutable object is an argument and a result.
-- - Monitor: `Defs` has directives and evaluations of a closure; `Machine` has the threads that call
--   `enter` or `lock`: a program counter with the live variables for each thread, one step for each
--   access to a lock, and the critical section under the spin lock as one function, `round`.
--   `Counts` and `Invariant` say what the locks and `waiting` count, `Safety` what follows,
--   `Refinement` that the machine implements the specification that clients use, `Wakeup` what
--   becomes of notifications, `Progress` that threads do not wait in a circle.
-- - Zlock: `Moderator` is the trait as a record of operations, with its laws; `ReadBiased`,
--   `WriteBiased`, `ArrivalOrdered`, `Stochastic` and the three `Legacy…` are the implementations
--   (`Implementation` lists them), and their `Laws` fill the interface. `System` interleaves the
--   operations of any number of threads over one lock, at the level of atomic evaluations, or of
--   critical sections for the legacy ones; `System/Invariant` and `System/Safety` hold for every
--   moderator that meets the laws. `Attempt` follows one operation without a time limit, by the laws
--   that each `Patience` fills; `Exclusion` draws the conclusions for each of the seven.
--   `ArrivalOrdered/Order` and `Fifo` are about the order of service. `Guards` has the guards as
--   values, with the calls of the moderator that their methods make; `Guards/Discipline` relates
--   these calls to the threads of `System`, `Guards/Dyn` is zlock/locklike.rs. `Quiet` and
--   `Uncontended` are about a lock that no thread uses; `Content` adds the data behind the lock, and what a guard reads. `Deep`
--   puts the lock on the machine of Monitor: each operation is a chain of calls of `enter`;
--   `Deep/Simulation` relates it to `System`, `Deep/Safety` has what follows for the moderators that
--   use the monitor.
-- - SpinMutex: threads over the flag, one step for each access; `Exclusion` has what follows.
-- - Wait: the loop of the spin wait; `Rounds` says when it ends.
-- - Completable: the closures given to `enter` and any number of calls over the specification of
--   `enter`; `Single` has what one evaluation keeps, `Calls` what the calls return.
-- - Executor: the thread pool as steps of its workers and users; `Tasks` says where tasks are,
--   `Outcomes` what they are completed with.
-- - QuadHarness: anode-bench/src/quad_harness.rs, threads that read and add to a counter behind a
--   `ZLock`: `Threads` has one thread, `System` the run and its result. `Counter` has what a step
--   of a thread keeps, `Invariant` what every step keeps, `Result` what follows; `Addables` has the counters, `Spin` the delays, `Shims` the other locks that the
--   harness takes (lock_spec.rs, lock_shims.rs).
-- - ExecHarness: anode-bench/src/exec_harness.rs, a load for the thread pool of Executor, whose
--   workers count the tasks. `Counts` has what every step keeps, `Finish` the wait at the end.
-- - RandomBin: anode/src/bin/random.rs, a program that writes pseudo-random numbers. `Args` reads its
--   arguments, `Output` writes, over any standard output; `Main` is the program. `Pieces` is about an
--   output that takes a part of a buffer, `Counts` about
--   the letters in a count, `Samples` and `Main/Binary` about what is written in binary, `Decimal`,
--   `Lines` and `Lines/Reading` about what is written as text; `Rand/Bits` and `Rand/Generators` about
--   the numbers of the generators.
-- - Tests: concrete runs, and the theorems applied to them.
--
-- Numbers are natural numbers; the widths of the code's integers are written out where they count.
-- A failed `debug_assert!` and an overflow are `none`, as in the debug profile; where nothing
-- panics the release profile computes the same. Clock readings are arguments: an evaluation of a
-- closure that asks for the time left takes two. Memory is sequentially consistent. Fuel is used
-- for rejection sampling (Rand/Lim), where each draw costs one, and for the spin wait (Wait), where
-- each round costs one and a theorem says which fuel is enough.
--
-- Not modelled: formatting (but for decimal numbers), floats (a probability is given by the cutoff
-- that the code computes from it), the test support, and of the benchmarks what measures and prints,
-- and what is copied from parking_lot.
pub mod Prelude
pub mod Time
pub mod Deadline
pub mod Monitor
pub mod Zlock
pub mod Rand
pub mod RandomBin
pub mod Backoff
pub mod InfIterator
pub mod Chalice
pub mod Remedy
mod Tests
pub mod Completable
pub mod Wait
pub mod SpinMutex
pub mod Executor
pub mod QuadHarness
pub mod ExecHarness
