-- ===== src/Tests.antt =====
-- Tests on concrete inputs, and the theorems applied at inputs that meet their hypotheses.
mod Completables
mod Contents
mod Execs
mod Harnesses
mod Locks
mod Monitors
mod Numbers
mod Orders
mod Pools
mod Samples
mod Spins
mod Stacks
mod Wakes
