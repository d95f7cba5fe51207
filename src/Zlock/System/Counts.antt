-- ===== src/Zlock/System/Counts.antt =====
-- anode/src/zlock.rs: what an operation in progress holds, and how the two fields count it.
use libmutex.Prelude.{ℕ, ◌+◌, ◌≤◌, ◌≡◌, arith, Bool, true, false, not}
use libmutex.Zlock.Moderator.{
  Kind, try_read, read_unlock, try_write, write_unlock, downgrade, try_upgrade, Granting, flag,
  Held,
}

-- Read access held by an operation in progress: a guard that it consumes counts until it has
-- been given up, a guard that it returns counts from the moment of the grant.
abbrev pub reads_of : Kind → Bool → ℕ
reads_of try_read g = flag g
reads_of read_unlock g = flag (not g)
reads_of try_write g = 0
reads_of write_unlock g = 0
reads_of downgrade g = flag g
reads_of try_upgrade g = flag (not g)

pub reads_of-le : (k : Kind) (g : Bool) → reads_of k g ≤ 1
reads_of-le try_read g = ground arith
reads_of-le _ g = ground arith

abbrev pub writes_of : Kind → Bool → ℕ
writes_of try_read g = 0
writes_of read_unlock g = 0
writes_of try_write g = flag g
writes_of write_unlock g = flag (not g)
writes_of downgrade g = flag (not g)
writes_of try_upgrade g = flag g

-- `r` and `w`, fields of the state, count `reads` and `writes` accesses, never both kinds.
pub record Counts (r : ℕ) (w : Bool) (reads writes : ℕ) : Type 0 where
  pub readers_counted : r ≡ reads
  pub writer_counted : flag w ≡ writes
  pub apart : w ≡ true → r ≡ 0

pub Granting-Counts :
    (k : Kind) (g g' : Bool) (r r' : ℕ) (w w' : Bool) (a c : ℕ)
    → Granting k g g' r w r' w'
    → Counts r w (a + reads_of k g) (c + writes_of k g)
    → Counts r' w' (a + reads_of k g') (c + writes_of k g')
Granting-Counts try_read g g' r r' w w' a c h q = ground arith
Granting-Counts read_unlock g g' r r' w w' a c h q = ground arith
Granting-Counts try_write g g' r r' w w' a c h q = ground arith
Granting-Counts write_unlock g g' r r' w w' a c h q = ground arith
Granting-Counts downgrade g g' r r' w w' a c h q = ground arith
Granting-Counts try_upgrade g g' r r' w w' a c h q = ground arith

-- The guard that an operation consumes is as good as the specification wants it.
pub Counts-Held :
    (k : Kind) (g : Bool) (r : ℕ) (w : Bool) (a c : ℕ)
    → Counts r w (a + reads_of k g) (c + writes_of k g)
    → Held k g r w
Counts-Held try_read true r w a c q = tt
Counts-Held try_write true r w a c q = tt
Counts-Held try_read false r w a c q = tt
Counts-Held try_write false r w a c q = tt
Counts-Held read_unlock g r w a c q = ground arith
Counts-Held write_unlock g r w a c q = ground arith
Counts-Held downgrade g r w a c q = ground arith
Counts-Held try_upgrade g r w a c q = ground arith
