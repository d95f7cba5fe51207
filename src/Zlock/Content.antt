-- ===== src/Zlock/Content.antt =====
-- anode/src/zlock.rs: the data behind a `ZLock`, read through a guard of either kind and assigned
-- through a write guard, by threads that share the lock (Zlock/System).
pub mod Sessions
use libmutex.Prelude.{ℕ, ◌<◌, ◌≡◌, ◌≢◌, ◌⊎◌}
use libmutex.Zlock.Moderator.{Moderator}
use libmutex.Zlock.System.{Status, idle, reader, writer}
use libmutex.Zlock.System as System

-- `ZLock`
pub record ZLock (m : Moderator) (T : Type 0) : Type 0 where
  pub sync : System.System m
  pub content : T

module _ {m : Moderator} {T : Type 0} where
  -- `ZLock::new`
  unfoldable pub new : T → ZLock m T
  new t = record { sync = System.init m; content = t }

  -- The `deref` of both guards, and `into_inner` of a lock.
  abbrev pub deref : ZLock m T → T
  deref z = z.content

  -- Thread `i` has a live guard.
  abbrev pub HasGuard : ZLock m T → ℕ → Type 0
  HasGuard z i = (z.sync.threads i ≡ reader) ⊎ (z.sync.threads i ≡ writer)

  pub data Step (n : ℕ) (z : ZLock m T) : ZLock m T → Type 0 where
    -- A step of an operation of the moderator.
    operate : {s : System.System m} → System.Step m n z.sync s → Step n z (record z { sync = s })
    -- An assignment through `deref_mut` of the write guard of thread `i`.
    assign :
        (i : ℕ) (t : T) → i < n → z.sync.threads i ≡ writer → Step n z (record z { content = t })
    -- An assignment through `get_mut`, whose `&mut self` leaves no thread with the lock.
    assign_owned :
        (t : T) → ((i : ℕ) → i < n → z.sync.threads i ≡ idle) → Step n z (record z { content = t })

  pub data Reach (n : ℕ) (t : T) : ZLock m T → Type 0 where
    start : Reach n t (new t)
    later : {y z : ZLock m T} → Reach n t y → Step n y z → Reach n t z

  -- Steps during which thread `j` keeps a guard; `seen` is what the data were at the start, or what
  -- the thread itself has last assigned.
  pub data Session (n j : ℕ) (y : ZLock m T) : T → ZLock m T → Type 0 where
    begin : HasGuard y j → Session n j y (deref y) y
    operate :
        {seen : T} {x : ZLock m T} {s : System.System m}
        → Session n j y seen x
        → System.Step m n x.sync s
        → HasGuard (record x { sync = s }) j
        → Session n j y seen (record x { sync = s })
    assign_other :
        {seen : T} {x : ZLock m T} (i : ℕ) (t : T)
        → Session n j y seen x
        → i ≢ j
        → i < n
        → x.sync.threads i ≡ writer
        → Session n j y seen (record x { content = t })
    assign_owned :
        {seen : T} {x : ZLock m T} (t : T)
        → Session n j y seen x
        → ((i : ℕ) → i < n → x.sync.threads i ≡ idle)
        → Session n j y seen (record x { content = t })
    own :
        {seen : T} {x : ZLock m T} (t : T)
        → Session n j y seen x
        → x.sync.threads j ≡ writer
        → Session n j y t (record x { content = t })
