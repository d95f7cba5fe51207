-- ===== src/Executor.antt =====
-- anode/src/executor.rs: a thread pool. Tasks are numbered in the order of their submission;
-- `f k` is what the closure of task `k` returns, `none` if it panics. The channel is a queue that is
-- connected while a sender is left; with a bound of 0 the standard library hands tasks over to a
-- worker that is in `recv`.
pub mod Tasks
pub mod Outcomes
use libmutex.Prelude.{
  ℕ, zero, suc, ◌+◌, ◌<◌, ◌≡◌, Bool, true, false, Option, none, some, List, [], ◌∷◌, ◌++◌, ltb,
  length, place, if◌then◌else◌,
}
use libmutex.Completable.{Outcome, abort, success, complete_turn}

pub data Queue : Type 0 where
  unbounded : Queue
  bounded : ℕ → Queue

-- Does `try_send` put a task in?
unfoldable pub has_room : Queue → List ℕ → Bool
has_room unbounded tasks = true
has_room (bounded bound) tasks = ltb (length tasks) bound

-- What a worker thread is doing.
pub data Worker (G : Type 0) : Type 0 where
  -- About to lock the receiver.
  waiting : Worker G
  -- In `recv`, with the lock.
  receiving : Worker G
  -- With the lock and what `recv` has returned.
  received : Option ℕ → Worker G
  -- With a task, about to load `running`.
  fetched : ℕ → Worker G
  -- With what it has loaded.
  executing : ℕ → Bool → Worker G
  -- About to complete the task with its outcome.
  completing : ℕ → Outcome G → Worker G
  -- Has returned.
  ended : Worker G
  -- Unwound by the panic of a task.
  died : ℕ → Worker G

-- What the threads share: the flag, the channel, the lock of its receiver, and the `Completable`
-- of each task, which `complete` sets (Completable). `discarded` is no variable of the code: the
-- tasks that the channel has dropped with its receiver.
pub record Pool (G : Type 0) : Type 0 where
  pub running : Bool
  pub connected : Bool
  pub tasks : List ℕ
  pub discarded : List ℕ
  pub receiver_locked : Bool
  pub submitted : ℕ
  pub outcomes : ℕ → Option (Outcome G)

-- `comp.complete(outcome)`, given the state of the `Completable`.
abbrev pub completed : {G : Type 0} → Outcome G → Option (Outcome G) → Option (Outcome G)
completed outcome state = (complete_turn outcome (some outcome) state).state

-- Has the worker dropped the receiver for good?
abbrev pub is_gone : {G : Type 0} → Worker G → Bool
is_gone ended = true
is_gone (died _) = true
is_gone _ = false

module _ {G : Type 0} (f : ℕ → Option G) where
  -- One step of one worker.
  pub data Move (p : Pool G) : Worker G → Pool G → Worker G → Type 0 where
    lock :
        p.receiver_locked ≡ false → Move p waiting (record p { receiver_locked = true }) receiving
    recv :
        {k : ℕ} {rest : List ℕ}
        → p.tasks ≡ k ∷ rest
        → Move p receiving (record p { tasks = rest }) (received (some k))
    disconnected : p.tasks ≡ [] → p.connected ≡ false → Move p receiving p (received none)
    take : {k : ℕ} → Move p (received (some k)) (record p { receiver_locked = false }) (fetched k)
    end : Move p (received none) (record p { receiver_locked = false }) ended
    load : {k : ℕ} → Move p (fetched k) p (executing k p.running)
    give_up : {k : ℕ} → Move p (executing k false) p (completing k abort)
    succeed :
        {k : ℕ} {g : G} → f k ≡ some g → Move p (executing k true) p (completing k (success g))
    -- The worker unwinds; its part in the receiver goes with it (`drop_receiver`).
    panic : {k : ℕ} → f k ≡ none → Move p (executing k true) p (died k)
    complete :
        {k : ℕ} {outcome : Outcome G}
        → Move p
            (completing k outcome)
            (record p { outcomes = place k (completed outcome (p.outcomes k)) p.outcomes })
            waiting

  pub record System : Type 0 where
    pub pool : Pool G
    pub workers : ℕ → Worker G

  -- A step of a pool with `n` workers. A `try_submit` that finds no room, or no
  -- worker to hand its task to, leaves all as it is.
  pub data Step (queue : Queue) (n : ℕ) (z : System) : System → Type 0 where
    -- Worker `i` is there to keep the receiver: a send to no receiver panics.
    submit :
        (i : ℕ)
        → i < n
        → is_gone (z.workers i) ≡ false
        → z.pool.connected ≡ true
        → has_room queue z.pool.tasks ≡ true
        → Step queue n z (record z {
          pool = record z.pool {
            tasks = z.pool.tasks ++ (z.pool.submitted ∷ []);
            submitted = 1 + z.pool.submitted;
          };
        })
    -- A send over a channel that keeps no task.
    hand_over :
        (i : ℕ)
        → i < n
        → queue ≡ bounded 0
        → z.workers i ≡ receiving
        → z.pool.connected ≡ true
        → Step queue n z (record {
          pool = record z.pool { submitted = 1 + z.pool.submitted };
          workers = place i (received (some z.pool.submitted)) z.workers;
        })
    -- The drop of the pool: first the flag, then, with the last submitter, the channel.
    stop : Step queue n z (record z { pool = record z.pool { running = false } })
    disconnect : Step queue n z (record z { pool = record z.pool { connected = false } })
    -- Every worker has returned or been unwound: the last of them has dropped the receiver, and with
    -- it what is in the queue.
    drop_receiver :
        ((i : ℕ) → i < n → is_gone (z.workers i) ≡ true)
        → Step queue n z (record z {
          pool = record z.pool { tasks = []; discarded = z.pool.tasks ++ z.pool.discarded };
        })
    work :
        (i : ℕ) {p : Pool G} {w : Worker G}
        → i < n
        → Move z.pool (z.workers i) p w
        → Step queue n z (record { pool = p; workers = place i w z.workers })

  -- `ThreadPool::new`
  unfoldable pub init : System
  init = record {
    pool = record {
      running = true;
      connected = true;
      tasks = [];
      discarded = [];
      receiver_locked = false;
      submitted = 0;
      outcomes = λ _. none;
    };
    workers = λ _. waiting;
  }

  pub data Reach (queue : Queue) (n : ℕ) : System → Type 0 where
    start : Reach queue n init
    later : {y z : System} → Reach queue n y → Step queue n y z → Reach queue n z
