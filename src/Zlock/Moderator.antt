-- ===== src/Zlock/Moderator.antt =====
-- anode/src/zlock.rs: the `Moderator` trait as an interface. An operation is a chain of calls of
-- `enter`; `Local` holds the variables captured by the closure of the call that is in progress.
-- `Laws` is what the lock needs of a moderator.
use libmutex.Prelude.{ℕ, ◌+◌, ◌<◌, ◌≡◌, ◌≢◌, ◌⊎◌, Bool, true, false, Option, none, some}
use libmutex.Monitor.{Turn, may_repeat}

-- The operations of the trait, but for `new`.
pub data Kind : Type 0 where
  try_read read_unlock try_write write_unlock downgrade try_upgrade : Kind

-- What follows when `enter` returns: another call of it, or the operation's result.
pub data Exit (L : Type 0) : Type 0 where
  again : L → Exit L
  done : Bool → Exit L

pub record Moderator : Type 1 where
  pub State : Type 0
  pub Local : Type 0
  pub new : State
  -- The start of an operation, with its `duration` where it has one.
  pub begin : Kind → ℕ → Local
  -- One evaluation of the closure, with two readings of the clock; `none` is a panic.
  pub eval : ℕ → ℕ → Local → State → Option (Turn Local State)
  pub exit : Local → Exit Local
  -- The fields `readers` and `writer` of the state.
  pub readers : State → ℕ
  pub writer : State → Bool
  -- The operation in progress, and whether it has had its effect: `acquired` or `released`.
  pub kind : Local → Kind
  pub granted : Local → Bool
  -- What the operation in progress still has to settle in the state's other fields.
  pub debt : Local → ℕ
  pub place_in_queue : Local → ℕ
  -- May the closure be evaluated; has it been, so that `enter` may return?
  pub ready : Local → Bool
  pub settled : Local → Bool
  -- What the other fields say, given the sums of `debt` and `place_in_queue` over all threads.
  pub Tally : State → ℕ → ℕ → Type 0
  -- No counter is about to overflow.
  pub Room : State → Type 0

abbrev pub flag : Bool → ℕ
flag true = 1
flag false = 0

-- What an operation does to the reader count and the writer flag of a lock: the specification.
abbrev pub Grant : Kind → ℕ → Bool → ℕ → Bool → Type 0
Grant try_read r w r' w' = (w ≡ false) × (r' ≡ r + 1) × (w' ≡ false)
Grant read_unlock r w r' w' = (r ≡ r' + 1) × (w' ≡ w)
Grant try_write r w r' w' = (r ≡ 0) × (w ≡ false) × (r' ≡ 0) × (w' ≡ true)
Grant write_unlock r w r' w' = (r' ≡ r) × (w' ≡ false)
Grant downgrade r w r' w' = (r' ≡ 1) × (w' ≡ false)
Grant try_upgrade r w r' w' = (r ≡ 1) × (r' ≡ 0) × (w' ≡ true)

-- What the caller's guard says of the state before the operation has had its effect.
abbrev pub Held : Kind → Bool → ℕ → Bool → Type 0
Held read_unlock false r w = (0 < r) × (w ≡ false)
Held write_unlock false r w = (r ≡ 0) × (w ≡ true)
Held downgrade false r w = (r ≡ 0) × (w ≡ true)
Held try_upgrade false r w = (0 < r) × (w ≡ false)
Held _ _ r w = Unit

-- The operations that may fail.
abbrev pub is_try : Kind → Bool
is_try try_read = true
is_try try_write = true
is_try try_upgrade = true
is_try _ = false

-- An evaluation changes the two fields exactly when it grants the operation, as `Grant` says.
abbrev pub Granting : Kind → Bool → Bool → ℕ → Bool → ℕ → Bool → Type 0
Granting k before now r w r' w' =
    ((now ≡ before) × (r' ≡ r) × (w' ≡ w)) ⊎ ((before ≡ false) × (now ≡ true) × Grant k r w r' w')

module _ (m : Moderator) where
  open m use {
    State, Local, new, begin, eval, exit, readers, writer, kind, granted, debt, place_in_queue,
    ready, settled, Tally, Room,
  }

  -- What one evaluation keeps, `a` and `b` being the sums over the other threads.
  pub record Evaluates (l : Local) (s : State) (t : Turn Local State) (a b : ℕ) : Type 0 where
    pub same : kind t.locals ≡ kind l
    pub granting :
        Granting
          (kind l)
          (granted l)
          (granted t.locals)
          (readers s)
          (writer s)
          (readers t.state)
          (writer t.state)
    pub tally : Tally t.state (a + debt t.locals) (b + place_in_queue t.locals)
    pub settles : settled t.locals ≡ true
    pub stays_ready : may_repeat t.directive ≡ true → ready t.locals ≡ true

  pub record Continues (l l' : Local) : Type 0 where
    pub same : kind l' ≡ kind l
    pub still : granted l' ≡ granted l
    pub owes : debt l' ≡ debt l
    pub queues : place_in_queue l' ≡ place_in_queue l
    pub starts_ready : ready l' ≡ true

  pub record Finishes (l : Local) (b : Bool) : Type 0 where
    pub paid : debt l ≡ 0
    pub left : place_in_queue l ≡ 0
    pub result : is_try (kind l) ≡ true → b ≡ granted l
    pub effect : is_try (kind l) ≡ false → granted l ≡ true

  pub record Begins (k : Kind) (l : Local) : Type 0 where
    pub same : kind l ≡ k
    pub fresh : granted l ≡ false
    pub free : debt l ≡ 0
    pub unqueued : place_in_queue l ≡ 0
    pub starts_ready : ready l ≡ true

  pub record Laws : Type 0 where
    pub new-readers : readers new ≡ 0
    pub new-writer : writer new ≡ false
    pub new-Tally : Tally new 0 0
    pub begin_lem : (k : Kind) (d : ℕ) → Begins k (begin k d)
    pub eval_lem :
        (t u : ℕ) (l : Local) (s : State) (a b : ℕ) (r : Turn Local State)
        → ready l ≡ true
        → Tally s (a + debt l) (b + place_in_queue l)
        → eval t u l s ≡ some r
        → Evaluates l s r a b
    pub eval_ne_none :
        (t u : ℕ) (l : Local) (s : State) (a b : ℕ)
        → ready l ≡ true
        → Tally s (a + debt l) (b + place_in_queue l)
        → Held (kind l) (granted l) (readers s) (writer s)
        → Room s
        → eval t u l s ≢ none
    pub again_lem : (l l' : Local) → settled l ≡ true → exit l ≡ again l' → Continues l l'
    pub done_lem : (l : Local) (b : Bool) → settled l ≡ true → exit l ≡ done b → Finishes l b
