-- ===== src/Completable.antt =====
-- anode/src/completable.rs: a value that is set once. The closures given to `enter`, and calls of
-- the operations by any number of threads, over the specification of `enter`
-- (Monitor/Refinement). The closure that `complete_exclusive` takes is given by its result, `none`
-- if it panics.
pub mod Single
pub mod Calls
use libmutex.Prelude.{
  ℕ, ◌<◌, ◌≡◌, Bool, true, false, not, Option, none, some, place, if◌then◌else◌, ◌>>=◌,
}
use libmutex.Deadline.{Deadline, lazy_after}
use libmutex.Monitor.{Directive, return, notify_all, Turn, may_repeat, may_finish, or_wait}

abbrev pub is_some : {A : Type 0} → Option A → Bool
is_some none = false
is_some (some _) = true

abbrev pub is_none : {A : Type 0} → Option A → Bool
is_none o = not (is_some o)

pub data Outcome (T : Type 0) : Type 0 where
  abort : Outcome T
  success : T → Outcome T

-- `Outcome::is_abort`, `Outcome::is_success` and `Outcome::default`
abbrev is_abort : {T : Type 0} → Outcome T → Bool
is_abort abort = true
is_abort (success _) = false

abbrev is_success : {T : Type 0} → Outcome T → Bool
is_success abort = false
is_success (success _) = true

abbrev default : {T : Type 0} → Outcome T
default = abort

-- `Outcome::into_option`
unfoldable pub into_option : {T : Type 0} → Outcome T → Option T
into_option abort = none
into_option (success val) = some val

-- The captured variables of each closure. `val` is what the call was made with; it is no variable
-- of the closure, which has `returned`, or `f`. For `complete_exclusive` it is what `f` returns.
pub data Local (T : Type 0) : Type 0 where
  completing : (val : T) (returned : Option T) → Local T
  completing_exclusive : (val : Option T) (f : Option (Option T)) → Local T
  getting : (deadline : Deadline) → Local T

pub data Request (T : Type 0) : Type 0 where
  complete : T → Request T
  complete_exclusive : Option T → Request T
  -- `get`, or `try_get` with a duration that is not zero.
  try_get : ℕ → Request T

unfoldable pub begin : {T : Type 0} → Request T → Local T
begin (complete val) = completing val (some val)
begin (complete_exclusive val) = completing_exclusive val (some val)
begin (try_get duration) = getting (lazy_after duration)

-- The closure of `complete`; `returned.take()` leaves none.
unfoldable pub complete_turn : {T : Type 0} → T → Option T → Option T → Turn (Local T) (Option T)
complete_turn val returned inner =
    let taken = is_none inner in
    let returned' = if taken then none else returned in
    record {
      locals = completing val returned';
      state = if taken then returned else inner;
      directive = if is_none returned' then notify_all else return;
    }

-- The closure of `complete_exclusive`; `f.take().unwrap()` panics if `f` has been taken, and the
-- call of `f` if `f` does.
pub exclusive_turn :
    {T : Type 0} → Option T → Option (Option T) → Option T → Option (Turn (Local T) (Option T))
exclusive_turn val f none = do
  called ← f
  made ← called
  some
      (record { locals = completing_exclusive val none; state = some made; directive = notify_all })
exclusive_turn val f (some existing) = some (record {
  locals = completing_exclusive val f;
  state = some existing;
  directive = if is_none f then notify_all else return;
})

-- The closure of `__try_get`.
pub get_turn : {T : Type 0} → ℕ → ℕ → Deadline → Option T → Option (Turn (Local T) (Option T))
get_turn t u deadline state = do
  (deadline', reply) ← or_wait t u deadline (is_some state) return
  some (record { locals = getting deadline'; state = state; directive = reply })

unfoldable pub eval : {T : Type 0} → ℕ → ℕ → Local T → Option T → Option (Turn (Local T) (Option T))
unfolding complete_turn exclusive_turn get_turn
eval t u (completing val returned) s = some (complete_turn val returned s)
eval t u (completing_exclusive val f) s = exclusive_turn val f s
eval t u (getting deadline) s = get_turn t u deadline s

-- A call of an operation. After `enter` it returns `returned`, or whether `f` was taken; a `get`
-- then locks the monitor and reads. A panic of its closure unwinds it: the state is as before.
pub data Call (T : Type 0) : Type 0 where
  entering : Local T → Call T
  evaluated : Local T → Directive → Call T
  returned : Local T → Call T
  unwound : Local T → Call T

pub record System (T : Type 0) : Type 0 where
  pub state : Option T
  pub calls : ℕ → Call T

module _ {T : Type 0} where
  -- One step of one call: what the specification of `enter` allows.
  pub data Move (s : Option T) : Call T → Option T → Call T → Type 0 where
    first :
        (t u : ℕ) {l : Local T} {r : Turn (Local T) (Option T)}
        → eval t u l s ≡ some r
        → Move s (entering l) r.state (evaluated r.locals r.directive)
    repeat :
        (t u : ℕ) {l : Local T} {d : Directive} {r : Turn (Local T) (Option T)}
        → may_repeat d ≡ true
        → eval t u l s ≡ some r
        → Move s (evaluated l d) r.state (evaluated r.locals r.directive)
    panic : (t u : ℕ) {l : Local T} → eval t u l s ≡ none → Move s (entering l) s (unwound l)
    panic_again :
        (t u : ℕ) {l : Local T} {d : Directive}
        → may_repeat d ≡ true
        → eval t u l s ≡ none
        → Move s (evaluated l d) s (unwound l)
    finish :
        {l : Local T} {d : Directive} → may_finish d ≡ true → Move s (evaluated l d) s (returned l)

  pub data Step (n : ℕ) (z : System T) : System T → Type 0 where
    pick :
        (i : ℕ) {s : Option T} {p : Call T}
        → i < n
        → Move z.state (z.calls i) s p
        → Step n z (record { state = s; calls = place i p z.calls })

  -- `Completable::default`, or `Completable::new` with a value, with all calls to come.
  unfoldable pub init : Option T → (ℕ → Request T) → System T
  init inner requests = record { state = inner; calls = λ i. entering (begin (requests i)) }

  pub data Reach (n : ℕ) (inner : Option T) (requests : ℕ → Request T) : System T → Type 0 where
    start : Reach n inner requests (init inner requests)
    later : {y z : System T} → Reach n inner requests y → Step n y z → Reach n inner requests z
