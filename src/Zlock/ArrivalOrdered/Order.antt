-- ===== src/Zlock/ArrivalOrdered/Order.antt =====
-- anode/src/zlock/arrival_ordered.rs: while no operation times out, the lock is granted in the order
-- in which the tickets are taken.
use libmutex.Prelude.{
  ℕ, ◌+◌, ◌<◌, ◌≤◌, ◌≡◌, refl, arith, Bool, true, false, not, ◌&&◌, some, ltb, ◌==◌, ◌⊎◌, inl, inr,
}
use libmutex.Monitor.{Turn}
use libmutex.Zlock.Moderator.{flag}
use libmutex.Zlock.System.{
  Status, entering, evaluated, source, outcome, System, Step, Reach, start, later, init,
}
use libmutex.Zlock.Moderator.{Kind, again, done}
use libmutex.Zlock.ArrivalOrdered.{
  State, Local, reading, read_skipping, read_unlocking, writing, write_skipping, write_unlocking,
  downgrading, upgrading, eval, begin, exit, ready, arrival_ordered,
}

-- A time-out has happened.
abbrev pub is_skipping : Local → Bool
is_skipping (read_skipping _) = true
is_skipping (write_skipping _) = true
is_skipping _ = false

abbrev pub has_timed_out : Status Local → Bool
has_timed_out (entering l) = is_skipping l
has_timed_out (evaluated l _) = is_skipping l
has_timed_out _ = false

-- The ticket that an operation has, 0 being none.
abbrev pub ticket_of : Local → ℕ
ticket_of (reading _ _ ticket) = ticket
ticket_of (writing _ _ ticket) = ticket
ticket_of _ = 0

-- The operation waits for its turn.
abbrev pub is_waiting : Local → Bool
is_waiting (reading _ acquired _) = not acquired
is_waiting (writing _ acquired _) = not acquired
is_waiting _ = false

-- The operation waits with this ticket.
abbrev pub waits_with : ℕ → Local → Bool
waits_with k l = is_waiting l && ticket_of l == k

abbrev pub holders : ℕ → Status Local → ℕ
holders k (entering l) = flag (waits_with k l)
holders k (evaluated l _) = flag (waits_with k l)
holders k _ = 0

-- What an evaluation does to an operation that waits or does not, `w`, with ticket `k`, and to the
-- counts of tickets serviced and of the next ticket: nothing; a ticket is taken, and the operation
-- waits; its turn has come, with the ticket that it had, or with a ticket taken just now.
abbrev pub Ticketing : Bool → ℕ → ℕ → ℕ → Bool → ℕ → ℕ → ℕ → Type 0
Ticketing w k s n w' k' s' n' =
    ((w ≡ false) × (w' ≡ false) × (s' ≡ s) × (n' ≡ n))
    ⊎ ((w ≡ true) × (0 < k) × (w' ≡ true) × (k' ≡ k) × (s' ≡ s) × (n' ≡ n))
    ⊎ ((w ≡ true) × (k ≡ 0) × (w' ≡ true) × (k' ≡ n) × (s' ≡ s) × (n' ≡ n + 1))
    ⊎ ((w ≡ true) × (0 < k) × (w' ≡ false) × (k' ≡ k) × (s' ≡ s + 1) × (n' ≡ n) × (k ≤ s + 1))
    ⊎ ((w ≡ true) × (k ≡ 0) × (w' ≡ false) × (k' ≡ n) × (s' ≡ s + 1) × (n' ≡ n + 1) × (n ≤ s + 1))

pub eval-Ticketing :
    (t u : ℕ) (l : Local) (s : State) (r : Turn Local State)
    → ready l ≡ true
    → is_skipping l ≡ false
    → eval t u l s ≡ some r
    → Ticketing
        (is_waiting l)
        (ticket_of l)
        s.serviced_tickets
        s.next_ticket
        (is_waiting r.locals)
        (ticket_of r.locals)
        r.state.serviced_tickets
        r.state.next_ticket
unfolding eval
eval-Ticketing t u (reading d acq ticket) s r rd q e = ground arith
eval-Ticketing t u (read_skipping inc) s r rd q e = absurd cc
eval-Ticketing t u (read_unlocking rel) s r rd q e = ground arith
eval-Ticketing t u (writing d acq ticket) s r rd q e = ground arith
eval-Ticketing t u (write_skipping inc) s r rd q e = absurd cc
eval-Ticketing t u (write_unlocking rel) s r rd q e = ground arith
eval-Ticketing t u (downgrading rel) s r rd q e = ground arith
eval-Ticketing t u (upgrading d acq) s r rd q e = ground arith

-- A ticket has been handed out and not serviced.
abbrev pub open_between : ℕ → ℕ → ℕ → ℕ
open_between s n k = flag (ltb s k && ltb k n)

-- With `a k` other threads that wait with ticket `k`, each open ticket is held by one thread.
Ticketing-open :
    (w : Bool) (k s n : ℕ) (w' : Bool) (k' s' n' : ℕ) (a : ℕ → ℕ)
    → Ticketing w k s n w' k' s' n'
    → s < n
    → ((j : ℕ) → 0 < j → a j + flag (w && k == j) ≡ open_between s n j)
    → (j : ℕ) → 0 < j
    → (a j + flag (w' && k' == j) ≡ open_between s' n' j) × (s' < n')
Ticketing-open w k s n w' k' s' n' a (inl c) lt h j p = ground (arith, h j)
Ticketing-open w k s n w' k' s' n' a (inr (inl c)) lt h j p = ground (arith, h j)
Ticketing-open w k s n w' k' s' n' a (inr (inr (inl c))) lt h j p = ground (arith, h j)
Ticketing-open w k s n w' k' s' n' a (inr (inr (inr (inl c)))) lt h j p = ground (arith, h j, h k)
Ticketing-open w k s n w' k' s' n' a (inr (inr (inr (inr c)))) lt h j p = ground (arith, h j)

-- States that threads reach while no operation times out.
pub data PunctualReach (n : ℕ) : System arrival_ordered → Type 0 where
  at_start : PunctualReach n (init arrival_ordered)
  and_then :
      {y z : System arrival_ordered}
      → PunctualReach n y
      → Step arrival_ordered n y z
      → ((i : ℕ) → has_timed_out (z.threads i) ≡ false)
      → PunctualReach n z

pub PunctualReach-Reach :
    {n : ℕ} {z : System arrival_ordered} → PunctualReach n z → Reach arrival_ordered n z
PunctualReach-Reach at_start = start
PunctualReach-Reach (and_then r st _) = later (PunctualReach-Reach r) st

pub PunctualReach-has_timed_out :
    {n : ℕ} {z : System arrival_ordered}
    → PunctualReach n z
    → (i : ℕ) → has_timed_out (z.threads i) ≡ false
unfolding init
PunctualReach-has_timed_out at_start i = refl
PunctualReach-has_timed_out (and_then _ _ h) i = h i

-- What a step of one thread keeps, `a k` being the number of others that wait with ticket `k`.
pub record Open (s : State) (p : Status Local) (a : ℕ → ℕ) : Type 0 where
  pub behind : s.serviced_tickets < s.next_ticket
  pub held : (k : ℕ) → 0 < k → a k + holders k p ≡ open_between s.serviced_tickets s.next_ticket k

pub eval-Open :
    (t u : ℕ) (l : Local) (s : State) (r : Turn Local State) (a : ℕ → ℕ)
    → ready l ≡ true
    → is_skipping l ≡ false
    → eval t u l s ≡ some r
    → Open s (entering l) a
    → Open r.state (evaluated r.locals r.directive) a
eval-Open t u l s r a rd q e h =
    let step =
      Ticketing-open (is_waiting l) (ticket_of l) s.serviced_tickets s.next_ticket
        (is_waiting r.locals) (ticket_of r.locals) r.state.serviced_tickets r.state.next_ticket a
        (eval-Ticketing t u l s r rd q e) h.behind h.held in
    record { behind = (step 1 (omega arith)).1; held = λ k p. (step k p).0 }

pub source-holders : (k : Kind) (j : ℕ) → holders j (source k) ≡ 0
source-holders Kind.try_read j = refl
source-holders Kind.read_unlock j = refl
source-holders Kind.try_write j = refl
source-holders Kind.write_unlock j = refl
source-holders Kind.downgrade j = refl
source-holders Kind.try_upgrade j = refl

pub begin-holders : (k : Kind) (d j : ℕ) → 0 < j → holders j (entering (begin k d)) ≡ 0
unfolding begin
begin-holders Kind.try_read d j h = ground arith
begin-holders Kind.read_unlock d j h = refl
begin-holders Kind.try_write d j h = ground arith
begin-holders Kind.write_unlock d j h = refl
begin-holders Kind.downgrade d j h = refl
begin-holders Kind.try_upgrade d j h = refl

pub outcome-holders : (k : Kind) (b : Bool) (j : ℕ) → holders j (outcome k b) ≡ 0
outcome-holders Kind.try_read true j = refl
outcome-holders Kind.try_read false j = refl
outcome-holders Kind.read_unlock b j = refl
outcome-holders Kind.try_write true j = refl
outcome-holders Kind.try_write false j = refl
outcome-holders Kind.write_unlock b j = refl
outcome-holders Kind.downgrade b j = refl
outcome-holders Kind.try_upgrade true j = refl
outcome-holders Kind.try_upgrade false j = refl

-- An operation that returns does not wait.
pub done-holders : (l : Local) (b : Bool) (j : ℕ) → exit l ≡ done b → flag (waits_with j l) ≡ 0
unfolding exit
done-holders (reading d acq ticket) b j e = ground arith
done-holders (writing d acq ticket) b j e = ground arith
done-holders (read_skipping _) b j e = refl
done-holders (read_unlocking _) b j e = refl
done-holders (write_skipping _) b j e = refl
done-holders (write_unlocking _) b j e = refl
done-holders (downgrading _) b j e = refl
done-holders (upgrading _ _) b j e = refl

-- A further call of `enter` is a time-out.
pub again-skips : (l l' : Local) → exit l ≡ again l' → is_skipping l' ≡ true
unfolding exit
again-skips (reading d acq ticket) l' e = ground arith
again-skips (writing d acq ticket) l' e = ground arith
again-skips (read_skipping _) l' e = absurd cc
again-skips (read_unlocking _) l' e = absurd cc
again-skips (write_skipping _) l' e = absurd cc
again-skips (write_unlocking _) l' e = absurd cc
again-skips (downgrading _) l' e = absurd cc
again-skips (upgrading _ _) l' e = absurd cc
