-- ===== src/Zlock/Exclusion.antt =====
-- anode/src/zlock.rs with each of its moderators: readers and writers exclude one another, no
-- assertion of a moderator fails, and no `unwrap` of the lock does, for any number of threads and
-- any schedule.
use libmutex.Prelude.{ℕ, ◌+◌, ◌<◌, ◌≤◌, ◌^◌, ◌≡◌, ◌≢◌, arith, true, false, none, total-le}
use libmutex.Time.{duration_max}
use libmutex.Zlock.Moderator.{Kind, is_try}
use libmutex.Zlock.System.{
  Status, outcome, idle, reader, writer, entering, evaluated, System, Reach,
}
use libmutex.Zlock.System.Invariant.{queued, Reach-Inv}
use libmutex.Zlock.System.Safety.{Evaluating, writer_excludes, readers-le, no_panic}
use libmutex.Zlock.Attempt.{Attempt, is_running, endless_granted}
use libmutex.Zlock.Implementation.{Implementation, moderator, moderator-Laws, moderator-Patience}
use libmutex.Zlock.Stochastic.{stochastic, Local as StochasticLocal}
use libmutex.Zlock.Stochastic.Laws.{stochastic-Laws, place_in_queue-le}

queued-le : (cutoff : ℕ → ℕ) (p : Status StochasticLocal) → queued (stochastic cutoff) p ≤ 1
queued-le cutoff idle = omega arith
queued-le cutoff reader = omega arith
queued-le cutoff writer = omega arith
queued-le cutoff (entering l) = place_in_queue-le l
queued-le cutoff (evaluated l d) = place_in_queue-le l

queue-le :
    (cutoff : ℕ → ℕ) {n : ℕ} {z : System (stochastic cutoff)}
    → Reach (stochastic cutoff) n z
    → z.state.queued ≤ n
queue-le cutoff {n} {z} reach = omega (
  arith,
  (Reach-Inv (stochastic cutoff) (stochastic-Laws cutoff) reach).tally,
  total-le (queued (stochastic cutoff)) n z.threads (λ i. queued-le cutoff (z.threads i)),
)

-- The ticket counter, where there is one, has not run out.
abbrev pub HasTickets : (cutoff : ℕ → ℕ) (k : Implementation) → (moderator cutoff k).State → Type 0
HasTickets cutoff Implementation.arrival_ordered s = s.next_ticket + 1 < 2 ^ 64
HasTickets cutoff Implementation.legacy_arrival_ordered s = s.next_ticket + 1 < 2 ^ 64
HasTickets cutoff _ s = Unit

has_room :
    (cutoff : ℕ → ℕ) (k : Implementation) {n : ℕ} {z : System (moderator cutoff k)}
    → Reach (moderator cutoff k) n z
    → n + 1 < 2 ^ 32
    → HasTickets cutoff k z.state
    → (moderator cutoff k).Room z.state
has_room cutoff Implementation.read_biased reach small tickets = omega (
  arith,
  readers-le (moderator cutoff Implementation.read_biased)
      (moderator-Laws cutoff Implementation.read_biased) reach,
)
has_room cutoff Implementation.write_biased reach small tickets = omega (
  arith,
  readers-le (moderator cutoff Implementation.write_biased)
      (moderator-Laws cutoff Implementation.write_biased) reach,
)
has_room cutoff Implementation.arrival_ordered reach small tickets = omega (
  arith,
  readers-le (moderator cutoff Implementation.arrival_ordered)
      (moderator-Laws cutoff Implementation.arrival_ordered) reach,
)
has_room cutoff Implementation.stochastic reach small tickets = omega (
  arith,
  readers-le (moderator cutoff Implementation.stochastic)
      (moderator-Laws cutoff Implementation.stochastic) reach,
  queue-le cutoff reach,
)
has_room cutoff Implementation.legacy_read_biased reach small tickets = omega (
  arith,
  readers-le (moderator cutoff Implementation.legacy_read_biased)
      (moderator-Laws cutoff Implementation.legacy_read_biased) reach,
)
has_room cutoff Implementation.legacy_write_biased reach small tickets = omega (
  arith,
  readers-le (moderator cutoff Implementation.legacy_write_biased)
      (moderator-Laws cutoff Implementation.legacy_write_biased) reach,
)
has_room cutoff Implementation.legacy_arrival_ordered reach small tickets = omega (
  arith,
  readers-le (moderator cutoff Implementation.legacy_arrival_ordered)
      (moderator-Laws cutoff Implementation.legacy_arrival_ordered) reach,
)

-- Under each of the seven moderators, in every state that threads can reach from a new lock, while
-- one thread holds a write guard no other thread holds a write guard or a read guard.
pub exclusion :
    (cutoff : ℕ → ℕ) (k : Implementation) {n : ℕ} {z : System (moderator cutoff k)}
    → Reach (moderator cutoff k) n z
    → (i j : ℕ) → i < n
    → j < n
    → i ≢ j
    → z.threads i ≡ writer
    → (z.threads j ≢ writer) × (z.threads j ≢ reader)
exclusion cutoff k reach i j =
    writer_excludes (moderator cutoff k) (moderator-Laws cutoff k) reach i j

-- Under each of the seven moderators, with fewer than `2 ^ 32 - 1` threads, and as long as the next
-- ticket number of an arrival-ordered one is below `2 ^ 64 - 1`, a closure or critical section that
-- a thread may evaluate in a reachable state fails no assertion and overflows no counter.
pub never_panics :
    (cutoff : ℕ → ℕ) (k : Implementation) {n : ℕ} {z : System (moderator cutoff k)}
    → Reach (moderator cutoff k) n z
    → n + 1 < 2 ^ 32
    → HasTickets cutoff k z.state
    → (t u i : ℕ) {l : (moderator cutoff k).Local} → i < n
    → Evaluating l (z.threads i)
    → (moderator cutoff k).eval t u l z.state ≢ none
never_panics cutoff k reach small tickets t u i lt e =
    no_panic (moderator cutoff k) (moderator-Laws cutoff k) reach t u i lt e
      (has_room cutoff k reach small tickets)

-- `read`, `write` and `upgrade` never panic: with each of the seven moderators an operation that may
-- fail, begun with `Duration::MAX`, has its guard to return when it ends, whatever other threads do.
pub unwrap_safe :
    (cutoff : ℕ → ℕ) (k : Implementation) (op : Kind) {p : Status (moderator cutoff k).Local}
    → is_try op ≡ true
    → Attempt (moderator cutoff k) op duration_max p
    → is_running (moderator cutoff k) p ≡ false
    → p ≡ outcome op true
unwrap_safe cutoff k op =
    let (endless, laws) = moderator-Patience cutoff k in
    endless_granted (moderator cutoff k) endless laws op
