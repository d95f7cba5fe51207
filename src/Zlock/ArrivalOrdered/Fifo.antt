-- ===== src/Zlock/ArrivalOrdered/Fifo.antt =====
-- anode/src/zlock/arrival_ordered.rs: while no operation times out, the lock is granted first come,
-- first served.
use libmutex.Prelude.{
  ℕ, ◌<◌, ◌≡◌, ◌≢◌, refl, arith, Bool, true, false, some, total, weight-le-total, weights-le-total,
  total-zero, inl, inr, place_self,
}
use libmutex.Monitor.{Turn}
use libmutex.Zlock.Moderator.{flag}
use libmutex.Zlock.System.{
  Status, idle, Move, call, first, repeat, continue, finish, System, pick, init,
}
use libmutex.Zlock.System.Invariant.{Reach-Inv, rest, rest-add, rest-place, IsSound}
use libmutex.Zlock.System.Safety.{Evaluating, at_first, at_repeat}
use libmutex.Zlock.ArrivalOrdered.{State, Local, eval, kind, ready, arrival_ordered, new}
use libmutex.Zlock.ArrivalOrdered.Laws.{arrival_ordered-Laws}
use libmutex.Zlock.ArrivalOrdered.Order.{
  is_skipping, has_timed_out, ticket_of, is_waiting, waits_with, holders, open_between, Ticketing,
  eval-Ticketing, PunctualReach, at_start, and_then, PunctualReach-Reach,
  PunctualReach-has_timed_out, Open, eval-Open, source-holders, begin-holders, outcome-holders,
  done-holders, again-skips,
}

Move-Open :
    {s s' : State} {p p' : Status Local} (a : ℕ → ℕ)
    → Move arrival_ordered s p s' p'
    → IsSound arrival_ordered p
    → has_timed_out p ≡ false
    → has_timed_out p' ≡ false
    → Open s p a
    → Open s' p' a
Move-Open a (call k d) sound q q' h = record {
  behind = h.behind;
  held = λ j p. rw (begin-holders k d j p) (rw (source-holders k j) at (h.held j p));
}
Move-Open {s} a (first t u {l} {r} e) sound q q' h = eval-Open t u l s r a sound q e h
Move-Open {s} a (repeat t u {l} {d} {r} may e) sound q q' h =
    eval-Open t u l s r a (sound.1 may) q e (record { behind = h.behind; held = h.held })
Move-Open a (continue {l} {l'} _ e) sound q q' h = absurd cc (again-skips l l' e)
Move-Open a (finish {l} {d} {b} _ e) sound q q' h = record {
  behind = h.behind;
  held = λ j p. rw (outcome-holders (kind l) b j) (rw (done-holders l b j e) at (h.held j p));
}

-- Each ticket that is open is held by one thread that waits.
record AllOpen (n : ℕ) (z : System arrival_ordered) : Type 0 where
  pub behind : z.state.serviced_tickets < z.state.next_ticket
  pub held :
      (k : ℕ)
      → 0 < k
      → total (holders k) n z.threads ≡ open_between z.state.serviced_tickets z.state.next_ticket k

-- The other threads that wait with a ticket.
abbrev others : ℕ → ℕ → (ℕ → Status Local) → ℕ → ℕ
others n i f k = rest arrival_ordered (holders k) n i f

isolate-Open :
    {n : ℕ} {z : System arrival_ordered}
    → AllOpen n z
    → (i : ℕ) → i < n
    → Open z.state (z.threads i) (others n i z.threads)
isolate-Open {n} {z} all i lt = record {
  behind = all.behind;
  held = λ k p. rw (rest-add arrival_ordered (holders k) n i z.threads lt) (all.held k p);
}

PunctualReach-AllOpen : {n : ℕ} {z : System arrival_ordered} → PunctualReach n z → AllOpen n z
unfolding init new
PunctualReach-AllOpen {n} at_start = record {
  behind = omega arith;
  held = λ k p. ground (arith, total-zero (holders k) n (λ _. idle) (λ _. refl));
}
PunctualReach-AllOpen {n} (and_then {y} r (pick i {s} {p} lt mv) none_late) =
    let f = y.threads in
    let sound = (Reach-Inv arrival_ordered arrival_ordered-Laws (PunctualReach-Reach r)).sound i in
    let punctual = rw (place_self i p f) at (none_late i) in
    let step =
      Move-Open (others n i f) mv sound (PunctualReach-has_timed_out r i) punctual
        (isolate-Open (PunctualReach-AllOpen r) i lt) in
    record {
      behind = step.behind;
      held = λ k q. rw (rest-place arrival_ordered (holders k) n i f p lt) at (step.held k q);
    }

Evaluating-holders :
    {l : Local} {p : Status Local}
    → Evaluating l p
    → IsSound arrival_ordered p
    → has_timed_out p ≡ false
    → ((k : ℕ) → holders k p ≡ flag (waits_with k l)) × (ready l ≡ true) × (is_skipping l ≡ false)
Evaluating-holders at_first sound q = (λ k. refl, sound, q)
Evaluating-holders (at_repeat may) sound q = (λ k. refl, sound.1 may, q)

Ticketing-lt :
    (w : Bool) (k s n : ℕ) (w' : Bool) (k' s' n' j : ℕ)
    → Ticketing w k s n w' k' s' n'
    → w ≡ true
    → w' ≡ false
    → s < j
    → j < n
    → (0 < k → k ≢ j)
    → k' < j
Ticketing-lt w k s n w' k' s' n' j (inl c) a b lo hi d = absurd cc
Ticketing-lt w k s n w' k' s' n' j (inr (inl c)) a b lo hi d = absurd cc
Ticketing-lt w k s n w' k' s' n' j (inr (inr (inl c))) a b lo hi d = absurd cc
Ticketing-lt w k s n w' k' s' n' j (inr (inr (inr (inl c)))) a b lo hi d = ground (arith, d c.1)
Ticketing-lt w k s n w' k' s' n' j (inr (inr (inr (inr c)))) a b lo hi d = omega arith

-- First come, first served: as long as no operation has timed out, an evaluation that grants the
-- lock to a waiting `try_read` or `try_write` is of the operation with the smallest ticket; every
-- other thread that waits with a ticket has taken it later.
pub first_served :
    {n : ℕ} {z : System arrival_ordered}
    → PunctualReach n z
    → (i j : ℕ) → i < n
    → j < n
    → i ≢ j
    → (t u : ℕ) {l : Local} {r : Turn Local State} → Evaluating l (z.threads i)
    → eval t u l z.state ≡ some r
    → is_waiting l ≡ true
    → is_waiting r.locals ≡ false
    → (k : ℕ) → 0 < k
    → holders k (z.threads j) ≡ 1
    → ticket_of r.locals < k
first_served {n} {z} reach i j lt_i lt_j ne t u {l} {r} ev e waits granted' k pos w =
    let s = z.state in
    let all = PunctualReach-AllOpen reach in
    let sound =
      (Reach-Inv arrival_ordered arrival_ordered-Laws (PunctualReach-Reach reach)).sound i in
    let (own, rd, q) = Evaluating-holders ev sound (PunctualReach-has_timed_out reach i) in
    let held = all.held k pos in
    let some_wait = weight-le-total (holders k) n j z.threads lt_j in
    let lo : s.serviced_tickets < k = ground arith in
    let hi : k < s.next_ticket = ground arith in
    let apart : ticket_of l ≢ k = λ same.
      ground
        (arith, own k, weights-le-total (holders k) n i j z.threads lt_i lt_j ne, same, waits) in
    Ticketing-lt (is_waiting l) (ticket_of l) s.serviced_tickets s.next_ticket (is_waiting r.locals)
      (ticket_of r.locals) r.state.serviced_tickets r.state.next_ticket k
      (eval-Ticketing t u l s r rd q e) waits granted' lo hi (λ _. apart)
