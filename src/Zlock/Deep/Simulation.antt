-- ===== src/Zlock/Deep/Simulation.antt =====
-- anode/src/zlock.rs over anode/src/monitor.rs: threads down to the accesses to the monitor's locks
-- implement the interleaving of atomic evaluations (Zlock/System).
use libmutex.Prelude.{
  ℕ, ◌<◌, ◌≡◌, ◌≢◌, refl, Bool, true, false, none, place, place_self, place_other, place-all,
  ℕ_discrete, ◌⊎◌, inl, inr, sym, ◌∙◌,
}
use libmutex.Monitor.{may_finish}
use libmutex.Monitor.Machine as Machine
use libmutex.Monitor.Machine.{Pc, outside, contending}
use libmutex.Monitor.Refinement.{View, away, entering, evaluated, view, Client, stay, Step-Client}
use libmutex.Monitor.Refinement
use libmutex.Zlock.Moderator.{Kind, Moderator}
use libmutex.Zlock.System.{Status, idle, reader, writer, source, outcome, Move, pick}
use libmutex.Zlock.System
use libmutex.Zlock.Deep.Calls.{deep-Reach, deep-free}
use libmutex.Zlock.Deep.{
  status_of, carry, Deep, entered, inside, call, continue, finish, deep_init, DeepReach, start,
  later, status,
}

module _ {L : Type 0} where
  -- Where `enter` has returned, the last directive allowed it.
  abbrev IsKept : Status L → Type 0
  IsKept (Status.evaluated l d) = may_finish d ≡ true
  IsKept _ = Unit

  carry_self : (v : View L) (r : Status L) → carry v v r ≡ r
  carry_self away r = refl
  carry_self (entering l) r = refl
  carry_self (evaluated l d) r = refl
  carry_self Refinement.locked r = refl

outcome-IsKept : (L : Type 0) (k : Kind) (b : Bool) → IsKept {L = L} (outcome k b)
outcome-IsKept L Kind.try_read true = tt
outcome-IsKept L Kind.try_read false = tt
outcome-IsKept L Kind.read_unlock b = tt
outcome-IsKept L Kind.try_write true = tt
outcome-IsKept L Kind.try_write false = tt
outcome-IsKept L Kind.write_unlock b = tt
outcome-IsKept L Kind.downgrade b = tt
outcome-IsKept L Kind.try_upgrade true = tt
outcome-IsKept L Kind.try_upgrade false = tt

module _ (m : Moderator) where
  open m use {State, Local, eval, exit}

  -- What the lock sees of a step of one thread.
  pub Seen : State → Status Local → State → Status Local → Type 0
  Seen s p s' p' = ((s' ≡ s) × (p' ≡ p)) ⊎ Move m s p s' p'

  Client-Seen :
      {s s' : State} {v v' : View Local} (r : Status Local)
      → Client eval s v s' v'
      → (v ≡ away → v' ≡ away)
      → v ≢ Refinement.locked
      → IsKept r
      → IsKept (carry v v' r) × Seen s (status_of v r) s' (status_of v' (carry v v' r))
  unfolding Seen
  Client-Seen r (stay {v = v}) h free k = rw (carry_self v r) (k, inl (refl, refl))
  Client-Seen r (Refinement.call l) h free k = absurd cc (h refl)
  Client-Seen r (Refinement.first t u e) h free k = (k, inr (Move.first t u e))
  Client-Seen r (Refinement.repeat t u may e) h free k = (k, inr (Move.repeat t u may e))
  Client-Seen r (Refinement.finish may) h free k = (may, inl (refl, refl))
  Client-Seen r Refinement.lock h free k = absurd cc (h refl)
  Client-Seen r Refinement.write h free k = absurd (free refl)
  Client-Seen r Refinement.unlock h free k = absurd (free refl)

  -- A reachable state of the lock with the same shared state and the same threads.
  pub record Simulates (n : ℕ) (y : Deep m) : Type 0 where
    pub system : System.System m
    pub reached : System.Reach m n system
    pub same_state : system.state ≡ y.machine.shared.state
    pub same_threads : (i : ℕ) → system.threads i ≡ status m y i

  -- A step of thread `i` alone.
  step-Simulates :
      {n : ℕ} {y : Deep m} (z : Deep m) (i : ℕ)
      → i < n
      → Simulates n y
      → ((j : ℕ) → j ≢ i → status m z j ≡ status m y j)
      → Seen y.machine.shared.state (status m y i) z.machine.shared.state (status m z i)
      → Simulates n z
  unfolding Seen
  step-Simulates {n} {y} z i lt sim others (inl (e, f)) = record {
    system = sim.system;
    reached = sim.reached;
    same_state = sim.same_state ∙ sym e;
    same_threads = λ j. elim (ℕ_discrete j i) [
      | yes q ↦ rw q (sim.same_threads i ∙ sym f)
      | no d ↦ sim.same_threads j ∙ sym (others j d)
    ];
  }
  step-Simulates {n} {y} z i lt sim others (inr mv) = record {
    system = record {
      state = z.machine.shared.state;
      threads = place i (status m z i) sim.system.threads;
    };
    reached = System.later sim.reached (pick i lt (rw (sim.same_state, sim.same_threads i) mv));
    same_state = refl;
    same_threads = λ j. elim (ℕ_discrete j i) [
      | yes q ↦ rw q (place_self i (status m z i) sim.system.threads)
      | no d ↦
          place_other i j (status m z i) sim.system.threads d
          ∙ sim.same_threads j
          ∙ sym (others j d)
    ];
  }

  inside-Seen :
      {n : ℕ} {y : Deep m} {z : Machine.System eval}
      → DeepReach m n y
      → Machine.Step eval n y.machine z
      → ((j : ℕ) → view (y.machine.threads j) ≡ away → view (z.threads j) ≡ away)
      → ((j : ℕ) → IsKept (y.kept j))
      → (i : ℕ) × (i < n)
        × IsKept (carry (view (y.machine.threads i)) (view (z.threads i)) (y.kept i))
        × Seen y.machine.shared.state (status m y i) z.shared.state (
            status_of
              (view (z.threads i))
              (carry (view (y.machine.threads i)) (view (z.threads i)) (y.kept i)))
        × ((j : ℕ) → j ≢ i → view (z.threads j) ≡ view (y.machine.threads j))
  inside-Seen {y} r st h k =
      let (i, lt, client, others) = Step-Client eval (deep-Reach m r) st in
      let (kept, seen) = Client-Seen (y.kept i) client (h i) (deep-free m r i) (k i) in
      (i, lt, kept, seen, others)

  deep-IsKept : {n : ℕ} {y : Deep m} → DeepReach m n y → (j : ℕ) → IsKept (y.kept j)
  unfolding deep_init
  deep-IsKept start = λ j. tt
  deep-IsKept (later {y} r (inside {z} st h)) = λ j.
      let (i, lt, kept, seen, others) = inside-Seen r st h (deep-IsKept r) in
      elim (ℕ_discrete j i) [
        | yes q ↦ rw q kept
        | no d ↦
            rw (others j d, carry_self (view (y.machine.threads j)) (y.kept j)) (deep-IsKept r j)
      ]
  deep-IsKept (later r (call _ _ _ _ _ _)) = deep-IsKept r
  deep-IsKept (later r (continue _ _ _ _ _)) = deep-IsKept r
  deep-IsKept (later {y} r (finish i {l} {b = b} _ _ _ _)) =
      place-all IsKept y.kept i (outcome (m.kind l) b) (outcome-IsKept Local (m.kind l) b)
        (deep-IsKept r)

  -- A call of `enter` by a thread that is outside.
  entered-Simulates :
      {n : ℕ} {y : Deep m} (i : ℕ) (l : Local)
      → i < n
      → y.machine.threads i ≡ outside
      → Move m y.machine.shared.state (y.kept i) y.machine.shared.state (Status.entering l)
      → Simulates n y
      → Simulates n (record y { machine = entered m i l y.machine })
  unfolding Seen
  entered-Simulates {y} i l lt e mv sim =
      let p : Pc Local = contending (record { locals = l; last = none }) false false in
      step-Simulates (record y { machine = entered m i l y.machine }) i lt sim
        (λ j d. rw (place_other i j p y.machine.threads d) refl)
        (inr (rw (place_self i p y.machine.threads, e) mv))

  -- Whatever threads do that share a lock, interleaved at every access to the spin lock, the mutex
  -- and the condition variable of its monitor, the threads and the state that the monitor protects
  -- are as in a state that atomic evaluations of the closures reach.
  pub deep-Simulates : {n : ℕ} {y : Deep m} → DeepReach m n y → Simulates n y
  unfolding deep_init Seen System.init Machine.init
  deep-Simulates start = record {
    system = System.init m;
    reached = System.start;
    same_state = refl;
    same_threads = λ i. refl;
  }
  deep-Simulates (later {y} r (inside {z} st h)) =
      let (i, lt, kept, seen, others) = inside-Seen r st h (deep-IsKept r) in
      step-Simulates
        (record {
          machine = z;
          kept = λ j. carry (view (y.machine.threads j)) (view (z.threads j)) (y.kept j);
        })
        i lt (deep-Simulates r)
        (λ j d. rw (others j d, carry_self (view (y.machine.threads j)) (y.kept j)) refl) seen
  deep-Simulates (later {y} r (call i k d lt e q)) =
      entered-Simulates i (m.begin k d) lt e (rw q (Move.call k d)) (deep-Simulates r)
  deep-Simulates (later {y} r (continue i {l} {l'} {d} lt e q x)) =
      entered-Simulates i l' lt e (rw q (Move.continue (rw q at (deep-IsKept r i)) x))
        (deep-Simulates r)
  deep-Simulates (later {y} r (finish i {l} {d} {b} lt e q x)) =
      step-Simulates (record y { kept = place i (outcome (m.kind l) b) y.kept }) i lt
        (deep-Simulates r) (λ j ne. rw (place_other i j (outcome (m.kind l) b) y.kept ne) refl)
        (inr (
          rw (place_self i (outcome (m.kind l) b) y.kept, e, q)
            (Move.finish (rw q at (deep-IsKept r i)) x)))
