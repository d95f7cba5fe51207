-- ===== src/Zlock/Deep/Calls.antt =====
-- anode/src/zlock.rs over anode/src/monitor.rs: the calls of the monitor that the threads of a lock
-- make are calls of `enter`.
use libmutex.Prelude.{ℕ, ◌<◌, ◌≡◌, ◌≢◌, refl, false, none, place-all, ℕ_discrete}
use libmutex.Monitor.Machine as Machine
use libmutex.Monitor.Machine.{Pc, outside, contending}
use libmutex.Monitor.Refinement.{View, away, locked, view, Client, stay, Step-Client}
use libmutex.Monitor.Refinement
use libmutex.Zlock.Moderator.{Moderator}
use libmutex.Zlock.Deep.{
  Deep, entered, inside, call, continue, finish, deep_init, DeepReach, start, later,
}

module _ (m : Moderator) where
  open m use {State, Local, eval}

  entered-Reach :
      {n : ℕ} {z : Machine.System eval} (i : ℕ) (l : Local)
      → i < n
      → z.threads i ≡ outside
      → Machine.Reach eval n m.new z
      → Machine.Reach eval n m.new (entered m i l z)
  entered-Reach i l lt e reach = Machine.later reach (Machine.move i lt (rw e (Machine.enter l)))

  -- The monitor of the lock is in a state that it reaches by itself.
  pub deep-Reach : {n : ℕ} {y : Deep m} → DeepReach m n y → Machine.Reach eval n m.new y.machine
  unfolding deep_init
  deep-Reach start = Machine.start
  deep-Reach (later r (inside st _)) = Machine.later (deep-Reach r) st
  deep-Reach (later r (call i k d lt e _)) = entered-Reach i (m.begin k d) lt e (deep-Reach r)
  deep-Reach (later r (continue i {l' = l'} lt e _ _)) = entered-Reach i l' lt e (deep-Reach r)
  deep-Reach (later r (finish _ _ _ _ _)) = deep-Reach r

  -- A thread that does not call `lock` has no guard of the monitor.
  Client-free :
      {s s' : State} {v v' : View Local}
      → Client eval s v s' v'
      → (v ≡ away → v' ≡ away)
      → v ≢ locked
      → v' ≢ locked
  Client-free stay h free = free
  Client-free (Refinement.call l) h free = λ e. cc
  Client-free (Refinement.first t u e) h free = λ e. cc
  Client-free (Refinement.repeat t u may e) h free = λ e. cc
  Client-free (Refinement.finish may) h free = λ e. cc
  Client-free Refinement.lock h free = λ e. cc (h refl)
  Client-free Refinement.write h free = free
  Client-free Refinement.unlock h free = λ e. cc

  entered-free :
      (z : Machine.System eval) (i : ℕ) (l : Local)
      → ((j : ℕ) → view (z.threads j) ≢ locked)
      → (j : ℕ) → view ((entered m i l z).threads j) ≢ locked
  entered-free z i l free =
      place-all (λ p. view p ≢ locked) z.threads i
        (contending (record { locals = l; last = none }) false false) (λ e. cc) free

  pub deep-free :
      {n : ℕ} {y : Deep m} → DeepReach m n y → (j : ℕ) → view (y.machine.threads j) ≢ locked
  unfolding deep_init Machine.init
  deep-free start = λ j e. cc
  deep-free (later {y} r (inside {z} st h)) = λ j.
      let (i, lt, client, others) = Step-Client eval (deep-Reach r) st in
      elim (ℕ_discrete j i) [
        | yes q ↦ rw q (Client-free client (h i) (deep-free r i))
        | no d ↦ rw (others j d) (deep-free r j)
      ]
  deep-free (later {y} r (call i k d _ _ _)) = entered-free y.machine i (m.begin k d) (deep-free r)
  deep-free (later {y} r (continue i {l' = l'} _ _ _ _)) = entered-free y.machine i l' (deep-free r)
  deep-free (later r (finish _ _ _ _ _)) = deep-free r
