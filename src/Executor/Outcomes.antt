-- ===== src/Executor/Outcomes.antt =====
-- anode/src/executor.rs: what tasks are completed with, and the end of the pool.
use libmutex.Prelude.{
  ℕ, ◌<◌, ◌≡◌, refl, arith, Bool, true, false, Option, none, some, [], place-each, place-all, total,
  ◌⊎◌, inl, inr, subst,
}
use libmutex.Completable.{is_some, complete_turn, Outcome, abort, success}
use libmutex.Executor.{
  Queue, Worker, waiting, receiving, received, fetched, executing, completing, ended, died, Pool,
  completed, Move, lock, recv, disconnected, take, end, load, give_up, succeed, panic, complete,
  System, Step, submit, hand_over, stop, disconnect, drop_receiver, is_gone, work, init, Reach,
  start, later,
}
use libmutex.Executor.Tasks.{count, holds, task_placed, Move-discarded, kept_lem}

module _ {G : Type 0} (f : ℕ → Option G) where
  -- A task is aborted only if the flag has been cleared, and else has what its closure returned.
  abbrev pub IsOutcome : Bool → ℕ → Outcome G → Type 0
  IsOutcome running k outcome =
      ((outcome ≡ abort) × (running ≡ false)) ⊎ ((g : G) × (f k ≡ some g) × (outcome ≡ success g))

  IsOutcome-stop : (b : Bool) (k : ℕ) (o : Outcome G) → IsOutcome b k o → IsOutcome false k o
  IsOutcome-stop b k o (inl (e, _)) = inl (e, refl)
  IsOutcome-stop b k o (inr h) = inr h

  -- All tasks have been fetched, and no sender is left.
  abbrev IsShut : Pool G → Type 0
  IsShut p = (p.tasks ≡ []) × (p.connected ≡ false) × (p.discarded ≡ [])

  -- What a worker knows of the pool.
  abbrev IsSound : Pool G → Worker G → Type 0
  IsSound p (received none) = IsShut p
  IsSound p (executing k b) = b ≡ false → p.running ≡ false
  IsSound p (completing k o) = IsOutcome p.running k o
  IsSound p ended = IsShut p
  IsSound p _ = Unit

  -- What others leave as they find it, or change in one direction.
  record Extends (p p' : Pool G) : Type 0 where
    pub shut : IsShut p → IsShut p'
    pub stopped : (p'.running ≡ p.running) ⊎ (p'.running ≡ false)

  IsOutcome-Extends :
      (p p' : Pool G) (k : ℕ) (o : Outcome G)
      → Extends p p'
      → IsOutcome p.running k o
      → IsOutcome p'.running k o
  IsOutcome-Extends p p' k o x h = elim x.stopped [
    | inl e ↦ rw e h
    | inr e ↦ rw e (IsOutcome-stop p.running k o h)
  ]

  running-Extends : (p p' : Pool G) → Extends p p' → p.running ≡ false → p'.running ≡ false
  running-Extends p p' x h = elim x.stopped [ inl e ↦ cc | inr e ↦ e ]

  IsSound-Extends : (p p' : Pool G) (w : Worker G) → Extends p p' → IsSound p w → IsSound p' w
  IsSound-Extends p p' waiting x h = tt
  IsSound-Extends p p' receiving x h = tt
  IsSound-Extends p p' (received none) x h = x.shut h
  IsSound-Extends p p' (received (some _)) x h = tt
  IsSound-Extends p p' (fetched _) x h = tt
  IsSound-Extends p p' (executing k b) x h = λ e. running-Extends p p' x (h e)
  IsSound-Extends p p' (completing k o) x h = IsOutcome-Extends p p' k o x h
  IsSound-Extends p p' ended x h = x.shut h
  IsSound-Extends p p' (died _) x h = tt

  Move-Extends : {p p' : Pool G} {w w' : Worker G} → Move f p w p' w' → Extends p p'
  Move-Extends (lock _) = record { shut = λ h. h; stopped = inl refl }
  Move-Extends (recv e) = record { shut = λ h. absurd cc; stopped = inl refl }
  Move-Extends (disconnected _ _) = record { shut = λ h. h; stopped = inl refl }
  Move-Extends take = record { shut = λ h. h; stopped = inl refl }
  Move-Extends end = record { shut = λ h. h; stopped = inl refl }
  Move-Extends load = record { shut = λ h. h; stopped = inl refl }
  Move-Extends give_up = record { shut = λ h. h; stopped = inl refl }
  Move-Extends (succeed _) = record { shut = λ h. h; stopped = inl refl }
  Move-Extends (panic _) = record { shut = λ h. h; stopped = inl refl }
  Move-Extends complete = record { shut = λ h. h; stopped = inl refl }

  Move-IsSound :
      {p p' : Pool G} {w w' : Worker G}
      → Move f p w p' w'
      → p.discarded ≡ []
      → IsSound p w
      → IsSound p' w'
  Move-IsSound (lock _) d h = tt
  Move-IsSound (recv e) d h = tt
  Move-IsSound (disconnected e c) d h = (e, c, d)
  Move-IsSound take d h = tt
  Move-IsSound end d h = h
  Move-IsSound load d h = λ e. e
  Move-IsSound give_up d h = inl (refl, h refl)
  Move-IsSound (succeed {g = g} e) d h = inr (g, e, refl)
  Move-IsSound (panic _) d h = tt
  Move-IsSound complete d h = tt

  AreOutcomes : Pool G → Type 0
  AreOutcomes p = (k : ℕ) (o : Outcome G) → p.outcomes k ≡ some o → IsOutcome p.running k o

  completed-IsOutcome :
      (b : Bool) (k : ℕ) (o : Outcome G) (s : Option (Outcome G)) (r : Outcome G)
      → IsOutcome b k o
      → ((r : Outcome G) → s ≡ some r → IsOutcome b k r)
      → completed o s ≡ some r
      → IsOutcome b k r
  unfolding complete_turn
  completed-IsOutcome b k o none r h q e =
      let same : o ≡ r = cc in subst (λ r'. IsOutcome b k r') same h
  completed-IsOutcome b k o (some v) r h q e = q r e

  Move-AreOutcomes :
      {p p' : Pool G} {w w' : Worker G}
      → Move f p w p' w'
      → IsSound p w
      → AreOutcomes p
      → AreOutcomes p'
  unfolding AreOutcomes complete_turn
  Move-AreOutcomes (lock _) s h = h
  Move-AreOutcomes (recv e) s h = h
  Move-AreOutcomes (disconnected e c) s h = h
  Move-AreOutcomes take s h = h
  Move-AreOutcomes end s h = h
  Move-AreOutcomes load s h = h
  Move-AreOutcomes give_up s h = h
  Move-AreOutcomes (succeed _) s h = h
  Move-AreOutcomes (panic _) s h = h
  Move-AreOutcomes {p} (complete {k = x} {outcome = o}) s h =
      place-each (λ k c. (r : Outcome G) → c ≡ some r → IsOutcome p.running k r) p.outcomes x
        (completed o (p.outcomes x))
        (λ r. completed-IsOutcome p.running x o (p.outcomes x) r s (λ r'. h x r')) h

  record Inv (z : System f) : Type 0 where
    pub sound : (i : ℕ) → IsSound z.pool (z.workers i)
    pub outcomes : AreOutcomes z.pool

  Step-Inv :
      {q : Queue} {n : ℕ} {y z : System f}
      → Step f q n y z
      → ((i : ℕ) → i < n → is_gone (y.workers i) ≡ false → y.pool.discarded ≡ [])
      → Inv y
      → Inv z
  unfolding AreOutcomes
  Step-Inv {y = y} {z = z} (submit _ _ _ c _) kept inv = record {
    sound = λ i.
        IsSound-Extends y.pool z.pool (y.workers i)
          (record { shut = λ h. absurd cc; stopped = inl refl }) (inv.sound i);
    outcomes = inv.outcomes;
  }
  Step-Inv {y = y} {z = z} (hand_over i _ _ _ c) kept inv = record {
    sound = place-all (IsSound z.pool) y.workers i (received (some y.pool.submitted)) tt (λ j.
        IsSound-Extends y.pool z.pool (y.workers j)
          (record { shut = λ h. absurd cc; stopped = inl refl }) (inv.sound j));
    outcomes = inv.outcomes;
  }
  Step-Inv {y = y} {z = z} stop kept inv = record {
    sound = λ i.
        IsSound-Extends y.pool z.pool (y.workers i) (record { shut = λ h. h; stopped = inr refl })
          (inv.sound i);
    outcomes = λ k o e. IsOutcome-stop y.pool.running k o (inv.outcomes k o e);
  }
  Step-Inv {y = y} {z = z} disconnect kept inv = record {
    sound = λ i.
        IsSound-Extends y.pool z.pool (y.workers i)
          (record { shut = λ h. (h.0, refl, h.2); stopped = inl refl }) (inv.sound i);
    outcomes = inv.outcomes;
  }
  Step-Inv {y = y} {z = z} (drop_receiver gone) kept inv = record {
    sound = λ i.
        IsSound-Extends y.pool z.pool (y.workers i)
          (record { shut = λ h. (refl, h.1, rw (h.0, h.2) refl); stopped = inl refl })
          (inv.sound i);
    outcomes = inv.outcomes;
  }
  Step-Inv {y = y} (work i {p} {w} lt mv) kept inv = record {
    sound =
        place-all (IsSound p) y.workers i w
          (Move-IsSound mv (kept i lt (Move-discarded f mv).0) (inv.sound i))
          (λ j. IsSound-Extends y.pool p (y.workers j) (Move-Extends mv) (inv.sound j));
    outcomes = Move-AreOutcomes mv (inv.sound i) inv.outcomes;
  }

  Reach-Inv : {q : Queue} {n : ℕ} {z : System f} → Reach f q n z → Inv z
  unfolding init AreOutcomes
  Reach-Inv start = record { sound = λ i. tt; outcomes = λ k o e. absurd cc }
  Reach-Inv (later r st) = Step-Inv st (kept_lem f r) (Reach-Inv r)

  -- A task that has been completed has the value that its closure returned, or has been aborted,
  -- and the flag of the pool has been cleared.
  pub outcome_lem :
      {q : Queue} {n : ℕ} {z : System f}
      → Reach f q n z
      → (k : ℕ) (outcome : Outcome G) → z.pool.outcomes k ≡ some outcome
      → ((outcome ≡ abort) × (z.pool.running ≡ false))
        ⊎ ((g : G) × (f k ≡ some g) × (outcome ≡ success g))
  unfolding AreOutcomes
  outcome_lem r k outcome e = (Reach-Inv r).outcomes k outcome e

  -- Once a worker has returned, every task that has been submitted is completed, if no worker has
  -- it, or has died of it.
  pub all_completed :
      {q : Queue} {n : ℕ} {z : System f}
      → Reach f q n z
      → (i : ℕ) → z.workers i ≡ ended
      → (k : ℕ) → k < z.pool.submitted
      → total (holds k) n z.workers ≡ 0
      → is_some (z.pool.outcomes k) ≡ true
  unfolding count
  all_completed {n = n} {z = z} r i e k lt free =
      let shut = rw e at ((Reach-Inv r).sound i) in
      let placed = rw (shut.0, shut.2) at (task_placed f r k lt).0 in ground (arith, placed, free)
