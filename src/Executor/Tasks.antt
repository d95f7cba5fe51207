-- ===== src/Executor/Tasks.antt =====
-- anode/src/executor.rs: where the submitted tasks are.
use libmutex.Prelude.{
  ℕ, ◌+◌, ◌<◌, ◌≤◌, ◌≡◌, refl, arith, ◌==◌, Bool, true, false, Option, none, some, List, [], ◌∷◌,
  ◌++◌, ltb, place, total, total-place, weight-le-total, total-zero, ℕ_discrete, place_self,
  place_other, ap, ◌⊎◌, inl, inr, ◌∙◌,
}
use libmutex.Completable.{is_some, complete_turn, Outcome}
use libmutex.Executor.{
  Queue, Worker, waiting, received, fetched, executing, completing, died, Pool, completed, is_gone,
  Move, lock, recv, disconnected, take, end, load, give_up, succeed, panic, complete, System, Step,
  submit, hand_over, stop, disconnect, drop_receiver, work, init, Reach, start, later,
}

abbrev pub flag : Bool → ℕ
flag true = 1
flag false = 0

-- How often task `k` is in the queue.
unfoldable pub count : ℕ → List ℕ → ℕ
count k [] = 0
count k (x ∷ xs) = flag (x == k) + count k xs

count-snoc : (k x : ℕ) (xs : List ℕ) → count k (xs ++ (x ∷ [])) ≡ count k xs + flag (x == k)
unfolding count
count-snoc k x [] = ground arith
count-snoc k x (y ∷ ys) = ground (arith, count-snoc k x ys)

count-nil : (k : ℕ) → count k [] ≡ 0
unfolding count
count-nil k = refl

count-append : (k : ℕ) (xs ys : List ℕ) → count k (xs ++ ys) ≡ count k xs + count k ys
unfolding count
count-append k [] ys = omega arith
count-append k (x ∷ xs) ys = omega (arith, count-append k xs ys)

module _ {G : Type 0} where
  -- A worker that has task `k`, or that its panic has ended.
  abbrev pub holds : ℕ → Worker G → ℕ
  holds k (received (some x)) = flag (x == k)
  holds k (fetched x) = flag (x == k)
  holds k (executing x _) = flag (x == k)
  holds k (completing x _) = flag (x == k)
  holds k (died x) = flag (x == k)
  holds k _ = 0

  abbrev pub places : ℕ → Pool G → ℕ
  places k p = count k p.tasks + count k p.discarded + flag (is_some (p.outcomes k))

  is_some-completed : (o : Outcome G) (s : Option (Outcome G)) → is_some (completed o s) ≡ true
  unfolding complete_turn
  is_some-completed o none = refl
  is_some-completed o (some x) = refl

  module _ (f : ℕ → Option G) where
    -- A step of a worker moves tasks, and neither loses nor doubles one.
    Move-places :
        (k : ℕ) {p p' : Pool G} {w w' : Worker G}
        → Move f p w p' w'
        → places k p + holds k w ≤ 1
        → places k p' + holds k w' ≡ places k p + holds k w
    unfolding count
    Move-places k (lock _) h = refl
    Move-places k {p} (recv e) h = rw e (omega arith)
    Move-places k (disconnected _ _) h = refl
    Move-places k take h = refl
    Move-places k end h = refl
    Move-places k load h = refl
    Move-places k give_up h = refl
    Move-places k (succeed _) h = refl
    Move-places k (panic _) h = refl
    Move-places k {p} (complete {k = x} {outcome = o}) h = elim (ℕ_discrete k x) [
      | yes e ↦
          let set : is_some (place x (completed o (p.outcomes x)) p.outcomes k) ≡ true =
            rw (e, place_self x (completed o (p.outcomes x)) p.outcomes)
              (is_some-completed o (p.outcomes x)) in
          ground (arith, set, e, h)
      | no d ↦
          let kept = place_other x k (completed o (p.outcomes x)) p.outcomes d in
          ground (arith, kept, d)
    ]

    pub Move-submitted :
        {p p' : Pool G} {w w' : Worker G} → Move f p w p' w' → p'.submitted ≡ p.submitted
    Move-submitted (lock _) = refl
    Move-submitted (recv _) = refl
    Move-submitted (disconnected _ _) = refl
    Move-submitted take = refl
    Move-submitted end = refl
    Move-submitted load = refl
    Move-submitted give_up = refl
    Move-submitted (succeed _) = refl
    Move-submitted (panic _) = refl
    Move-submitted complete = refl

    -- A worker that takes a step is not gone, and discards nothing.
    pub Move-discarded :
        {p p' : Pool G} {w w' : Worker G}
        → Move f p w p' w'
        → (is_gone w ≡ false) × (p'.discarded ≡ p.discarded)
    Move-discarded (lock _) = (refl, refl)
    Move-discarded (recv e) = (refl, refl)
    Move-discarded (disconnected e c) = (refl, refl)
    Move-discarded take = (refl, refl)
    Move-discarded end = (refl, refl)
    Move-discarded load = (refl, refl)
    Move-discarded give_up = (refl, refl)
    Move-discarded (succeed e) = (refl, refl)
    Move-discarded (panic _) = (refl, refl)
    Move-discarded complete = (refl, refl)

    -- Tasks are discarded only where all workers are gone.
    abbrev pub IsKept : ℕ → System f → Type 0
    IsKept n z = (z.pool.discarded ≡ []) ⊎ ((i : ℕ) → i < n → is_gone (z.workers i) ≡ true)

    Step-IsKept : {q : Queue} {n : ℕ} {y z : System f} → Step f q n y z → IsKept n y → IsKept n z
    Step-IsKept (submit _ _ _ _ _) h = h
    Step-IsKept (hand_over i lt _ e _) (inl h) = inl h
    Step-IsKept (hand_over i lt _ e _) (inr gone) = absurd cc (gone i lt, ap is_gone e)
    Step-IsKept stop h = h
    Step-IsKept disconnect h = h
    Step-IsKept (drop_receiver gone) h = inr gone
    Step-IsKept (work i lt mv) (inl h) = inl ((Move-discarded mv).1 ∙ h)
    Step-IsKept (work i lt mv) (inr gone) = absurd cc (gone i lt, (Move-discarded mv).0)

    Reach-IsKept : {q : Queue} {n : ℕ} {z : System f} → Reach f q n z → IsKept n z
    unfolding init
    Reach-IsKept start = inl refl
    Reach-IsKept (later r st) = Step-IsKept st (Reach-IsKept r)

    -- While some worker is not gone nothing has been discarded.
    pub kept_lem :
        {q : Queue} {n : ℕ} {z : System f}
        → Reach f q n z
        → (i : ℕ) → i < n
        → is_gone (z.workers i) ≡ false
        → z.pool.discarded ≡ []
    kept_lem r i lt h = elim (Reach-IsKept r) [ inl e ↦ e | inr gone ↦ absurd cc (h, gone i lt) ]

    -- What is true of all tasks: each that has been submitted is in one place.
    record Inv (n : ℕ) (z : System f) : Type 0 where
      pub placed :
          (k : ℕ) → places k z.pool + total (holds k) n z.workers ≡ flag (ltb k z.pool.submitted)

    Step-Inv : {q : Queue} {n : ℕ} {y z : System f} → Step f q n y z → Inv n y → Inv n z
    Step-Inv {y = y} (submit _ _ _ _ _) inv = record {
      placed = λ k. ground (arith, inv.placed k, count-snoc k y.pool.submitted y.pool.tasks);
    }
    Step-Inv {n = n} {y = y} (hand_over i lt _ e c) inv = record {
      placed = λ k.
          let w : Worker G = received (some y.pool.submitted) in
          let idle : holds k (y.workers i) ≡ 0 = ap (holds k) e in
          ground (arith, inv.placed k, idle, total-place (holds k) n i w y.workers lt);
    }
    Step-Inv stop inv = record { placed = λ k. inv.placed k }
    Step-Inv disconnect inv = record { placed = λ k. inv.placed k }
    Step-Inv {y = y} (drop_receiver _) inv = record {
      placed = λ k.
          omega (arith, inv.placed k, count-nil k, count-append k y.pool.tasks y.pool.discarded);
    }
    Step-Inv {n = n} {y = y} (work i {p} {w} lt mv) inv = record {
      placed = λ k.
          let share = weight-le-total (holds k) n i y.workers lt in
          let moved = Move-places k mv (bounded_share k share) in
          rw (Move-submitted mv)
            (omega (arith, inv.placed k, share, moved, total-place (holds k) n i w y.workers lt));
    }
      where
        bounded_share :
            (k : ℕ)
            → holds k (y.workers i) ≤ total (holds k) n y.workers
            → places k y.pool + holds k (y.workers i) ≤ 1
        bounded_share k h = ground (arith, inv.placed k)

    Reach-Inv : {q : Queue} {n : ℕ} {z : System f} → Reach f q n z → Inv n z
    unfolding init count
    Reach-Inv {n = n} start = record {
      placed = λ k. ground (arith, total-zero (holds k) n (λ _. waiting) (λ _. refl));
    }
    Reach-Inv (later r st) = Step-Inv st (Reach-Inv r)

    -- Every task that has been submitted is in exactly one place: in the queue, with a worker (also
    -- with one that has died of it), completed, or discarded with the queue; and either none is
    -- discarded or every worker is gone.
    pub task_placed :
        {q : Queue} {n : ℕ} {z : System f}
        → Reach f q n z
        → (k : ℕ) → k < z.pool.submitted
        → (count k z.pool.tasks
              + count k z.pool.discarded
              + flag (is_some (z.pool.outcomes k))
              + total (holds k) n z.workers
            ≡ 1)
          × IsKept n z
    task_placed r k lt = (ground (arith, (Reach-Inv r).placed k), Reach-IsKept r)
