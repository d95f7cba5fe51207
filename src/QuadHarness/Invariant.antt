-- ===== src/QuadHarness/Invariant.antt =====
-- anode-bench/src/quad_harness.rs: the invariant of the harness, kept by every step, over a lock
-- with any moderator of the crate.
use libmutex.Prelude.{
  ℕ, ◌+◌, ◌<◌, ◌≡◌, ◌≢◌, refl, arith, true, false, place, place_self, place_other, place-each,
  place-pair, total, total-place, total-zero, ℕ_discrete, Bool-cases, inl, inr, sym, ◌∙◌,
}
use libmutex.Zlock.Moderator.{Moderator}
use libmutex.Zlock.System.{Status, writer, entering, pick}
use libmutex.Zlock.System as System
use libmutex.Zlock.Content as Content
use libmutex.Zlock.Implementation.{Implementation, moderator}
use libmutex.Zlock.Exclusion.{exclusion}
use libmutex.QuadHarness.Threads.{
  Addable, AddableLaws, Options, ExtendedOptions, Role, Thread, role_of, number, is_writer,
  after_add, panicked,
}
use libmutex.QuadHarness.System.{
  Harness, Step, stop, proceed, call, operate, unwind, store, overflow, init, new_thread, Reach,
  start, later,
}
use libmutex.QuadHarness.Counter.{
  additions, Sound, Keeps, Keeps-Sound, act-Keeps, calls-source, calls-Keeps, busy-Sound,
  other-Sound, store-Sound, overflow-Keeps,
}

is_writer-writer : {L : Type 0} (p : Status L) → is_writer p ≡ true → p ≡ writer
is_writer-writer p h = ground arith

module _ (cutoff : ℕ → ℕ) (k : Implementation) {T : Type 0} (a : Addable T) (laws : AddableLaws a)
    (o : Options) (ext : ExtendedOptions) where
  abbrev pub m : Moderator
  m = moderator cutoff k

  pub sync-Reach : {h : Harness m a} → Reach m a o ext h → System.Reach m (number o) h.lock.sync
  unfolding init Content.new
  sync-Reach start = System.start
  sync-Reach (later r stop) = sync-Reach r
  sync-Reach (later r (proceed i lt e)) = sync-Reach r
  sync-Reach (later {y} r (call i {k} {d} {phase} lt e)) =
      let from =
        calls-source ext (y.lock.sync.threads i) (y.threads i).role (y.threads i).phase phase k d
          e in
      System.later (sync-Reach r) (pick i lt (rw from (System.Move.call k d)))
  sync-Reach (later r (operate i lt _ b mv)) = System.later (sync-Reach r) (pick i lt mv)
  sync-Reach (later r (unwind t u i lt e)) = sync-Reach r
  sync-Reach (later r (store i lt e q)) = sync-Reach r
  sync-Reach (later r (overflow i lt e q)) = sync-Reach r

  pub record Inv (h : Harness m a) : Type 0 where
    pub sound :
        (i : ℕ) → i < number o → Sound ext a h.lock.content (h.lock.sync.threads i) (h.threads i)
    pub roles : (i : ℕ) → (h.threads i).role ≡ role_of o i
    pub counted : total additions (number o) h.threads ≡ a.get h.lock.content

  placed-roles :
      (i : ℕ) {h : Harness m a} (t : Thread T)
      → t.role ≡ (h.threads i).role
      → Inv h
      → (j : ℕ) → (place i t h.threads j).role ≡ role_of o j
  placed-roles i {h} t e inv =
      place-each (λ j t'. t'.role ≡ role_of o j) h.threads i t (e ∙ inv.roles i) inv.roles

  placed-counted :
      (i more : ℕ) {h : Harness m a} (t : Thread T)
      → i < number o
      → additions t ≡ additions (h.threads i) + more
      → Inv h
      → total additions (number o) (place i t h.threads) ≡ a.get h.lock.content + more
  placed-counted i more {h} t lt e inv =
      omega (arith, inv.counted, total-place additions (number o) i t h.threads lt)

  -- No thread has write access beside another.
  alone :
      {h : Harness m a}
      → Reach m a o ext h
      → (i j : ℕ) → i < number o
      → j < number o
      → j ≢ i
      → is_writer (h.lock.sync.threads i) ≡ true
      → is_writer (h.lock.sync.threads j) ≡ false
  alone {h} r i j lt_i lt_j d w = elim (Bool-cases (is_writer (h.lock.sync.threads j))) [
    | inr q ↦ q
    | inl q ↦ absurd (
        (exclusion cutoff k (sync-Reach r) i j lt_i lt_j (λ e. d (sym e))
            (is_writer-writer (h.lock.sync.threads i) w)).0
          (is_writer-writer (h.lock.sync.threads j) q))
  ]

  Step-Inv : {y z : Harness m a} → Reach m a o ext y → Step m a ext (number o) y z → Inv y → Inv z
  Step-Inv r stop inv = record { sound = inv.sound; roles = inv.roles; counted = inv.counted }
  Step-Inv {y} r (proceed i {t} lt e) inv =
      let s = inv.sound i lt in
      let p = y.lock.sync.threads in
      let keeps : Keeps ext a y.lock.content (p i) (y.threads i) t =
        act-Keeps a ext y.running y.lock.content (p i) (y.threads i) t (y.threads i).phase refl e
          s.holds s.seen s.missed in
      record {
        sound =
            place-each (λ j t'. j < number o → Sound ext a y.lock.content (p j) t') y.threads i t
              (λ _. Keeps-Sound ext a keeps) inv.sound;
        roles = placed-roles i t keeps.same_role inv;
        counted = omega (arith, placed-counted i 0 t lt (omega (arith, keeps.same_additions)) inv);
      }
  Step-Inv {y} r (call i {k} {d} {phase} lt e) inv =
      let p' : Status m.Local = entering (m.begin k d) in
      let t' : Thread T = record (y.threads i) { phase = phase } in
      let keeps : Keeps ext a y.lock.content p' (y.threads i) t' =
        calls-Keeps ext a y.lock.content (y.lock.sync.threads i) p' (y.threads i) k d
          (y.threads i).phase phase refl e (inv.sound i lt) in
      record {
        sound =
            place-pair (λ j q t. j < number o → Sound ext a y.lock.content q t) y.lock.sync.threads
              y.threads i p' t' (λ _. Keeps-Sound ext a keeps) inv.sound;
        roles = placed-roles i t' keeps.same_role inv;
        counted = omega (arith, placed-counted i 0 t' lt (omega (arith, keeps.same_additions)) inv);
      }
  Step-Inv {y} r (operate i {s} {p} lt _ b mv) inv = record {
    sound =
        place-each (λ j p'. j < number o → Sound ext a y.lock.content p' (y.threads j))
          y.lock.sync.threads i p
          (λ _.
            busy-Sound ext a y.lock.content (y.lock.sync.threads i) p (y.threads i) b
              (inv.sound i lt))
          inv.sound;
    roles = inv.roles;
    counted = inv.counted;
  }
  Step-Inv {y} r (unwind t u i lt e) inv =
      let t' : Thread T = record (y.threads i) { unwound = true } in
      let s = inv.sound i lt in
      record {
        sound =
            place-each (λ j t. j < number o → Sound ext a y.lock.content (y.lock.sync.threads j) t)
              y.threads i t' (λ _. record { holds = s.holds; seen = s.seen; missed = s.missed })
              inv.sound;
        roles = placed-roles i t' refl inv;
        counted = omega (arith, placed-counted i 0 t' lt (omega arith) inv);
      }
  Step-Inv {y} r (store i {v} {v'} lt e q) inv =
      let t' : Thread T = record (y.threads i) { phase = after_add (y.threads i).role } in
      let (more, writes, sound, one) =
        store-Sound ext a y.lock.content v v' (y.lock.sync.threads i) (y.threads i) e
          (laws.get-add v v' 1 q) (inv.sound i lt) in
      record {
        sound = λ j. elim (ℕ_discrete j i) [
          | yes d ↦ λ _. rw (d, place_self i t' y.threads) sound
          | no d ↦ λ lt_j. rw (place_other i j t' y.threads d) (
              other-Sound ext a y.lock.content v' (y.lock.sync.threads j) (y.threads j)
                (alone r i j lt lt_j d writes) (omega (arith, more)) (inv.sound j lt_j))
        ];
        roles = placed-roles i t' refl inv;
        counted = omega (arith, more, placed-counted i 1 t' lt one inv);
      }
  Step-Inv {y} r (overflow i {v} lt e q) inv =
      let t' : Thread T = record (y.threads i) { phase = panicked } in
      let p = y.lock.sync.threads in
      let (sound, same) =
        overflow-Keeps ext a y.lock.content v (p i) (y.threads i) e (laws.add-none v 1 q)
          (inv.sound i lt) in
      record {
        sound =
            place-each (λ j t. j < number o → Sound ext a y.lock.content (p j) t) y.threads i t'
              (λ _. sound) inv.sound;
        roles = placed-roles i t' refl inv;
        counted = omega (arith, placed-counted i 0 t' lt (omega (arith, same)) inv);
      }

  pub Reach-Inv : {h : Harness m a} → Reach m a o ext h → Inv h
  unfolding init Content.new
  Reach-Inv start = record {
    sound = λ i _. record { holds = tt; seen = omega arith; missed = omega arith };
    roles = λ i. refl;
    counted = omega (
      arith,
      laws.get-initial,
      total-zero additions (number o) (λ i. new_thread m a (role_of o i))
          (λ i. fresh (role_of o i)),
    );
  }
    where
      fresh : (role : Role) → additions (new_thread m a role) ≡ 0
      fresh role = ground arith
  Reach-Inv (later r st) = Step-Inv r st (Reach-Inv r)
