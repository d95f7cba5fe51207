-- ===== src/Monitor/Refinement.antt =====
-- anode/src/monitor.rs: the monitor implements its specification, by which `enter` evaluates its
-- closure atomically, at least once, and again only after a directive that allows it.
use libmutex.Prelude.{
  ℕ, ◌-◌, ◌<◌, ◌≡◌, ◌≢◌, refl, arith, Bool, true, false, Option, none, some, place, place_self,
  place_other, place-all, Option-cases, inl, inr, ap, ◌∙◌, ℕ_discrete,
}
use libmutex.Time.{duration_max}
use libmutex.Monitor.Defs.{
  Directive, return, wait, notify_one, notify_all, Turn, may_repeat, may_finish,
}
use libmutex.Monitor.Machine as Machine
use libmutex.Monitor.Machine.{
  Frame, Pc, outside, contending, inside, locking, about_to_wait, parked, resuming, expired,
  expiring, releasing, signalling, leaving, requesting, owning, Shared, dispatch, round, Move,
  enter, acquire, evaluate, park, wake, time_out, resume, expire, unregister, release, leave,
  request, own, assign, disown, System, notified, Step, move, wake_all, wake_one, wake_none, Reach,
  start, later, init,
}

-- What the caller of the monitor sees of a thread; `locked` is a guard of `lock`.
pub data View (L : Type 0) : Type 0 where
  away : View L
  entering : L → View L
  evaluated : L → Directive → View L
  locked : View L

-- What it sees of a step, on the state that the monitor protects: the specification of `enter` and
-- of `lock`.
pub data Client {L S : Type 0} (f : ℕ → ℕ → L → S → Option (Turn L S)) (s : S)
    : View L → S → View L → Type 0 where
  stay : {v : View L} → Client f s v s v
  call : (l : L) → Client f s away s (entering l)
  first :
      (t u : ℕ) {l : L} {r : Turn L S}
      → f t u l s ≡ some r
      → Client f s (entering l) r.state (evaluated r.locals r.directive)
  repeat :
      (t u : ℕ) {l : L} {d : Directive} {r : Turn L S}
      → may_repeat d ≡ true
      → f t u l s ≡ some r
      → Client f s (evaluated l d) r.state (evaluated r.locals r.directive)
  finish : {l : L} {d : Directive} → may_finish d ≡ true → Client f s (evaluated l d) s away
  lock : Client f s away s locked
  write : {s' : S} → Client f s locked s' locked
  unlock : Client f s locked s away

abbrev pub view_frame : {L : Type 0} → L → Option Directive → View L
view_frame l none = entering l
view_frame l (some d) = evaluated l d

abbrev pub view : {L : Type 0} → Pc L → View L
view outside = away
view (contending c _ _) = view_frame c.locals c.last
view (inside c _ _) = view_frame c.locals c.last
view (locking c) = view_frame c.locals c.last
view (about_to_wait c _) = view_frame c.locals c.last
view (parked c _) = view_frame c.locals c.last
view (resuming c _) = view_frame c.locals c.last
view (expired c) = view_frame c.locals c.last
view (expiring c) = view_frame c.locals c.last
view (releasing c _) = view_frame c.locals c.last
view (signalling c _) = view_frame c.locals c.last
view (leaving c _) = view_frame c.locals c.last
view requesting = away
view owning = locked

abbrev pub repeatable : Option Directive → Bool
repeatable none = true
repeatable (some d) = may_repeat d

abbrev pub finishable : Option Directive → Bool
finishable none = false
finishable (some d) = may_finish d

-- A thread that will evaluate the closure again may; one that will leave has evaluated it.
abbrev pub IsSound : {L : Type 0} → Pc L → Type 0
IsSound outside = Unit
IsSound (contending c _ _) = repeatable c.last ≡ true
IsSound (inside c _ _) = repeatable c.last ≡ true
IsSound (locking c) = repeatable c.last ≡ true
IsSound (about_to_wait c d) = (repeatable c.last ≡ true) × (c.last ≡ some (wait d))
IsSound (parked c d) = (repeatable c.last ≡ true) × (c.last ≡ some (wait d))
IsSound (resuming c timed_out) =
    (repeatable c.last ≡ true) × (timed_out ≡ true → finishable c.last ≡ true)
IsSound (expired c) = finishable c.last ≡ true
IsSound (expiring c) = finishable c.last ≡ true
IsSound (releasing c _) = finishable c.last ≡ true
IsSound (signalling c _) = finishable c.last ≡ true
IsSound (leaving c _) = finishable c.last ≡ true
IsSound requesting = Unit
IsSound owning = Unit

dispatch-view :
    {L : Type 0} (l : L) (d : Directive) (g : Bool) (w w' : ℕ) (p : Pc L)
    → dispatch (record { locals = l; last = some d }) d g w ≡ some (w', p)
    → (view p ≡ evaluated l d) × IsSound p
unfolding dispatch
dispatch-view l return g w w' p h = ground arith
dispatch-view l (wait d) g w w' p h = ground arith
dispatch-view l notify_one g w w' p h = ground arith
dispatch-view l notify_all g w w' p h = ground arith

notified-view : {L : Type 0} (p : Pc L) → view (notified p) ≡ view p
notified-view (parked c d) = refl
notified-view _ = refl

notified-IsSound : {L : Type 0} (p : Pc L) → IsSound p → IsSound (notified p)
notified-IsSound (parked c d) h = (h.0, λ e. cc)
notified-IsSound outside h = h
notified-IsSound (contending _ _ _) h = h
notified-IsSound (inside _ _ _) h = h
notified-IsSound (locking _) h = h
notified-IsSound (about_to_wait _ _) h = h
notified-IsSound (resuming _ _) h = h
notified-IsSound (expired _) h = h
notified-IsSound (expiring _) h = h
notified-IsSound (releasing _ _) h = h
notified-IsSound (signalling _ _) h = h
notified-IsSound (leaving _ _) h = h
notified-IsSound requesting h = h
notified-IsSound owning h = h

module _ {L S : Type 0} (f : ℕ → ℕ → L → S → Option (Turn L S)) where
  round-view :
      (t u : ℕ) (c : Frame L) (g w : Bool) (m m' : Shared S) (p : Pc L)
      → round f t u c g w m ≡ some (m', p)
      → (r : Turn L S) × (f t u c.locals m.state ≡ some r)
        × (m'.state ≡ r.state)
        × (view p ≡ evaluated r.locals r.directive)
        × IsSound p
  unfolding round
  round-view t u c g w m m' p h = elim (Option-cases (f t u c.locals m.state)) [
    | inl q ↦ ground (arith, q)
    | inr (r, q) ↦
        let dispatched = λ (v v' : ℕ). dispatch-view r.locals r.directive g v v' p in
        let part : (m'.state ≡ r.state) × (view p ≡ evaluated r.locals r.directive) × IsSound p =
          ground
            (arith, q, dispatched m.waiting m'.waiting, dispatched (m.waiting - 1) m'.waiting) in
        (r, q, part.0, part.1, part.2)
  ]

  evaluated-Client :
      (t u : ℕ) (l : L) (last : Option Directive) (s s' : S) (v : View L) (r : Turn L S)
      → repeatable last ≡ true
      → f t u l s ≡ some r
      → s' ≡ r.state
      → v ≡ evaluated r.locals r.directive
      → Client f s (view_frame l last) s' v
  evaluated-Client t u l none s s' v r may q e k = rw (e, k) (first t u q)
  evaluated-Client t u l (some d) s s' v r may q e k = rw (e, k) (repeat t u may q)

  leaving-Client :
      (l : L) (last : Option Directive) (s : S)
      → finishable last ≡ true
      → Client f s (view_frame l last) s away
  leaving-Client l none s h = cc
  leaving-Client l (some d) s h = finish h

  -- One step of one thread inside `enter` is nothing to the caller, or a step of the
  -- specification.
  Move-Client :
      {m m' : Shared S} {p p' : Pc L}
      → Move f m p m' p'
      → IsSound p
      → Client f m.state (view p) m'.state (view p')
  Move-Client (enter l) h = call l
  Move-Client (acquire _) h = stay
  Move-Client {m} {m'} {p' = p'} (evaluate t u {c} {guard} {woken} q) h =
      let (r, done, state, seen, sound) = round-view t u c guard woken m m' p' q in
      evaluated-Client t u c.locals c.last m.state m'.state (view p') r h done state seen
  Move-Client (Machine.lock _) h = stay
  Move-Client park h = stay
  Move-Client wake h = stay
  Move-Client (time_out _) h = stay
  Move-Client (resume {timed_out = true} _) h = stay
  Move-Client (resume {timed_out = false} _) h = stay
  Move-Client (expire _) h = stay
  Move-Client (unregister _) h = stay
  Move-Client release h = stay
  Move-Client {m} (leave {c}) h = leaving-Client c.locals c.last m.state h
  Move-Client request h = stay
  Move-Client (own _) h = Client.lock
  Move-Client (assign s) h = write
  Move-Client disown h = unlock

  timed-finishable :
      (last : Option Directive) (d : ℕ)
      → d ≢ duration_max
      → last ≡ some (wait d)
      → finishable last ≡ true
  timed-finishable last d ne e = rw e (ground arith)

  Move-IsSound : {m m' : Shared S} {p p' : Pc L} → Move f m p m' p' → IsSound p → IsSound p'
  Move-IsSound (enter l) h = refl
  Move-IsSound (acquire _) h = h
  Move-IsSound {m} {m'} {p' = p'} (evaluate t u {c} {guard} {woken} q) h =
      (round-view t u c guard woken m m' p' q).4
  Move-IsSound (Machine.lock _) h = h
  Move-IsSound park h = h
  Move-IsSound wake h = (h.0, λ e. cc)
  Move-IsSound {p = parked c d} (time_out ne) h = (h.0, λ _. timed-finishable c.last d ne h.1)
  Move-IsSound (resume {timed_out = true} _) h = h.1 refl
  Move-IsSound (resume {timed_out = false} _) h = h.0
  Move-IsSound (expire _) h = h
  Move-IsSound (unregister _) h = h
  Move-IsSound release h = h
  Move-IsSound leave h = tt
  Move-IsSound request h = tt
  Move-IsSound (own _) h = tt
  Move-IsSound (assign _) h = tt
  Move-IsSound disown h = tt

  Step-IsSound :
      {n : ℕ} {y z : System f}
      → Step f n y z
      → ((j : ℕ) → IsSound (y.threads j))
      → (j : ℕ) → IsSound (z.threads j)
  Step-IsSound {y} (move i {p} lt mv) h = place-all IsSound y.threads i p (Move-IsSound mv (h i)) h
  Step-IsSound {y} (wake_all i {c} lt e) h =
      place-all IsSound (λ j. notified (y.threads j)) i (leaving c false) (rw e at (h i))
        (λ j. notified-IsSound (y.threads j) (h j))
  Step-IsSound {y} (wake_one i j {c} {c'} {d} lt_i lt_j e k) h =
      place-all IsSound (place j (resuming c' false) y.threads) i (leaving c false) (rw e at (h i))
        (place-all IsSound y.threads j (resuming c' false) (unparked c' d (rw k at (h j))) h)
    where
      unparked : (c' : Frame L) (d : ℕ) → IsSound (parked c' d) → IsSound (resuming c' false)
      unparked c' d q = (q.0, λ e. cc)
  Step-IsSound {y} (wake_none i {c} lt e _) h =
      place-all IsSound y.threads i (leaving c false) (rw e at (h i)) h

  pub Reach-IsSound :
      {n : ℕ} {s : S} {z : System f} → Reach f n s z → (j : ℕ) → IsSound (z.threads j)
  unfolding init
  Reach-IsSound start = λ j. tt
  Reach-IsSound (later r st) = Step-IsSound st (Reach-IsSound r)

  -- Every step of threads that share a monitor is, for one of them, nothing or a step of the
  -- specification of the monitor, and is not seen by the callers of the others.
  pub Step-Client :
      {n : ℕ} {s : S} {y z : System f}
      → Reach f n s y
      → Step f n y z
      → (i : ℕ) × (i < n)
        × Client f y.shared.state (view (y.threads i)) z.shared.state (view (z.threads i))
        × ((j : ℕ) → j ≢ i → view (z.threads j) ≡ view (y.threads j))
  Step-Client {y} reach (move i {p} lt mv) = (
    i,
    lt,
    rw (place_self i p y.threads) (Move-Client mv (Reach-IsSound reach i)),
    λ j d. ap view (place_other i j p y.threads d),
  )
  Step-Client {y} reach (wake_all i {c} lt e) = (
    i,
    lt,
    rw (place_self i (leaving c false) (λ j. notified (y.threads j)), e) stay,
    λ j d.
        ap view (place_other i j (leaving c false) (λ j. notified (y.threads j)) d)
        ∙ notified-view (y.threads j),
  )
  Step-Client {y} reach (wake_one i k {c} {c'} {d} lt_i lt_k e h) = (
    i,
    lt_i,
    rw (place_self i (leaving c false) (place k (resuming c' false) y.threads), e) stay,
    λ j ne.
        ap view (place_other i j (leaving c false) (place k (resuming c' false) y.threads) ne)
        ∙ woken j,
  )
    where
      woken : (j : ℕ) → view (place k (resuming c' false) y.threads j) ≡ view (y.threads j)
      woken j = elim (ℕ_discrete j k) [
        | yes q ↦ rw (q, place_self k (resuming c' false) y.threads, h) refl
        | no q ↦ ap view (place_other k j (resuming c' false) y.threads q)
      ]
  Step-Client {y} reach (wake_none i {c} lt e _) = (
    i,
    lt,
    rw (place_self i (leaving c false) y.threads, e) stay,
    λ j d. ap view (place_other i j (leaving c false) y.threads d),
  )
