-- ===== src/Completable/Calls.antt =====
-- anode/src/completable.rs: calls of the operations in any interleaving, and what they return.
use libmutex.Prelude.{
  ℕ, ◌+◌, ◌-◌, ◌<◌, ◌≡◌, ◌≢◌, refl, arith, true, Option, none, some, place-each, place-all, total,
  total-place, weight-le-total, weights-le-total, total-zero, ◌⊎◌, inl, inr, Option-cases, ap, sym,
}
use libmutex.Time.{duration_max}
use libmutex.Monitor.{Directive, return, may_finish}
use libmutex.Completable.{
  is_some, begin, Request, complete, complete_exclusive, try_get, Local, completing,
  completing_exclusive, getting, eval, Call, entering, evaluated, returned, System, Move, first,
  repeat, panic, panic_again, finish, unwound, Step, pick, init, Reach, start, later,
}
use libmutex.Completable.Single.{
  flag, taken, IsFor, IsFit, IsSettled, IsSettled-IsFit, eval-IsSettled, eval-IsFor, eval-stable,
  eval-ne-none, is_faulty, IsFit-stable, IsSettled-stable, begin-IsFor, begin-IsFit,
}

module _ {T : Type 0} where
  abbrev pub local_of : Call T → Local T
  local_of (entering l) = l
  local_of (evaluated l _) = l
  local_of (returned l) = l
  local_of (unwound l) = l

  abbrev pub taken_by : Call T → ℕ
  taken_by c = taken (local_of c)

  abbrev pub IsSound : Option T → Call T → Type 0
  IsSound s (entering l) = IsFit s l
  IsSound s (evaluated l d) = IsSettled s l d
  IsSound s (returned l) = IsSettled s l return
  IsSound s (unwound l) = IsFit s l

  IsSound-IsFit : (s : Option T) (c : Call T) → IsSound s c → IsFit s (local_of c)
  IsSound-IsFit s (entering l) h = h
  IsSound-IsFit s (evaluated l d) h = IsSettled-IsFit s l d h
  IsSound-IsFit s (returned l) h = IsSettled-IsFit s l return h
  IsSound-IsFit s (unwound l) h = h

  IsSound-stable :
      (s s' : Option T) (c : Call T)
      → ((v : T) → s ≡ some v → s' ≡ some v)
      → IsSound s c
      → IsSound s' c
  IsSound-stable s s' (entering l) q h = IsFit-stable s s' l q h
  IsSound-stable s s' (evaluated l d) q h = IsSettled-stable s s' l d q h
  IsSound-stable s s' (returned l) q h = IsSettled-stable s s' l return q h
  IsSound-stable s s' (unwound l) q h = IsFit-stable s s' l q h

  returning-IsSettled :
      (s : Option T) (l : Local T) (d : Directive)
      → may_finish d ≡ true
      → IsSettled s l d
      → IsSettled s l return
  returning-IsSettled s (completing val none) d m h = h
  returning-IsSettled s (completing val (some v)) d m h = h
  returning-IsSettled s (completing_exclusive val none) d m h = h
  returning-IsSettled s (completing_exclusive val (some v)) d m h = h
  returning-IsSettled s (getting _) d m h = λ e _. h e m

  -- What a step of one call keeps; `a` counts the values that other calls have taken.
  record Keeps (q : Request T) (a : ℕ) (s : Option T) (c : Call T) (s' : Option T) (c' : Call T)
      : Type 0 where
    pub counted : a + taken_by c' ≡ flag (is_some s')
    pub sound : IsSound s' c'
    pub asked : IsFor q (local_of c')
    pub stable : (v : T) → s ≡ some v → s' ≡ some v

  Move-Keeps :
      (q : Request T) (a : ℕ) {s s' : Option T} {c c' : Call T}
      → Move s c s' c'
      → a + taken_by c ≡ flag (is_some s)
      → IsSound s c
      → IsFor q (local_of c)
      → Keeps q a s c s' c'
  Move-Keeps q a {s} (first t u {l} {r} h) n k f =
      let (n', k') = eval-IsSettled t u l s r a k h n in
      record {
        counted = n';
        sound = k';
        asked = eval-IsFor t u q l s r f h;
        stable = λ v. eval-stable t u l s r v h;
      }
  Move-Keeps q a {s} (repeat t u {l} {d} {r} _ h) n k f =
      let (n', k') = eval-IsSettled t u l s r a (IsSettled-IsFit s l d k) h n in
      record {
        counted = n';
        sound = k';
        asked = eval-IsFor t u q l s r f h;
        stable = λ v. eval-stable t u l s r v h;
      }
  Move-Keeps q a {s} (panic t u h) n k f = record {
    counted = n;
    sound = k;
    asked = f;
    stable = λ v e. e;
  }
  Move-Keeps q a {s} (panic_again t u {l} {d} _ h) n k f = record {
    counted = n;
    sound = IsSettled-IsFit s l d k;
    asked = f;
    stable = λ v e. e;
  }
  Move-Keeps q a {s} (finish {l} {d} may) n k f = record {
    counted = n;
    sound = returning-IsSettled s l d may k;
    asked = f;
    stable = λ v e. e;
  }

  record Inv (n : ℕ) (inner : Option T) (requests : ℕ → Request T) (z : System T) : Type 0 where
    pub counted : total taken_by n z.calls + flag (is_some inner) ≡ flag (is_some z.state)
    pub sound : (i : ℕ) → IsSound z.state (z.calls i)
    pub asked : (i : ℕ) → IsFor (requests i) (local_of (z.calls i))

  Step-Inv :
      {n : ℕ} (inner : Option T) {requests : ℕ → Request T} {y z : System T}
      → Step n y z
      → Inv n inner requests y
      → Inv n inner requests z
  Step-Inv {n} inner {requests} {y} (pick i {s} {p} lt mv) inv =
      let f = y.calls in
      let k =
        Move-Keeps (requests i) (total taken_by n f - taken_by (f i) + flag (is_some inner)) mv
          (omega (arith, weight-le-total taken_by n i f lt, inv.counted)) (inv.sound i)
          (inv.asked i) in
      record {
        counted =
            omega (
              arith,
              k.counted,
              weight-le-total taken_by n i f lt,
              total-place taken_by n i p f lt,
            );
        sound =
            place-all (IsSound s) f i p k.sound
              (λ j. IsSound-stable y.state s (f j) k.stable (inv.sound j));
        asked = place-each (λ j c. IsFor (requests j) (local_of c)) f i p k.asked inv.asked;
      }

  Reach-Inv :
      {n : ℕ} {inner : Option T} {requests : ℕ → Request T} {z : System T}
      → Reach n inner requests z
      → Inv n inner requests z
  unfolding init
  Reach-Inv {n} {inner} {requests} start = record {
    counted = omega (
      arith,
      total-zero taken_by n (λ i. entering (begin (requests i)))
          (λ i. (begin-IsFit (requests i) inner).1),
    );
    sound = λ i. (begin-IsFit (requests i) inner).0;
    asked = λ i. begin-IsFor (requests i);
  }
  Reach-Inv (later r st) = Step-Inv _ st (Reach-Inv r)

  -- In any history of calls the closure of a call panics only if the call is
  -- `complete_exclusive(f)`, where `f` panics when it is called, and has not been called before: not
  -- on `f.take().unwrap()`, nor otherwise.
  pub Reach-never_panics :
      {n : ℕ} {inner : Option T} {requests : ℕ → Request T} {z : System T}
      → Reach n inner requests z
      → (i t u : ℕ)
      → (eval t u (local_of (z.calls i)) z.state ≢ none)
        ⊎ ((requests i ≡ complete_exclusive none)
            × (local_of (z.calls i) ≡ completing_exclusive none (some none)))
  Reach-never_panics {requests} {z} reach i t u =
      elim (Option-cases (eval t u (local_of (z.calls i)) z.state)) [
        | inr (r, e) ↦ inl (λ h. cc (e, h))
        | inl e ↦ inr (
            faulty (requests i) (local_of (z.calls i)) ((Reach-Inv reach).asked i) (
              eval-ne-none t u (local_of (z.calls i)) z.state
                (IsSound-IsFit z.state (z.calls i) ((Reach-Inv reach).sound i)) e))
      ]
    where
      faulty :
          (q : Request T) (l : Local T)
          → IsFor q l
          → is_faulty l ≡ true
          → (q ≡ complete_exclusive none) × (l ≡ completing_exclusive none (some none))
      faulty (complete_exclusive val) (completing_exclusive none (some none)) f h =
          (ap complete_exclusive (sym f), refl)
      faulty (complete val) (completing_exclusive none (some none)) f h = absurd cc
      faulty (try_get d) (completing_exclusive none (some none)) f h = absurd cc
      faulty q (completing_exclusive (some v) f') f h = absurd cc
      faulty q (completing_exclusive none none) f h = absurd cc
      faulty q (completing_exclusive none (some (some v))) f h = absurd cc
      faulty q (completing val kept) f h = absurd cc
      faulty q (getting d) f h = absurd cc

  -- Of two calls of `complete` or `complete_exclusive` at most one has its value taken, and none
  -- if the `Completable` was made with a value.
  pub single_winner :
      {n : ℕ} {inner : Option T} {requests : ℕ → Request T} {z : System T}
      → Reach n inner requests z
      → (i j : ℕ) → i < n
      → j < n
      → i ≢ j
      → taken_by (z.calls i) ≡ 1
      → (taken_by (z.calls j) ≡ 0) × (inner ≡ none)
  single_winner {n} {inner} {z} reach i j lt_i lt_j d h =
      ground (arith, weights-le-total taken_by n i j z.calls lt_i lt_j d, (Reach-Inv reach).counted)

  -- A call of `complete(val)` that has returned has given `None` and the value of the
  -- `Completable` is `val`, or has given back `Some(val)` and there is a value.
  pub complete_lem :
      {n : ℕ} {inner : Option T} {requests : ℕ → Request T} {z : System T}
      → Reach n inner requests z
      → (i : ℕ) (val : T) (l : Local T) → requests i ≡ complete val
      → z.calls i ≡ returned l
      → ((l ≡ completing val none) × (z.state ≡ some val))
        ⊎ ((l ≡ completing val (some val)) × (is_some z.state ≡ true))
  complete_lem {requests} {z} reach i val l q e =
      outcome l (rw (q, e) at ((Reach-Inv reach).asked i)) (rw e at ((Reach-Inv reach).sound i))
    where
      outcome :
          (l : Local T)
          → IsFor (complete val) l
          → IsSettled z.state l return
          → ((l ≡ completing val none) × (z.state ≡ some val))
            ⊎ ((l ≡ completing val (some val)) × (is_some z.state ≡ true))
      outcome (completing x none) f k = inl (rw f refl, rw f at k)
      outcome (completing x (some v)) f k = inr (rw (k.0, f) refl, k.1)
      outcome (completing_exclusive x kept) f k = absurd cc
      outcome (getting d) f k = absurd cc

  -- A call of `complete_exclusive` that has returned has called `f`, whose result is the value
  -- of the `Completable`, or has not called it and there is a value.
  pub complete_exclusive_lem :
      {n : ℕ} {inner : Option T} {requests : ℕ → Request T} {z : System T}
      → Reach n inner requests z
      → (i : ℕ) (val : Option T) (l : Local T) → requests i ≡ complete_exclusive val
      → z.calls i ≡ returned l
      → ((l ≡ completing_exclusive val none) × (z.state ≡ val) × (is_some z.state ≡ true))
        ⊎ ((l ≡ completing_exclusive val (some val)) × (is_some z.state ≡ true))
  complete_exclusive_lem {requests} {z} reach i val l q e =
      outcome l (rw (q, e) at ((Reach-Inv reach).asked i)) (rw e at ((Reach-Inv reach).sound i))
    where
      outcome :
          (l : Local T)
          → IsFor (complete_exclusive val) l
          → IsSettled z.state l return
          → ((l ≡ completing_exclusive val none) × (z.state ≡ val) × (is_some z.state ≡ true))
            ⊎ ((l ≡ completing_exclusive val (some val)) × (is_some z.state ≡ true))
      outcome (completing_exclusive x none) f k = inl (rw f refl, rw f at k.0, k.1)
      outcome (completing_exclusive x (some v)) f k = inr (rw (k.0, f) refl, k.1)
      outcome (completing x kept) f k = absurd cc
      outcome (getting d) f k = absurd cc

  -- Once the wait of `get`, which has no time limit, has returned, there is a value.
  pub get_lem :
      {n : ℕ} {inner : Option T} {requests : ℕ → Request T} {z : System T}
      → Reach n inner requests z
      → (i : ℕ) (l : Local T) → requests i ≡ try_get duration_max
      → z.calls i ≡ returned l
      → is_some z.state ≡ true
  get_lem {requests} {z} reach i l q e =
      outcome l (rw (q, e) at ((Reach-Inv reach).asked i)) (rw e at ((Reach-Inv reach).sound i))
    where
      outcome :
          (l : Local T)
          → IsFor (try_get duration_max) l
          → IsSettled z.state l return
          → is_some z.state ≡ true
      outcome (getting d) f k = k (f refl) refl
      outcome (completing x kept) f k = absurd cc
      outcome (completing_exclusive x kept) f k = absurd cc
