-- ===== src/QuadHarness/Counter.antt =====
-- anode-bench/src/quad_harness.rs: what one step of a thread keeps, and how many additions it has
-- made.
use libmutex.Prelude.{ℕ, ◌+◌, ◌-◌, ◌≤◌, ◌≡◌, arith, Bool, true, false, some, ltb, ◌&&◌}
use libmutex.Zlock.Moderator.{Kind}
use libmutex.Zlock.System.{Status, reader, writer, source}
use libmutex.Completable.{is_some}
use libmutex.QuadHarness.Spin.{spin_a_while}
use libmutex.QuadHarness.Threads.{
  Addable, ExtendedOptions, Role, reading, writing, downgrading, upgrading, Phase, head, acquiring,
  checking, loading, adding, converting, offering, trying, dropping, returned, panicked, Thread,
  act, calls, after_add, is_writer, is_busy,
}

abbrev pub flag : Bool → ℕ
flag true = 1
flag false = 0

abbrev pub is_dropping : {T : Type 0} → Phase T → Bool
is_dropping dropping = true
is_dropping _ = false

-- Has a thread that has converted its guard, or has no more to do, made its addition.
abbrev pub is_after_add : {T : Type 0} → Phase T → Bool
is_after_add converting = true
is_after_add checking = true
is_after_add dropping = true
is_after_add _ = false

-- The additions that a thread has made.
abbrev pub additions_at : {T : Type 0} → Role → Phase T → ℕ → ℕ → ℕ
additions_at reading phase iterations missed = 0
additions_at writing phase iterations missed = iterations + flag (is_dropping phase)
additions_at downgrading phase iterations missed = iterations + flag (is_after_add phase)
additions_at upgrading phase iterations missed = iterations + flag (is_dropping phase) - missed

abbrev pub additions : {T : Type 0} → Thread T → ℕ
additions t = additions_at t.role t.phase t.iterations t.missed_upgrades

-- Which threads ever add, and which ever check.
abbrev pub adds : Role → Bool
adds reading = false
adds _ = true

abbrev pub checks : Role → Bool
checks writing = false
checks _ = true

abbrev pub HasGuard : {L : Type 0} → Status L → Type 0
HasGuard reader = Unit
HasGuard writer = Unit
HasGuard _ = ⊥

-- The interval is not 0, by which the code divides, and no spin overflows its `u32`.
abbrev pub is_calm : ExtendedOptions → Bool
is_calm ext =
    ltb 0 ext.time_check_interval
    && is_some (spin_a_while ext.spin_inside_critical)
    && is_some (spin_a_while ext.spin_outside_critical)

-- What a thread has of the lock, by its phase.
abbrev pub Holds :
    {L T : Type 0} → ExtendedOptions → Addable T → T → Status L → Role → Phase T → Type 0
Holds ext a content p role checking = HasGuard p × (checks role ≡ true)
Holds ext a content p role loading = (is_writer p ≡ true) × (adds role ≡ true)
Holds ext a content p role (adding v) = (is_writer p ≡ true) × (v ≡ content) × (adds role ≡ true)
Holds ext a content p role converting = role ≡ downgrading
Holds ext a content p role offering = role ≡ upgrading
Holds ext a content p role trying = role ≡ upgrading
Holds ext a content p role panicked = is_calm ext && ltb (a.get content + 1) a.limit ≡ false
Holds ext a content p role _ = Unit

pub calls-source :
    {L T : Type 0} (ext : ExtendedOptions) (p : Status L) (role : Role) (phase phase' : Phase T)
    (k : Kind) (d : ℕ)
    → calls ext p role phase ≡ some (k, d, phase')
    → p ≡ source k
unfolding calls
calls-source ext p role acquiring phase' k d h = ground arith
calls-source ext p role converting phase' k d h = ground arith
calls-source ext p role offering phase' k d h = ground arith
calls-source ext p role dropping phase' k d h = ground arith
calls-source ext p role head phase' k d h = absurd cc
calls-source ext p role checking phase' k d h = absurd cc
calls-source ext p role loading phase' k d h = absurd cc
calls-source ext p role (adding v) phase' k d h = absurd cc
calls-source ext p role trying phase' k d h = absurd cc
calls-source ext p role returned phase' k d h = absurd cc
calls-source ext p role panicked phase' k d h = ground arith

-- What a step makes of the variables of a thread.
pub record Keeps {L T : Type 0} (ext : ExtendedOptions) (a : Addable T) (content : T) (p : Status L)
    (t t' : Thread T) : Type 0 where
  pub same_role : t'.role ≡ t.role
  pub holds : Holds ext a content p t'.role t'.phase
  pub seen : t'.last_val ≤ a.get content
  pub missed : t'.missed_upgrades ≤ t'.iterations + flag (is_dropping t'.phase)
  pub same_additions : additions t' ≡ additions t

module _ {L T : Type 0} (a : Addable T) (ext : ExtendedOptions) (running : Bool) (content : T)
    (p : Status L) where
  pub act-Keeps :
      (t t' : Thread T) (phase : Phase T)
      → t.phase ≡ phase
      → act a ext running content p phase t ≡ some t'
      → Holds ext a content p t.role phase
      → t.last_val ≤ a.get content
      → t.missed_upgrades ≤ t.iterations + flag (is_dropping phase)
      → Keeps ext a content p t t'
  unfolding act
  act-Keeps t t' head e h held seen missed = ground arith
  act-Keeps t t' acquiring e h held seen missed = ground arith
  act-Keeps t t' checking e h held seen missed = ground arith
  act-Keeps t t' loading e h held seen missed = ground arith
  act-Keeps t t' converting e h held seen missed = ground arith
  act-Keeps t t' trying e h held seen missed = ground arith
  act-Keeps t t' dropping e h held seen missed = ground arith
  act-Keeps t t' (adding v) e h held seen missed = absurd cc
  act-Keeps t t' offering e h held seen missed = absurd cc
  act-Keeps t t' returned e h held seen missed = absurd cc
  act-Keeps t t' panicked e h held seen missed = absurd cc

-- What is true of a thread and its status.
pub record Sound {L T : Type 0} (ext : ExtendedOptions) (a : Addable T) (content : T) (p : Status L)
    (t : Thread T) : Type 0 where
  pub holds : Holds ext a content p t.role t.phase
  pub seen : t.last_val ≤ a.get content
  pub missed : t.missed_upgrades ≤ t.iterations + flag (is_dropping t.phase)

module _ {L T : Type 0} (ext : ExtendedOptions) (a : Addable T) where
  pub Keeps-Sound :
      {content : T} {p : Status L} {t t' : Thread T}
      → Keeps ext a content p t t'
      → Sound ext a content p t'
  Keeps-Sound k = record { holds = k.holds; seen = k.seen; missed = k.missed }

  pub calls-Keeps :
      (content : T) (p p' : Status L) (t : Thread T) (k : Kind) (d : ℕ) (phase phase' : Phase T)
      → t.phase ≡ phase
      → calls ext p t.role phase ≡ some (k, d, phase')
      → Sound ext a content p t
      → Keeps ext a content p' t (record t { phase = phase' })
  unfolding calls
  calls-Keeps content p p' t k d acquiring phase' e h s = ground (arith, s.holds, s.seen, s.missed)
  calls-Keeps content p p' t k d converting phase' e h s = ground (arith, s.holds, s.seen, s.missed)
  calls-Keeps content p p' t k d offering phase' e h s = ground (arith, s.holds, s.seen, s.missed)
  calls-Keeps content p p' t k d dropping phase' e h s = ground (arith, s.holds, s.seen, s.missed)
  calls-Keeps content p p' t k d head phase' e h s = absurd cc
  calls-Keeps content p p' t k d checking phase' e h s = absurd cc
  calls-Keeps content p p' t k d loading phase' e h s = absurd cc
  calls-Keeps content p p' t k d (adding v) phase' e h s = absurd cc
  calls-Keeps content p p' t k d trying phase' e h s = absurd cc
  calls-Keeps content p p' t k d returned phase' e h s = absurd cc
  calls-Keeps content p p' t k d panicked phase' e h s = ground (arith, s.holds, s.seen, s.missed)

  busy-Holds :
      (content : T) (p p' : Status L) (role : Role) (phase : Phase T)
      → is_busy p ≡ true
      → Holds ext a content p role phase
      → Holds ext a content p' role phase
  busy-Holds content p p' role head b h = h
  busy-Holds content p p' role acquiring b h = h
  busy-Holds content p p' role checking b h = absurd (ground arith)
  busy-Holds content p p' role loading b h = absurd (ground arith)
  busy-Holds content p p' role (adding v) b h = absurd (ground arith)
  busy-Holds content p p' role converting b h = h
  busy-Holds content p p' role offering b h = h
  busy-Holds content p p' role trying b h = h
  busy-Holds content p p' role dropping b h = h
  busy-Holds content p p' role returned b h = h
  busy-Holds content p p' role panicked b h = h

  other-Holds :
      (content content' : T) (p : Status L) (role : Role) (phase : Phase T)
      → is_writer p ≡ false
      → a.get content ≤ a.get content'
      → Holds ext a content p role phase
      → Holds ext a content' p role phase
  other-Holds content content' p role head b more h = h
  other-Holds content content' p role acquiring b more h = h
  other-Holds content content' p role checking b more h = h
  other-Holds content content' p role loading b more h = h
  other-Holds content content' p role (adding v) b more h = absurd cc
  other-Holds content content' p role converting b more h = h
  other-Holds content content' p role offering b more h = h
  other-Holds content content' p role trying b more h = h
  other-Holds content content' p role dropping b more h = h
  other-Holds content content' p role returned b more h = h
  other-Holds content content' p role panicked b more h = ground arith

  -- The status of a thread in an operation of the lock may change to any other.
  pub busy-Sound :
      (content : T) (p p' : Status L) (t : Thread T)
      → is_busy p ≡ true
      → Sound ext a content p t
      → Sound ext a content p' t
  busy-Sound content p p' t b s = record {
    holds = busy-Holds content p p' t.role t.phase b s.holds;
    seen = s.seen;
    missed = s.missed;
  }

  -- A thread without write access does not see the content change.
  pub other-Sound :
      (content content' : T) (p : Status L) (t : Thread T)
      → is_writer p ≡ false
      → a.get content ≤ a.get content'
      → Sound ext a content p t
      → Sound ext a content' p t
  other-Sound content content' p t b more s = record {
    holds = other-Holds content content' p t.role t.phase b more s.holds;
    seen = omega (arith, s.seen);
    missed = s.missed;
  }

  pub store-Sound :
      (content v v' : T) (p : Status L) (t : Thread T)
      → t.phase ≡ adding v
      → a.get v' ≡ a.get v + 1
      → Sound ext a content p t
      → (a.get v' ≡ a.get content + 1)
        × (is_writer p ≡ true)
        × Sound ext a v' p (record t { phase = after_add t.role })
        × (additions (record t { phase = after_add t.role }) ≡ additions t + 1)
  store-Sound content v v' p t e more s =
      let held : Holds ext a content p t.role (adding v) = rw e at s.holds in
      ground (arith, held, e, s.seen, s.missed)

  pub overflow-Keeps :
      (content v : T) (p : Status L) (t : Thread T)
      → t.phase ≡ adding v
      → a.limit ≤ a.get v + 1
      → Sound ext a content p t
      → Sound ext a content p (record t { phase = panicked })
        × (additions (record t { phase = panicked }) ≡ additions t)
  overflow-Keeps content v p t e more s =
      let held : Holds ext a content p t.role (adding v) = rw e at s.holds in
      ground (arith, held, e, s.seen, s.missed)
