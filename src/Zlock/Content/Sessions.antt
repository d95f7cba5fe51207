-- ===== src/Zlock/Content/Sessions.antt =====
-- anode/src/zlock.rs: what a thread reads through a guard.
use libmutex.Prelude.{ℕ, ◌<◌, ◌≡◌, inl, inr, refl}
use libmutex.Zlock.System.{idle, reader, writer}
use libmutex.Zlock.System as System
use libmutex.Zlock.Implementation.{Implementation, moderator}
use libmutex.Zlock.Exclusion.{exclusion}
use libmutex.Zlock.Content.{
  ZLock, new, deref, HasGuard, operate, assign, assign_owned, Reach, start, later, Session, begin,
  own,
}

module _ (cutoff : ℕ → ℕ) (k : Implementation) {T : Type 0} where
  sync-Reach :
      {n : ℕ} {t : T} {z : ZLock (moderator cutoff k) T}
      → Reach n t z
      → System.Reach (moderator cutoff k) n z.sync
  unfolding new
  sync-Reach start = System.start
  sync-Reach (later r (operate st)) = System.later (sync-Reach r) st
  sync-Reach (later r (assign _ _ _ _)) = sync-Reach r
  sync-Reach (later r (assign_owned _ _)) = sync-Reach r

  Session-Reach :
      {n j : ℕ} {t : T} {y : ZLock (moderator cutoff k) T} {seen : T}
      {z : ZLock (moderator cutoff k) T}
      → Reach n t y
      → j < n
      → Session n j y seen z
      → Reach n t z × HasGuard z j
  Session-Reach r lt (begin h) = (r, h)
  Session-Reach r lt (Session.operate p st h) = (later (Session-Reach r lt p).0 (operate st), h)
  Session-Reach r lt (Session.assign_other i t p ne lt_i e) =
      let (reach, guarded) = Session-Reach r lt p in (later reach (assign i t lt_i e), guarded)
  Session-Reach r lt (Session.assign_owned t p free) =
      let (reach, guarded) = Session-Reach r lt p in (later reach (assign_owned t free), guarded)
  Session-Reach {j} r lt (own t p e) =
      let (reach, guarded) = Session-Reach r lt p in (later reach (assign j t lt e), guarded)

  -- Under each of the seven moderators a thread that has a guard, read or write, reads the data as
  -- they were when it got the guard, or as it has last assigned them itself, for as long as it
  -- keeps the guard and whatever other threads do.
  pub deref-seen :
      {n j : ℕ} {t : T} {y : ZLock (moderator cutoff k) T} {seen : T}
      {z : ZLock (moderator cutoff k) T}
      → Reach n t y
      → j < n
      → Session n j y seen z
      → deref z ≡ seen
  deref-seen r lt (begin h) = refl
  deref-seen r lt (Session.operate p st h) = deref-seen r lt p
  deref-seen {j} r lt (Session.assign_other i t p ne lt_i e) =
      let (reach, guarded) = Session-Reach r lt p in
      let (w, v) = exclusion cutoff k (sync-Reach reach) i j lt_i lt ne e in
      elim guarded [ inl q ↦ absurd (v q) | inr q ↦ absurd (w q) ]
  deref-seen {j} r lt (Session.assign_owned t p free) = elim (Session-Reach r lt p).1 [
    | inl q ↦ absurd cc (q, free j lt)
    | inr q ↦ absurd cc (q, free j lt)
  ]
  deref-seen r lt (own t p e) = refl
