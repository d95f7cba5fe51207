-- ===== src/Chalice/Sessions.antt =====
-- anode/src/chalice.rs: what a history of uses leaves in a chalice.
use libmutex.Prelude.{◌≡◌, refl, arith, Bool, true, false, List, [], ◌∷◌, if◌then◌else◌}
use libmutex.Chalice.{
  Chalice, ok, poisoned, either, borrow, borrow_mut, drop, write, guard_clear_poison,
}

-- One exclusive use: borrow, perhaps clear the mark, write, and drop, perhaps in a panic.
pub record Session (T : Type 0) : Type 0 where
  pub clears : Bool
  pub change : T → T
  pub panics : Bool

module _ {T : Type 0} where
  pub use_once : Session T → Chalice T → Chalice T
  use_once u c =
      let g = either (borrow_mut c) in
      let g' = if u.clears then guard_clear_poison g else g in drop u.panics (write u.change g')

  pub use_all : List (Session T) → Chalice T → Chalice T
  use_all [] c = c
  use_all (u ∷ us) c = use_all us (use_once u c)

  -- The mark that a history leaves: a panic sets it, clearing takes it away.
  pub mark_after : List (Session T) → Bool → Bool
  mark_after [] b = b
  mark_after (u ∷ us) b = mark_after us (if u.panics then true else if u.clears then false else b)

  pub changed_by : List (Session T) → T → T
  changed_by [] t = t
  changed_by (u ∷ us) t = changed_by us (u.change t)

  use_once-poisoned :
      (u : Session T) (c : Chalice T)
      → (use_once u c).poisoned
        ≡ (if u.panics then true else if u.clears then false else c.poisoned)
  unfolding use_once borrow_mut either drop write guard_clear_poison
  use_once-poisoned u c = ground arith

  use_once-inner : (u : Session T) (c : Chalice T) → (use_once u c).inner ≡ u.change c.inner
  unfolding use_once borrow_mut either drop write guard_clear_poison
  use_once-inner u c = ground arith

  -- After any history of exclusive uses a shared borrow gives the data with every write made,
  -- panics or not, and reports poison exactly if a panic has not been cleared since.
  pub borrow-use_all :
      (us : List (Session T)) (c : Chalice T)
      → borrow (use_all us c) ≡ (
          if mark_after us c.poisoned
          then poisoned (changed_by us c.inner)
          else ok (changed_by us c.inner))
  unfolding borrow use_all mark_after changed_by
  borrow-use_all [] c = refl
  borrow-use_all (u ∷ us) c =
      rw (borrow-use_all us (use_once u c), use_once-poisoned u c, use_once-inner u c) refl
