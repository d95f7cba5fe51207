-- ===== src/Tests/Completables.antt =====
-- Witnesses of the theorems on completables, at a short run of four calls.
use libmutex.Prelude.{
  ℕ, zero, suc, ◌≡◌, ◌≢◌, ◌⊎◌, refl, arith, Option, none, some, true, ℕ_discrete,
}
use libmutex.Time.{duration_max}
use libmutex.Deadline.{lazy_after, remaining}
use libmutex.Completable.{
  is_some, Local, Request, complete, complete_exclusive, try_get, completing, completing_exclusive,
  begin, eval, System, pick, first, finish, init, Reach, start, later,
}
use libmutex.Completable.Calls.{
  local_of, taken_by, Reach-never_panics, single_winner, complete_lem, complete_exclusive_lem,
}

abbrev requests : ℕ → Request ℕ
requests zero = complete 5
requests (suc zero) = complete_exclusive (some 7)
requests (suc (suc zero)) = try_get duration_max
requests _ = complete_exclusive none

-- Calls 0, 1 and 2 are made and return, in this order.
abbrev three_returned : (z : System ℕ) × Reach 4 none requests z
unfolding ℕ_discrete init begin eval lazy_after remaining
three_returned = (
  _,
  later
      (later
        (later
          (later
            (later (later start (pick 0 (omega arith) (first 0 0 refl)))
              (pick 0 (omega arith) (finish refl)))
            (pick 1 (omega arith) (first 1 1 refl)))
          (pick 1 (omega arith) (finish refl)))
        (pick 2 (omega arith) (first 2 2 refl)))
      (pick 2 (omega arith) (finish refl)),
)

Reach-never_panics_example :
    (eval 3 3 (local_of (three_returned.0.calls 3)) three_returned.0.state ≢ none)
    ⊎ ((requests 3 ≡ complete_exclusive none)
        × (local_of (three_returned.0.calls 3) ≡ completing_exclusive none (some none)))
unfolding ℕ_discrete init begin eval lazy_after remaining
Reach-never_panics_example = Reach-never_panics three_returned.1 3 3 3

single_winner_example : (taken_by (three_returned.0.calls 1) ≡ 0) × (◌≡◌ {A = Option ℕ} none none)
unfolding ℕ_discrete init begin eval lazy_after remaining
single_winner_example =
    single_winner three_returned.1 0 1 (omega arith) (omega arith) (omega arith) refl

-- The local variables with which calls 0 and 1 return.
abbrev kept_none : Local ℕ
kept_none = completing 5 none

abbrev kept_seven : Local ℕ
kept_seven = completing_exclusive (some 7) (some (some 7))

complete_lem_example :
    ((kept_none ≡ completing 5 none) × (three_returned.0.state ≡ some 5))
    ⊎ ((kept_none ≡ completing 5 (some 5)) × (is_some three_returned.0.state ≡ true))
unfolding ℕ_discrete init begin eval lazy_after remaining
complete_lem_example = complete_lem three_returned.1 0 5 kept_none refl refl

complete_exclusive_lem_example :
    ((kept_seven ≡ completing_exclusive (some 7) none)
      × (three_returned.0.state ≡ some 7)
      × (is_some three_returned.0.state ≡ true))
    ⊎ ((kept_seven ≡ completing_exclusive (some 7) (some (some 7)))
        × (is_some three_returned.0.state ≡ true))
unfolding ℕ_discrete init begin eval lazy_after remaining
complete_exclusive_lem_example =
    complete_exclusive_lem three_returned.1 1 (some 7) kept_seven refl refl
