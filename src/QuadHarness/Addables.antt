-- ===== src/QuadHarness/Addables.antt =====
-- anode-bench/src/quad_harness.rs: the numbers that the harness counts with. They are not negative
-- there, and `none` is an overflow.
use libmutex.Prelude.{ℕ, ◌+◌, ◌^◌, refl, arith, Option, none, some, ltb, if◌then◌else◌, ◌>>=◌}
use libmutex.QuadHarness.Threads.{Addable, AddableLaws}

-- `self + amount` on an `i64`.
unfoldable pub add_i64 : ℕ → ℕ → Option ℕ
add_i64 self amount = if ltb (self + amount) (2 ^ 63) then some (self + amount) else none

abbrev pub i64 : Addable ℕ
i64 = record { initial = 0; get = λ self. self; add = add_i64; limit = 2 ^ 63 }

pub i64-AddableLaws : AddableLaws i64
unfolding add_i64
i64-AddableLaws = record {
  get-initial = refl;
  get-add = λ v v' amount h. ground arith;
  add-none = λ v amount h. ground arith;
}

pub record BoxedInt : Type 0 where
  pub value : ℕ

-- `BoxedInt::new`
abbrev pub new : ℕ → BoxedInt
new v = record { value = v }

unfoldable pub add_boxed : BoxedInt → ℕ → Option BoxedInt
unfolding add_i64
add_boxed self amount = add_i64 self.value amount >>= λ sum. some (new sum)

abbrev pub boxed_int : Addable BoxedInt
boxed_int = record { initial = new 0; get = λ self. self.value; add = add_boxed; limit = 2 ^ 63 }

pub boxed_int-AddableLaws : AddableLaws boxed_int
unfolding add_boxed
boxed_int-AddableLaws = record {
  get-initial = refl;
  get-add = λ v v' amount h. ground arith;
  add-none = λ v amount h. ground arith;
}
