-- ===== src/InfIterator.antt =====
-- anode/src/inf_iterator.rs: iterators that never end. An iterator is a state with a function that
-- returns the next item and the new state; `none` is a panic.
use native.Mathlib.Nat.{add-mod_left}
use libmutex.Prelude.{
  ℕ, zero, suc, ◌+◌, ◌-◌, ◌%◌, ◌^◌, ◌<◌, ◌≤◌, ◌≡◌, arith, Option, none, some, ◌==◌, if◌then◌else◌,
  ◌>>=◌,
}

-- `BoundedIterator::next`, from the `next` of the unbounded iterator.
unfoldable pub bounded_next : {I T : Type 0} → (I → T × I) → I → Option T × I
bounded_next next it = let (item, it') = next it in (some item, it')

-- `Successor for u64`
unfoldable pub successor : ℕ → Option ℕ
successor self = if self == 2 ^ 64 - 1 then none else some (self + 1)

pub record RangeCycle : Type 0 where
  pub start : ℕ
  pub end : ℕ
  pub item : ℕ

unfoldable pub starting_at : ℕ → ℕ → ℕ → RangeCycle
starting_at start end item = record { start = start; end = end; item = item }

unfoldable pub new : ℕ → ℕ → RangeCycle
unfolding starting_at
new start end = starting_at start end start

-- `RangeCycle::next`
unfoldable pub next : RangeCycle → Option (ℕ × RangeCycle)
unfolding successor
next r = do
  let current = r.item
  after ← successor current
  some (current, record r { item = if after == r.end then r.start else after })

-- The `k`-th call of `next`.
pub nth_next : ℕ → RangeCycle → Option ℕ
nth_next zero r = do (item, r') ← next r; some item
nth_next (suc k) r = do (item, r') ← next r; nth_next k r'

-- `k` steps on from `i` within `start..end`, going round.
pub cycled : ℕ → ℕ → ℕ → ℕ → ℕ
cycled start end i k = start + (i - start + k) % (end - start)

cycled-zero : (start end i : ℕ) → start ≤ i → i < end → cycled start end i 0 ≡ i
unfolding cycled
cycled-zero start end i h k = grind arith

cycled-suc :
    (start end i k : ℕ)
    → start ≤ i
    → i + 1 < end
    → cycled start end i (suc k) ≡ cycled start end (i + 1) k
unfolding cycled
cycled-suc start end i k h q = let e : i - start + suc k ≡ i + 1 - start + k = omega arith in rw e

cycled-wrap :
    (start end i k : ℕ)
    → start ≤ i
    → i + 1 ≡ end
    → cycled start end i (suc k) ≡ cycled start end start k
unfolding cycled
cycled-wrap start end i k h q =
    let e : i - start + suc k ≡ end - start + k = omega arith in
    let f : start - start + k ≡ k = omega arith in rw (e, f) (rw (add-mod_left (end - start) k))

-- The items of a cycle over a range that is not empty go up by one and start again at `start`
-- where they would reach `end`; no call panics.
pub nth_next-cycled :
    (k : ℕ) (r : RangeCycle)
    → r.start ≤ r.item
    → r.item < r.end
    → r.end < 2 ^ 64
    → nth_next k r ≡ some (cycled r.start r.end r.item k)
unfolding nth_next next
nth_next-cycled zero r h p q = ground (arith, cycled-zero r.start r.end r.item h p)
nth_next-cycled (suc k) r h p q = ground (
  arith,
  cycled-suc r.start r.end r.item k,
  cycled-wrap r.start r.end r.item k,
  nth_next-cycled k (record r { item = r.item + 1 }),
  nth_next-cycled k (record r { item = r.start }),
)
