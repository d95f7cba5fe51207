-- ===== src/RandomBin/Counts.antt =====
-- anode/src/bin/random.rs: what a count with letters means.
use libmutex.Prelude.{
  ℕ, zero, suc, ◌+◌, ◌*◌, ◌^◌, ◌<◌, ◌≤◌, ◌≡◌, refl, sym, arith, dec_lt, List, [], ◌∷◌, ◌++◌, map,
  ltb, if◌then◌else◌,
}
use libmutex.RandomBin.{Text, codes, Result, ok, err, IntErrorKind, pos_overflow}
use libmutex.RandomBin.Args.{replace, expand, push_digit, from_digits, u64_from_str, parse_count}

-- The symbols of a count: digits, and letters for powers of ten.
pub data Symbol : Type 0 where
  digit : (d : ℕ) → d < 10 → Symbol
  kilo : Symbol
  million : Symbol
  billion : Symbol
  giga : Symbol
  trillion : Symbol
  quadrillion : Symbol
  peta : Symbol

unfoldable pub spell : Symbol → ℕ
spell (digit d _) = b'0' + d
spell kilo = b'K'
spell million = b'M'
spell billion = b'B'
spell giga = b'G'
spell trillion = b'T'
spell quadrillion = b'Q'
spell peta = b'P'

-- The number so far, after one more symbol.
unfoldable pub scale : ℕ → Symbol → ℕ
scale x (digit d _) = x * 10 + d
scale x kilo = x * 10 ^ 3
scale x million = x * 10 ^ 6
scale x billion = x * 10 ^ 9
scale x giga = x * 10 ^ 9
scale x trillion = x * 10 ^ 12
scale x quadrillion = x * 10 ^ 15
scale x peta = x * 10 ^ 15

unfoldable pub value : ℕ → List Symbol → ℕ
value x [] = x
value x (y ∷ ys) = value (scale x y) ys

-- A result of `u64`.
unfoldable pub fit : ℕ → Result IntErrorKind ℕ
fit x = if ltb x (2 ^ 64) then ok x else err pos_overflow

replace-other :
    (k : ℕ) (to : Text) (d : ℕ) (s : Text)
    → d < 10
    → b'9' < k
    → replace k to ((b'0' + d) ∷ s) ≡ (b'0' + d) ∷ replace k to s
replace-other k to d s h lt = ground arith

expand-digit : (d : ℕ) (s : Text) → d < 10 → expand ((b'0' + d) ∷ s) ≡ (b'0' + d) ∷ expand s
unfolding expand
expand-digit d s h =
    rw
      (
        replace-other b'K' _ d s h (omega arith),
        replace-other b'M' _ d _ h (omega arith),
        replace-other b'B' _ d _ h (omega arith),
        replace-other b'G' _ d _ h (omega arith),
        replace-other b'T' _ d _ h (omega arith),
        replace-other b'Q' _ d _ h (omega arith),
        replace-other b'P' _ d _ h (omega arith),
      )
      refl

-- The number `x` with `n` zeros after it.
unfoldable times : ℕ → ℕ → ℕ
times zero x = x
times (suc n) x = times n (x * 10 + 0)

abbrev zeros : ℕ → Text
zeros zero = []
zeros (suc n) = b'0' ∷ zeros n

times-ge : (n x : ℕ) → x ≤ times n x
unfolding times
times-ge zero x = omega arith
times-ge (suc n) x = omega (arith, times-ge n (x * 10 + 0))

scale-ge : (y : Symbol) (x : ℕ) → x ≤ scale x y
unfolding scale
scale-ge (digit d _) x = omega arith
scale-ge kilo x = omega arith
scale-ge million x = omega arith
scale-ge billion x = omega arith
scale-ge giga x = omega arith
scale-ge trillion x = omega arith
scale-ge quadrillion x = omega arith
scale-ge peta x = omega arith

value-ge : (ys : List Symbol) (x : ℕ) → x ≤ value x ys
unfolding value
value-ge [] x = omega arith
value-ge (y ∷ ys) x = omega (arith, scale-ge y x, value-ge ys (scale x y))

-- What is read after a number that fits, or the error.
abbrev pub continue : ℕ → Text → Result IntErrorKind ℕ
continue x s = if ltb x (2 ^ 64) then from_digits x s else err pos_overflow

pub from_digits-digit :
    (x d : ℕ) (s : Text) → d < 10 → from_digits x ((b'0' + d) ∷ s) ≡ continue (x * 10 + d) s
unfolding push_digit from_digits
from_digits-digit x d s h = ground arith

continue-above : (x : ℕ) (s : Text) → 2 ^ 64 ≤ x → continue x s ≡ err pos_overflow
continue-above x s h = ground arith

pub continue-below : (x : ℕ) (s : Text) → x < 2 ^ 64 → continue x s ≡ from_digits x s
continue-below x s h = ground arith

continue-zeros : (n x : ℕ) (s : Text) → continue x (zeros n ++ s) ≡ continue (times n x) s
unfolding times
continue-zeros zero x s = refl
continue-zeros (suc n) x s = elim (dec_lt x (2 ^ 64)) [
  | yes lt ↦
      rw
        (
          continue-below x (b'0' ∷ (zeros n ++ s)) lt,
          from_digits-digit x 0 (zeros n ++ s) (omega arith),
        )
        (continue-zeros n (x * 10 + 0) s)
  | no over ↦
      rw
        (
          continue-above x (b'0' ∷ (zeros n ++ s)) (omega arith),
          continue-above (times n (x * 10 + 0)) s (omega (arith, times-ge n (x * 10 + 0))),
        )
        refl
]

-- A letter that becomes `n` zeros.
zeros-scaled : (n x y : ℕ) (s : Text) → times n x ≡ y → continue x (zeros n ++ s) ≡ continue y s
zeros-scaled n x y s e = rw (sym e) (continue-zeros n x s)

continue-symbol :
    (y : Symbol) (x : ℕ) (s : Text)
    → continue x (expand (spell y ∷ s)) ≡ continue (scale x y) (expand s)
unfolding spell scale expand times
continue-symbol (digit d h) x s = elim (dec_lt x (2 ^ 64)) [
  | yes lt ↦ rw (continue-below x _ lt, expand-digit d s h) (from_digits-digit x d (expand s) h)
  | no over ↦
      rw
        (
          continue-above x (expand (spell (digit d h) ∷ s)) (omega arith),
          continue-above (x * 10 + d) (expand s) (omega arith),
        )
        refl
]
continue-symbol kilo x s = zeros-scaled 3 x (x * 10 ^ 3) (expand s) (omega arith)
continue-symbol million x s = zeros-scaled 6 x (x * 10 ^ 6) (expand s) (omega arith)
continue-symbol billion x s = zeros-scaled 9 x (x * 10 ^ 9) (expand s) (omega arith)
continue-symbol giga x s = zeros-scaled 9 x (x * 10 ^ 9) (expand s) (omega arith)
continue-symbol trillion x s = zeros-scaled 12 x (x * 10 ^ 12) (expand s) (omega arith)
continue-symbol quadrillion x s = zeros-scaled 15 x (x * 10 ^ 15) (expand s) (omega arith)
continue-symbol peta x s = zeros-scaled 15 x (x * 10 ^ 15) (expand s) (omega arith)

continue-value : (ys : List Symbol) (x : ℕ) → continue x (expand (map spell ys)) ≡ fit (value x ys)
unfolding value fit expand from_digits
continue-value [] x = refl
continue-value (y ∷ ys) x = rw (continue-symbol y x (map spell ys)) (continue-value ys (scale x y))

pub u64_from_str-digit :
    (d : ℕ) (s : Text) → d < 10 → u64_from_str ((b'0' + d) ∷ s) ≡ from_digits 0 ((b'0' + d) ∷ s)
unfolding u64_from_str
u64_from_str-digit d [] h = refl
u64_from_str-digit d (c ∷ s) h = ground arith

u64_from_str-expand :
    (y : Symbol) (s : Text)
    → u64_from_str (expand (spell y ∷ s)) ≡ from_digits 0 (expand (spell y ∷ s))
unfolding spell expand
u64_from_str-expand (digit d h) s = rw (expand-digit d s h) (u64_from_str-digit d (expand s) h)
u64_from_str-expand kilo s = u64_from_str-digit 0 (codes "00" ++ expand s) (omega arith)
u64_from_str-expand million s = u64_from_str-digit 0 (codes "00000" ++ expand s) (omega arith)
u64_from_str-expand billion s = u64_from_str-digit 0 (codes "00000000" ++ expand s) (omega arith)
u64_from_str-expand giga s = u64_from_str-digit 0 (codes "00000000" ++ expand s) (omega arith)
u64_from_str-expand trillion s =
    u64_from_str-digit 0 (codes "00000000000" ++ expand s) (omega arith)
u64_from_str-expand quadrillion s =
    u64_from_str-digit 0 (codes "00000000000000" ++ expand s) (omega arith)
u64_from_str-expand peta s = u64_from_str-digit 0 (codes "00000000000000" ++ expand s) (omega arith)

-- A count of at least one symbol, digits and letters in any order, is read as the number that comes from 0 by taking
-- each digit in and multiplying for each letter by its power of ten, if that is below 2 ^ 64, and else
-- as an overflow.
pub parse_count-value :
    (y : Symbol) (ys : List Symbol) → parse_count (map spell (y ∷ ys)) ≡ fit (value 0 (y ∷ ys))
parse_count-value y ys = rw (u64_from_str-expand y (map spell ys)) (continue-value (y ∷ ys) 0)
