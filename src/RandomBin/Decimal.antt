-- ===== src/RandomBin/Decimal.antt =====
-- anode/src/bin/random.rs: the decimal numbers that `generate_text` writes and `generate` reads.
use libmutex.Prelude.{
  ℕ, zero, suc, ◌+◌, ◌*◌, ◌/◌, ◌%◌, ◌^◌, ◌<◌, ◌≤◌, ◌≡◌, refl, ◌∙◌, arith, dec_lt, [], ◌∷◌,
}
use native.Mathlib.Nat.{pow-suc}
use libmutex.RandomBin.{Text, ok}
use libmutex.RandomBin.Args.{from_digits, u64_from_str}
use libmutex.RandomBin.Counts.{from_digits-digit, continue-below, u64_from_str-digit}
use libmutex.RandomBin.Output.{digits_onto, to_string}

last_digit :
    (x y : ℕ) (s : Text)
    → x < 2 ^ 64
    → y * 10 + x % 10 ≡ x
    → from_digits y ((b'0' + x % 10) ∷ s) ≡ from_digits x s
last_digit x y s lt e = from_digits-digit y (x % 10) s (omega arith) ∙ rw e (continue-below x s lt)

digits_onto-small : (fuel x : ℕ) (s : Text) → x < 10 → digits_onto (suc fuel) x s ≡ (b'0' + x) ∷ s
unfolding digits_onto
digits_onto-small fuel x s h = ground arith

digits_onto-large :
    (fuel x : ℕ) (s : Text)
    → 10 ≤ x
    → digits_onto (suc fuel) x s ≡ digits_onto fuel (x / 10) ((b'0' + x % 10) ∷ s)
unfolding digits_onto
digits_onto-large fuel x s h = ground arith

from_digits-digits_onto :
    (fuel x : ℕ) (s : Text)
    → x < 10 ^ fuel
    → x < 2 ^ 64
    → from_digits 0 (digits_onto fuel x s) ≡ from_digits x s
unfolding digits_onto
from_digits-digits_onto zero x s h lt = let none_left : x ≡ 0 = omega arith in rw none_left refl
from_digits-digits_onto (suc fuel) x s h lt = elim (dec_lt x 10) [
  | yes small ↦
      let same : 0 * 10 + x ≡ x = omega arith in
      rw (digits_onto-small fuel x s small, from_digits-digit 0 x s small, same)
        (continue-below x s lt)
  | no large ↦ rw (digits_onto-large fuel x s (omega arith)) (
      from_digits-digits_onto fuel (x / 10) ((b'0' + x % 10) ∷ s) (omega (arith, pow-suc 10 fuel))
        (omega arith)
      ∙ last_digit x (x / 10) s lt (omega arith))
]

u64_from_str-digits_onto :
    (fuel x : ℕ) (s : Text)
    → u64_from_str (digits_onto (suc fuel) x s) ≡ from_digits 0 (digits_onto (suc fuel) x s)
unfolding digits_onto
u64_from_str-digits_onto zero x s = elim (dec_lt x 10) [
  | yes small ↦ rw (digits_onto-small 0 x s small) (u64_from_str-digit x s small)
  | no large ↦
      rw (digits_onto-large 0 x s (omega arith)) (u64_from_str-digit (x % 10) s (omega arith))
]
u64_from_str-digits_onto (suc fuel) x s = elim (dec_lt x 10) [
  | yes small ↦ rw (digits_onto-small (suc fuel) x s small) (u64_from_str-digit x s small)
  | no large ↦
      rw (digits_onto-large (suc fuel) x s (omega arith))
        (u64_from_str-digits_onto fuel (x / 10) ((b'0' + x % 10) ∷ s))
]

-- A `u64` that is written in decimal reads back: 20 digits are enough.
pub u64_from_str-to_string : (x : ℕ) → x < 2 ^ 64 → u64_from_str (to_string x) ≡ ok x
unfolding to_string from_digits
u64_from_str-to_string x lt =
    u64_from_str-digits_onto 19 x [] ∙ from_digits-digits_onto 20 x [] (omega arith) lt
