-- ===== src/Rand/Bits.antt =====
-- The exclusive or of numbers, which anode/src/rand.rs mixes its generators with.
use Prim.Native.Nat.{bit_xor, digits, differ, bit_xor-bitwise}
use native.Mathlib.Nat.{pow-suc}
use libmutex.Prelude.{ℕ, zero, suc, ◌/◌, ◌%◌, ◌^◌, ◌<◌, ◌≤◌, ◌≡◌, arith}

-- `n` digits of the exclusive or.
abbrev mix : ℕ → ℕ → ℕ → ℕ
mix n a b = digits (λ y. y) differ n a b

differ-lt : (x y : ℕ) → x < 2 → y < 2 → differ x y < 2
differ-lt zero y p q = q
differ-lt (suc x) zero p q = p
differ-lt (suc x) (suc y) p q = differ-lt x y (omega arith) (omega arith)

differ-zero : (x y : ℕ) → differ x y ≡ 0 → x ≡ y
differ-zero zero y e = omega (arith, e)
differ-zero (suc x) zero e = e
differ-zero (suc x) (suc y) e = omega (arith, differ-zero x y e)

mix-lt : (n k a b : ℕ) → a ≤ n → a < 2 ^ k → b < 2 ^ k → mix n a b < 2 ^ k
mix-lt zero k a b h p q = q
mix-lt (suc n) k zero b h p q = q
mix-lt (suc n) zero (suc a) b h p q = absurd (omega arith)
mix-lt (suc n) (suc k) (suc a) b h p q =
    let twice = pow-suc 2 k in
    let high = mix-lt n k (suc a / 2) (b / 2) (omega arith) (omega arith) (omega arith) in
    omega (arith, high, differ-lt (suc a % 2) (b % 2) (omega arith) (omega arith))

mix-zero : (n a b : ℕ) → a ≤ n → mix n a b ≡ 0 → a ≡ b
mix-zero zero a b h e = omega (arith, e)
mix-zero (suc n) zero b h e = omega (arith, e)
mix-zero (suc n) (suc a) b h e =
    let high = mix-zero n (suc a / 2) (b / 2) (omega arith) (omega (arith, e)) in
    omega (arith, high, differ-zero (suc a % 2) (b % 2) (omega (arith, e)))

pub bit_xor-lt : (k a b : ℕ) → a < 2 ^ k → b < 2 ^ k → bit_xor a b < 2 ^ k
bit_xor-lt k a b p q = omega (arith, bit_xor-bitwise a b, mix-lt a k a b (omega arith) p q)

pub bit_xor-zero : (a b : ℕ) → bit_xor a b ≡ 0 → a ≡ b
bit_xor-zero a b e = mix-zero a a b (omega arith) (omega (arith, e, bit_xor-bitwise a b))
