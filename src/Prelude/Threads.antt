-- ===== src/Prelude/Threads.antt =====
-- Threads are numbered; a thread pool is a function from numbers to what each thread is doing.
-- `total w n f` adds up a weight over the first `n` threads.
use Prim.Native.Nat.{ℕ, zero, suc, ◌+◌, ◌≤◌, ◌<◌}
use mathlib.Core.Path.{◌≡◌, refl, sym, subst}
use mathlib.Core.Logic.{◌≢◌, ite, if_pos, if_neg}
use native.Mathlib.Decide.{dec_lt, ℕ_discrete}
use native.Mathlib.Omega.{arith}

module _ {ℓ} {A : Type ℓ} where
  -- Thread `i` is now at `a`.
  abbrev pub place : ℕ → A → (ℕ → A) → ℕ → A
  place i a f j = ite (ℕ_discrete j i) a (f j)

  pub place_self : (i : ℕ) (a : A) (f : ℕ → A) → place i a f i ≡ a
  place_self i a f = if_pos (ℕ_discrete i i) refl a (f i)

  pub place_other : (i j : ℕ) (a : A) (f : ℕ → A) → j ≢ i → place i a f j ≡ f j
  place_other i j a f d = if_neg (ℕ_discrete j i) d a (f j)

  unfoldable pub total : (A → ℕ) → ℕ → (ℕ → A) → ℕ
  total w zero f = 0
  total w (suc n) f = w (f n) + total w n f

  total-place_above :
      (w : A → ℕ) (n i : ℕ) (a : A) (f : ℕ → A) → n ≤ i → total w n (place i a f) ≡ total w n f
  unfolding total
  total-place_above w zero i a f h = refl
  total-place_above w (suc n) i a f h = ground (arith, total-place_above w n i a f)

  pub total-place :
      (w : A → ℕ) (n i : ℕ) (a : A) (f : ℕ → A)
      → i < n
      → total w n (place i a f) + w (f i) ≡ w a + total w n f
  unfolding total
  total-place w zero i a f h = absurd (omega arith)
  total-place w (suc n) i a f h = elim (dec_lt i n) [
    | yes low ↦ ground (arith, total-place w n i a f low)
    | no top ↦ ground (arith, total-place_above w n i a f)
  ]

  pub weight-le-total : (w : A → ℕ) (n i : ℕ) (f : ℕ → A) → i < n → w (f i) ≤ total w n f
  unfolding total
  weight-le-total w zero i f h = absurd (omega arith)
  weight-le-total w (suc n) i f h = ground (arith, weight-le-total w n i f)

  -- Two different threads count separately.
  pub weights-le-total :
      (w : A → ℕ) (n i j : ℕ) (f : ℕ → A) → i < n → j < n → i ≢ j → w (f i) + w (f j) ≤ total w n f
  unfolding total
  weights-le-total w zero i j f h k d = absurd (omega arith)
  weights-le-total w (suc n) i j f h k d =
      ground (arith, weight-le-total w n i f, weight-le-total w n j f, weights-le-total w n i j f)

  pub total-zero_below :
      (w : A → ℕ) (n : ℕ) (f : ℕ → A) → ((i : ℕ) → i < n → w (f i) ≡ 0) → total w n f ≡ 0
  unfolding total
  total-zero_below w zero f h = refl
  total-zero_below w (suc n) f h =
      omega (arith, h n (omega arith), total-zero_below w n f (λ i lt. h i (omega arith)))

  pub total-zero : (w : A → ℕ) (n : ℕ) (f : ℕ → A) → ((i : ℕ) → w (f i) ≡ 0) → total w n f ≡ 0
  total-zero w n f h = total-zero_below w n f (λ i _. h i)

  pub total-le : (w : A → ℕ) (n : ℕ) (f : ℕ → A) → ((i : ℕ) → w (f i) ≤ 1) → total w n f ≤ n
  unfolding total
  total-le w zero f h = omega arith
  total-le w (suc n) f h = omega (arith, h n, total-le w n f h)

  -- Only the weights matter.
  pub total-congr :
      (w : A → ℕ) (n : ℕ) (f g : ℕ → A) → ((i : ℕ) → w (f i) ≡ w (g i)) → total w n f ≡ total w n g
  unfolding total
  total-congr w zero f g h = refl
  total-congr w (suc n) f g h = omega (arith, h n, total-congr w n f g h)

  -- A sum that is not 0 has a term that is not.
  pub total-positive :
      (w : A → ℕ) (n : ℕ) (f : ℕ → A) → 0 < total w n f → (i : ℕ) × (i < n) × (0 < w (f i))
  unfolding total
  total-positive w zero f h = absurd (omega arith)
  total-positive w (suc n) f h = elim (dec_lt 0 (w (f n))) [
    | yes p ↦ (n, omega arith, p)
    | no p ↦ let (i, lt, q) = total-positive w n f (omega arith) in (i, omega arith, q)
  ]

  -- A weight that is the sum of two others.
  pub total-split :
      (w u v : A → ℕ) (n : ℕ) (f : ℕ → A)
      → ((i : ℕ) → i < n → w (f i) ≡ u (f i) + v (f i))
      → total w n f ≡ total u n f + total v n f
  unfolding total
  total-split w u v zero f h = refl
  total-split w u v (suc n) f h =
      omega (arith, h n (omega arith), total-split w u v n f (λ i lt. h i (omega arith)))

-- What holds of every thread still does, if it holds of the one that has moved.
pub place-each {ℓ κ} :
    {A : Type ℓ} (P : ℕ → A → Type κ) (f : ℕ → A) (i : ℕ) (a : A)
    → P i a
    → ((j : ℕ) → P j (f j))
    → (j : ℕ) → P j (place i a f j)
place-each P f i a h all j = elim (ℕ_discrete j i) [
  | yes e ↦ rw (if_pos _ e) (subst (λ k. P k a) (sym e) h)
  | no d ↦ rw (if_neg _ d) (all j)
]

pub place-all {ℓ κ} :
    {A : Type ℓ} (P : A → Type κ) (f : ℕ → A) (i : ℕ) (a : A)
    → P a
    → ((j : ℕ) → P (f j))
    → (j : ℕ) → P (place i a f j)
place-all P f i a h all j = place-each (λ _. P) f i a h all j

-- The same for threads that are described by two families.
pub place-pair {ℓ κ} :
    {A B : Type ℓ} (P : ℕ → A → B → Type κ) (f : ℕ → A) (g : ℕ → B) (i : ℕ) (a : A) (b : B)
    → P i a b
    → ((j : ℕ) → P j (f j) (g j))
    → (j : ℕ) → P j (place i a f j) (place i b g j)
place-pair P f g i a b h all j = elim (ℕ_discrete j i) [
  | yes e ↦
      rw (if_pos (ℕ_discrete j i) e a (f j), if_pos (ℕ_discrete j i) e b (g j))
        (subst (λ k. P k a b) (sym e) h)
  | no d ↦ rw (if_neg (ℕ_discrete j i) d a (f j), if_neg (ℕ_discrete j i) d b (g j)) (all j)
]
