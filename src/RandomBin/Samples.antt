-- ===== src/RandomBin/Samples.antt =====
-- anode/src/bin/random.rs: what `generate_bin` has written when it returns, over an output that
-- may take a part of a buffer.
use libmutex.Prelude.{
  ℕ, zero, suc, ◌+◌, ◌*◌, ◌/◌, ◌%◌, ◌^◌, ◌<◌, ◌≡◌, refl, sym, ap, ◌∙◌, subst, arith, List, [], ◌∷◌,
  ◌++◌, ◌≤◌, ◌⊎◌, inl, inr, map, length, take, concat, length-append,
}
use libmutex.Rand.{Rand}
use libmutex.Rand.Generators.{IsU64}
use libmutex.RandomBin.{Text, Result, ok, err, Error, io, ErrorKind, broken_pipe, other, Stdout}
use libmutex.RandomBin.Pieces.{Written, took, refused, StdoutLaws, Cut, Cut-Intact}
use libmutex.RandomBin.Output.{suppress, after_write, le_bytes, bin_from, generate_bin}

-- The first `n` numbers of a generator.
unfoldable pub draws : {R : Type 0} → Rand R → ℕ → R → List ℕ
draws rand zero rng = []
draws rand (suc n) rng = let sample = rand.next_u64 rng in sample.0 ∷ draws rand n sample.1

-- The numbers of a text, in groups of 8 bytes, the lowest first.
unfoldable pub decode : Text → List ℕ
decode (a ∷ b ∷ c ∷ d ∷ e ∷ f ∷ g ∷ h ∷ s) =
    (a + 2 ^ 8 * b + 2 ^ 16 * c + 2 ^ 24 * d + 2 ^ 32 * e + 2 ^ 40 * f + 2 ^ 48 * g + 2 ^ 56 * h)
    ∷ decode s
decode _ = []

le_bytes-value :
    (x : ℕ)
    → x < 2 ^ 64
    → x % 2 ^ 8
        + 2 ^ 8 * (x / 2 ^ 8 % 2 ^ 8)
        + 2 ^ 16 * (x / 2 ^ 16 % 2 ^ 8)
        + 2 ^ 24 * (x / 2 ^ 24 % 2 ^ 8)
        + 2 ^ 32 * (x / 2 ^ 32 % 2 ^ 8)
        + 2 ^ 40 * (x / 2 ^ 40 % 2 ^ 8)
        + 2 ^ 48 * (x / 2 ^ 48 % 2 ^ 8)
        + 2 ^ 56 * (x / 2 ^ 56 % 2 ^ 8)
      ≡ x
le_bytes-value x h = omega arith

pub append_assoc : (s t u : Text) → (s ++ t) ++ u ≡ s ++ (t ++ u)
append_assoc [] t u = refl
append_assoc (c ∷ s) t u = ap (λ r. c ∷ r) (append_assoc s t u)

pub append-nil : (s : Text) → s ++ [] ≡ s
append-nil [] = refl
append-nil (c ∷ s) = ap (λ r. c ∷ r) (append-nil s)

module _ {S R : Type 0} (out : Stdout S) (laws : StdoutLaws out) (rand : Rand R) (count : ℕ) where
  -- What `left` rounds from `iter` on lead to, from an output with `c`.
  data Emitted (c : Text) (left iter : ℕ) (rng : R) : S × Result Error ℕ → Type 0 where
    all :
        {s : S} (t : Text)
        → laws.contents s ≡ c ++ t
        → Cut (map le_bytes (draws rand left rng)) t
        → Emitted c left iter rng (s, ok count)
    broken :
        {s : S} {k : ℕ} (m : ℕ) (t : Text)
        → k ≡ iter + m
        → m < left
        → laws.contents s ≡ c ++ t
        → Cut (map le_bytes (draws rand m rng)) t
        → Emitted c left iter rng (s, ok k)
    failed :
        {s : S} (m e : ℕ) (t : Text)
        → m < left
        → laws.contents s ≡ c ++ t
        → Cut (map le_bytes (draws rand m rng)) t
        → Emitted c left iter rng (s, err (io (other e)))

  Emitted-later :
      (c : Text) (left iter : ℕ) (rng : R) (n : ℕ) {p : S × Result Error ℕ}
      → n ≤ length (le_bytes (rand.next_u64 rng).0)
      → Emitted
          (c ++ take n (le_bytes (rand.next_u64 rng).0))
          left
          (iter + 1)
          (rand.next_u64 rng).1
          p
      → Emitted c (suc left) iter rng p
  unfolding draws
  Emitted-later c left iter rng n le (all t e cut) =
      let b = take n (le_bytes (rand.next_u64 rng).0) in
      all (b ++ t) (e ∙ append_assoc c b t) (n, t, le, refl, cut)
  Emitted-later c left iter rng n le (broken m t at lt e cut) =
      let b = take n (le_bytes (rand.next_u64 rng).0) in
      broken (suc m) (b ++ t) (omega arith) (omega arith) (e ∙ append_assoc c b t)
        (n, t, le, refl, cut)
  Emitted-later c left iter rng n le (failed m x t lt e cut) =
      let b = take n (le_bytes (rand.next_u64 rng).0) in
      failed (suc m) x (b ++ t) (omega arith) (e ∙ append_assoc c b t) (n, t, le, refl, cut)

  after_write-Emitted :
      (left iter : ℕ) (rng : R) (s : S) (next : S → S × Result Error ℕ) {p : S × Result ErrorKind ℕ}
      → ((s' : S) (n : ℕ)
          → n ≤ length (le_bytes (rand.next_u64 rng).0)
          → laws.contents s' ≡ laws.contents s ++ take n (le_bytes (rand.next_u64 rng).0)
          → Emitted (laws.contents s) (suc left) iter rng (next s'))
      → Written laws.contents s (le_bytes (rand.next_u64 rng).0) p
      → Emitted (laws.contents s) (suc left) iter rng (after_write iter next p.0 (suppress p.1))
  unfolding draws
  after_write-Emitted left iter rng s next ih (took n le e) = ih _ n le e
  after_write-Emitted left iter rng s next ih (refused broken_pipe e) =
      broken 0 [] (omega arith) (omega arith) (rw e (sym (append-nil _))) refl
  after_write-Emitted left iter rng s next ih (refused (other x) e) =
      failed 0 x [] (omega arith) (rw e (sym (append-nil _))) refl

  bin_from-Emitted :
      (left iter : ℕ) (rng : R) (s : S)
      → Emitted (laws.contents s) left iter rng (bin_from out rand count left iter rng s)
  unfolding bin_from draws
  bin_from-Emitted zero iter rng s = all [] (sym (append-nil _)) refl
  bin_from-Emitted (suc left) iter rng s =
      let sample = rand.next_u64 rng in
      after_write-Emitted left iter rng s (bin_from out rand count left (iter + 1) sample.1)
        (λ s' n le e. Emitted-later (laws.contents s) left iter rng n le (
          subst
            (λ c.
              Emitted c left (iter + 1) sample.1
                (bin_from out rand count left (iter + 1) sample.1 s'))
            e (bin_from-Emitted left (iter + 1) sample.1 s')))
        (laws.written s (le_bytes sample.0))

decode-le_bytes : (x : ℕ) (s : Text) → x < 2 ^ 64 → decode (le_bytes x ++ s) ≡ x ∷ decode s
unfolding decode le_bytes
decode-le_bytes x s h = ap (λ y. y ∷ decode s) (le_bytes-value x h)

decode-nil : decode [] ≡ []
unfolding decode
decode-nil = refl

decode-concat :
    {R : Type 0} (rand : Rand R) (u : IsU64 rand)
    → (n : ℕ) (rng : R) → u.Keeps rng
    → decode (concat (map le_bytes (draws rand n rng))) ≡ draws rand n rng
unfolding draws
decode-concat rand u zero rng kept = decode-nil
decode-concat rand u (suc n) rng kept =
    let sample = rand.next_u64 rng in
    rw
      (decode-le_bytes sample.0 (concat (map le_bytes (draws rand n sample.1))) (u.next rng kept).0)
      (ap (λ xs. sample.0 ∷ xs) (decode-concat rand u n sample.1 (u.next rng kept).1))

length-concat :
    {R : Type 0} (rand : Rand R) (n : ℕ) (rng : R)
    → length (concat (map le_bytes (draws rand n rng))) ≡ 8 * n
unfolding draws
length-concat rand zero rng = refl
length-concat rand (suc n) rng =
    let sample = rand.next_u64 rng in
    omega (
      arith,
      length-append (le_bytes sample.0) (concat (map le_bytes (draws rand n sample.1))),
      eight sample.0,
      length-concat rand n sample.1,
    )
  where
    eight : (x : ℕ) → length (le_bytes x) ≡ 8
    eight x = unfold le_bytes in refl

-- Where no byte is missing the numbers read back.
pub decode-Cut :
    {R : Type 0} (rand : Rand R) (u : IsU64 rand) (n : ℕ) (rng : R) (t : Text)
    → u.Keeps rng
    → Cut (map le_bytes (draws rand n rng)) t
    → (length t < 8 * n) ⊎ (decode t ≡ draws rand n rng)
decode-Cut rand u n rng t kept cut = elim (Cut-Intact (map le_bytes (draws rand n rng)) t cut) [
  | inl less ↦ inl (omega (arith, less, length-concat rand n rng))
  | inr same ↦ inr (ap decode same ∙ decode-concat rand u n rng kept)
]

-- `m` numbers are in the output, and what is returned for them.
pub data Returns (count m : ℕ) : Result Error ℕ → Type 0 where
  all_emitted : m ≡ count → Returns count m (ok count)
  pipe_broke : m < count → Returns count m (ok (1 + m))
  write_failed : (e : ℕ) → m < count → Returns count m (err (io (other e)))

-- Over an output that is empty at first, what `generate_bin` has written are the first bytes of the
-- first `m` numbers of the generator, as many of each as the write has taken, and it returns the
-- count if `m` is the count, else the number `1 + m` for a broken pipe, or the error of the write.
pub generate_bin_lem :
    {S R : Type 0} (out : Stdout S) (laws : StdoutLaws out) (rand : Rand R) (count : ℕ) (rng : R)
    (s : S)
    → laws.contents s ≡ []
    → (m : ℕ) × Cut
        (map le_bytes (draws rand m rng))
        (laws.contents (generate_bin out rand count rng s).0)
      × Returns count m (generate_bin out rand count rng s).1
unfolding generate_bin
generate_bin_lem {S = S} out laws rand count rng s e =
    conclude (bin_from-Emitted out laws rand count count 1 rng s)
  where
    moved :
        (m : ℕ) (t : Text) (s' : S)
        → laws.contents s' ≡ laws.contents s ++ t
        → Cut (map le_bytes (draws rand m rng)) t
        → Cut (map le_bytes (draws rand m rng)) (laws.contents s')
    moved m t s' h cut =
        let same : laws.contents s' ≡ t = h ∙ ap (λ c. c ++ t) e in
        subst (λ c. Cut (map le_bytes (draws rand m rng)) c) (sym same) cut

    conclude :
        {p : S × Result Error ℕ}
        → Emitted out laws rand count (laws.contents s) count 1 rng p
        → (m : ℕ) × Cut (map le_bytes (draws rand m rng)) (laws.contents p.0) × Returns count m p.1
    conclude (all t h cut) = (count, moved count t _ h cut, all_emitted refl)
    conclude (broken m t at lt h cut) = (m, moved m t _ h cut, rw at (pipe_broke lt))
    conclude (failed m x t lt h cut) = (m, moved m t _ h cut, write_failed x lt)
