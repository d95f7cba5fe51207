-- ===== src/RandomBin/Output.antt =====
-- anode/src/bin/random.rs: the output of the samples.
use libmutex.Prelude.{
  ℕ, zero, suc, ◌+◌, ◌/◌, ◌%◌, ◌^◌, Bool, true, false, Option, some, List, [], ◌∷◌, ◌++◌, ◌>>=◌,
  ltb, if◌then◌else◌,
}
use libmutex.Rand.{Rand}
use libmutex.RandomBin.{
  Text, codes, Result, ok, err, Error, io, ErrorKind, broken_pipe, other, Stdout,
}

pub data WriteOutcome : Type 0 where
  written : ℕ → WriteOutcome
  pipe_broken : WriteOutcome

abbrev pub is_broken_pipe : WriteOutcome → Bool
is_broken_pipe (written _) = false
is_broken_pipe pipe_broken = true

-- `SuppressBrokenPipe::suppress`
abbrev pub suppress : Result ErrorKind ℕ → Result ErrorKind WriteOutcome
suppress (ok bytes) = ok (written bytes)
suppress (err broken_pipe) = ok pipe_broken
suppress (err (other e)) = err (other e)

-- `u64::to_string`: 20 digits are enough.
unfoldable pub digits_onto : ℕ → ℕ → Text → Text
digits_onto zero x rest = rest
digits_onto (suc fuel) x rest =
    let more = digits_onto fuel (x / 10) ((b'0' + x % 10) ∷ rest) in
    if ltb x 10 then (b'0' + x) ∷ rest else more

unfoldable pub to_string : ℕ → Text
to_string x = digits_onto 20 x []

-- `buf`, filled from one number.
unfoldable pub le_bytes : ℕ → Text
le_bytes x =
    x % 2 ^ 8
    ∷ x / 2 ^ 8 % 2 ^ 8
    ∷ x / 2 ^ 16 % 2 ^ 8
    ∷ x / 2 ^ 24 % 2 ^ 8
    ∷ x / 2 ^ 32 % 2 ^ 8
    ∷ x / 2 ^ 40 % 2 ^ 8
    ∷ x / 2 ^ 48 % 2 ^ 8
    ∷ x / 2 ^ 56 % 2 ^ 8
    ∷ []

-- What a write means for the loop: it returns the round if the pipe is broken, and an error as it
-- is, else it goes on.
abbrev pub after_write :
    {S : Type 0}
    → ℕ
    → (S → S × Result Error ℕ)
    → S
    → Result ErrorKind WriteOutcome
    → S × Result Error ℕ
after_write iter next s (ok outcome) = elim (is_broken_pipe outcome) [
  | true ↦ (s, ok iter)
  | false ↦ next s
]
after_write iter next s (err e) = (s, err (io e))

-- `println!` of each line in turn.
abbrev pub print_lines : {S : Type 0} → Stdout S → List Text → S → Option S
print_lines out [] s = some s
print_lines out (l ∷ ls) s = do s' ← out.println s l; print_lines out ls s'

abbrev rule : Text
rule = codes "#=================================================================="

-- What `generate_text` prints first.
abbrev pub header : Text → ℕ → List Text
header rand_name count =
    rule
    ∷ (codes "# generator " ++ rand_name)
    ∷ rule
    ∷ codes "type: d"
    ∷ (codes "count: " ++ to_string count)
    ∷ codes "numbit: 64"
    ∷ []

module _ {S R : Type 0} (out : Stdout S) (rand : Rand R) (count : ℕ) where
  -- The rounds of `generate_bin` from `iter` on, `left` of them.
  unfoldable pub bin_from : (left iter : ℕ) → R → S → S × Result Error ℕ
  bin_from zero iter rng s = (s, ok count)
  bin_from (suc left) iter rng s =
      let sample = rand.next_u64 rng in
      let reply = out.write s (le_bytes sample.0) in
      after_write iter (bin_from left (iter + 1) sample.1) reply.0 (suppress reply.1)

  unfoldable pub generate_bin : R → S → S × Result Error ℕ
  generate_bin rng s = bin_from count 1 rng s

  -- The rounds of `generate_text`; the second write is made if the first does not fail.
  unfoldable pub text_from : (left iter : ℕ) → R → S → S × Result Error ℕ
  text_from zero iter rng s = (s, ok count)
  text_from (suc left) iter rng s =
      let sample = rand.next_u64 rng in
      let reply = out.write s (to_string sample.0) in
      after_write iter
        (λ s'.
          let reply' = out.write s' (codes "\n") in
          after_write iter (text_from left (iter + 1) sample.1) reply'.0 (suppress reply'.1))
        reply.0 (suppress reply.1)

  unfoldable pub generate_text : Text → R → S → Option (S × Result Error ℕ)
  generate_text rand_name rng s = do
    s' ← print_lines out (header rand_name count) s
    some (text_from count 1 rng s')
