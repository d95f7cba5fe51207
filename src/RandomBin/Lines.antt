-- ===== src/RandomBin/Lines.antt =====
-- anode/src/bin/random.rs: what `generate_text` has written when it returns, over an output that
-- may take a part of a buffer.
pub mod Reading
use libmutex.Prelude.{
  ℕ, zero, suc, ◌+◌, ◌<◌, ◌≤◌, ◌≡◌, refl, sym, ap, subst, ◌∙◌, arith, List, [], ◌∷◌, ◌++◌, map,
  length, take,
}
use libmutex.Rand.{Rand}
use libmutex.Rand.Generators.{after, IsU64}
use libmutex.RandomBin.{
  Text, codes, Result, ok, err, Error, io, ErrorKind, broken_pipe, other, Stdout,
}
use libmutex.RandomBin.Args.{u64_from_str}
use libmutex.RandomBin.Decimal.{u64_from_str-to_string}
use libmutex.RandomBin.Output.{
  suppress, after_write, to_string, text_from, print_lines, header, generate_text,
}
use libmutex.RandomBin.Pieces.{Written, took, refused, StdoutLaws, Cut}
use libmutex.RandomBin.Samples.{draws, append_assoc, append-nil}

abbrev pub newline : Text
newline = codes "\n"

-- The buffers of complete lines: a text, and a line end.
abbrev pub line_buffers : List Text → List Text
line_buffers [] = []
line_buffers (l ∷ ls) = l ∷ newline ∷ line_buffers ls

-- What is written of a line that is not complete: no more than its number, of which the output may
-- have taken a part.
pub data Partial (x : ℕ) : Text → Type 0 where
  nothing : Partial x []
  number :
      {rest : Text} (n : ℕ)
      → n ≤ length (to_string x)
      → rest ≡ take n (to_string x)
      → Partial x rest

-- What rounds from `iter` on return, `left` of them, after `m` lines and `rest`, a part of the line of `x`.
pub data Ends (count left iter m x : ℕ) : Text → Result Error ℕ → Type 0 where
  all_lines : m ≡ left → Ends count left iter m x [] (ok count)
  pipe_broke :
      {rest : Text} {k : ℕ}
      → k ≡ iter + m
      → m < left
      → Partial x rest
      → Ends count left iter m x rest (ok k)
  write_failed :
      {rest : Text} (e : ℕ)
      → m < left
      → Partial x rest
      → Ends count left iter m x rest (err (io (other e)))

Ends-later :
    {count left iter m x : ℕ} {rest : Text} {r : Result Error ℕ}
    → Ends count left (iter + 1) m x rest r
    → Ends count (suc left) iter (suc m) x rest r
Ends-later (all_lines e) = all_lines (ap suc e)
Ends-later (pipe_broke e lt part) = pipe_broke (omega (arith, e)) (omega arith) part
Ends-later (write_failed e lt part) = write_failed e (omega arith) part

-- What has been written after `c`, with what is returned: complete lines, of whose buffers the
-- output may have taken a part, and `rest`.
pub record TextOutput {R : Type 0} (rand : Rand R) (count left iter : ℕ) (rng : R) (c text : Text)
    (result : Result Error ℕ) : Type 0 where
  pub lines : ℕ
  pub whole : Text
  pub rest : Text
  pub written : text ≡ c ++ (whole ++ rest)
  pub cut : Cut (line_buffers (map to_string (draws rand lines rng))) whole
  pub ends : Ends count left iter lines (rand.next_u64 (after rand lines rng)).0 rest result

module _ {S R : Type 0} (out : Stdout S) (laws : StdoutLaws out) (rand : Rand R) (count : ℕ) where
  abbrev pub Emitted : ℕ → ℕ → R → Text → S × Result Error ℕ → Type 0
  Emitted left iter rng c p = TextOutput rand count left iter rng c (laws.contents p.0) p.1

  -- The text of the next number.
  abbrev digits : R → Text
  digits rng = to_string (rand.next_u64 rng).0

  Emitted-later :
      (left iter : ℕ) (rng : R) (c : Text) (i j : ℕ) {p : S × Result Error ℕ}
      → i ≤ length (digits rng)
      → j ≤ length newline
      → Emitted left
          (iter + 1)
          (rand.next_u64 rng).1
          ((c ++ take i (digits rng)) ++ take j newline)
          p
      → Emitted (suc left) iter rng c p
  unfolding draws after
  Emitted-later left iter rng c i j le_i le_j o =
      let a = take i (digits rng) in
      let b = take j newline in
      record {
        lines = suc o.lines;
        whole = a ++ (b ++ o.whole);
        rest = o.rest;
        written =
            o.written
            ∙ append_assoc (c ++ a) b (o.whole ++ o.rest)
            ∙ append_assoc c a (b ++ (o.whole ++ o.rest))
            ∙ ap (λ t. c ++ t)
                (sym (
                  append_assoc a (b ++ o.whole) o.rest
                  ∙ ap (λ t. a ++ t) (append_assoc b o.whole o.rest)));
        cut = (i, b ++ o.whole, le_i, refl, (j, o.whole, le_j, refl, o.cut));
        ends = Ends-later o.ends;
      }

  -- A write that is refused ends the loop, with `rest` of the line written before it.
  refused-Emitted :
      (left iter : ℕ) (rng : R) (c rest : Text) (s : S) (next : S → S × Result Error ℕ)
      (e : ErrorKind)
      → Partial (rand.next_u64 rng).0 rest
      → laws.contents s ≡ c ++ rest
      → Emitted (suc left) iter rng c (after_write iter next s (suppress (err e)))
  unfolding draws after
  refused-Emitted left iter rng c rest s next broken_pipe part h = record {
    lines = 0;
    whole = [];
    rest = rest;
    written = h;
    cut = refl;
    ends = pipe_broke (omega arith) (omega arith) part;
  }
  refused-Emitted left iter rng c rest s next (other e) part h = record {
    lines = 0;
    whole = [];
    rest = rest;
    written = h;
    cut = refl;
    ends = write_failed e (omega arith) part;
  }

  newline-Emitted :
      (left iter : ℕ) (rng : R) (c : Text) (i : ℕ) (s : S) (next : S → S × Result Error ℕ)
      {p : S × Result ErrorKind ℕ}
      → i ≤ length (digits rng)
      → laws.contents s ≡ c ++ take i (digits rng)
      → ((s' : S) (j : ℕ)
          → j ≤ length newline
          → laws.contents s' ≡ (c ++ take i (digits rng)) ++ take j newline
          → Emitted (suc left) iter rng c (next s'))
      → Written laws.contents s newline p
      → Emitted (suc left) iter rng c (after_write iter next p.0 (suppress p.1))
  newline-Emitted left iter rng c i s next le h ih (took j le_j e) =
      ih _ j le_j (e ∙ ap (λ t. t ++ take j newline) h)
  newline-Emitted left iter rng c i s next le h ih (refused e same) =
      refused-Emitted left iter rng c (take i (digits rng)) _ next e (number i le refl) (same ∙ h)

  number-Emitted :
      (left iter : ℕ) (rng : R) (s : S) (next : S → S × Result Error ℕ) {p : S × Result ErrorKind ℕ}
      → ((s' : S) (i : ℕ)
          → i ≤ length (digits rng)
          → laws.contents s' ≡ laws.contents s ++ take i (digits rng)
          → Emitted (suc left) iter rng (laws.contents s) (next s'))
      → Written laws.contents s (digits rng) p
      → Emitted (suc left) iter rng (laws.contents s) (after_write iter next p.0 (suppress p.1))
  number-Emitted left iter rng s next ih (took i le e) = ih _ i le e
  number-Emitted left iter rng s next ih (refused e same) =
      refused-Emitted left iter rng (laws.contents s) [] _ next e nothing
        (same ∙ sym (append-nil (laws.contents s)))

  pub text_from-Emitted :
      (left iter : ℕ) (rng : R) (s : S)
      → Emitted left iter rng (laws.contents s) (text_from out rand count left iter rng s)
  unfolding text_from draws
  text_from-Emitted zero iter rng s = record {
    lines = 0;
    whole = [];
    rest = [];
    written = sym (append-nil (laws.contents s));
    cut = refl;
    ends = all_lines refl;
  }
  text_from-Emitted (suc left) iter rng s =
      let sample = rand.next_u64 rng in
      number-Emitted left iter rng s _
        (λ s1 i le_i e1.
          newline-Emitted left iter rng (laws.contents s) i s1
            (text_from out rand count left (iter + 1) sample.1) le_i e1
            (λ s2 j le_j e2. Emitted-later left iter rng (laws.contents s) i j le_i le_j (
              subst
                (λ c.
                  Emitted left (iter + 1) sample.1 c
                    (text_from out rand count left (iter + 1) sample.1 s2))
                e2 (text_from-Emitted left (iter + 1) sample.1 s2)))
            (laws.written s1 newline))
        (laws.written s (to_string sample.0))
