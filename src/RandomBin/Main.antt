-- ===== src/RandomBin/Main.antt =====
-- anode/src/bin/random.rs: `generate` and `main`. What is printed to the standard error is left out.
pub mod Binary
use libmutex.Prelude.{ℕ, Option, none, some, List, [], ◌∷◌}
use libmutex.Rand.{Rand, xorshift, wyrand}
use libmutex.RandomBin.{
  Text, Result, ok, err, and_then, Generator, OutputFormat, text, binary, Error, unknown_generator,
  unknown_format, parse_int, cycle_rand, Stdout,
}
use libmutex.RandomBin as RandomBin
use libmutex.RandomBin.Args.{generator_from_str, format_from_str, parse_count}
use libmutex.RandomBin.Output.{generate_bin, generate_text}

-- How the program ends, with the state of its output.
pub data Ending (S : Type 0) : Type 0 where
  -- With the usage.
  exits : S → Ending S
  -- On a line that cannot be printed.
  panics : Ending S
  returns : S → Result Error ℕ → Ending S

-- The arguments after the name of the program.
unfoldable pub read_args : Text → Text → Text → Result Error (Generator × OutputFormat × ℕ)
read_args generator format count = and_then unknown_generator (generator_from_str generator) (λ g.
    and_then unknown_format (format_from_str format)
      (λ f. and_then parse_int (parse_count count) (λ c. ok (g, f, c))))

module _ {S : Type 0} (out : Stdout S) where
  abbrev pub ending : Option (S × Result Error ℕ) → Ending S
  ending none = panics
  ending (some (s, result)) = returns s result

  unfoldable pub produce : {R : Type 0} → Rand R → R → Text → OutputFormat → ℕ → S → Ending S
  produce rand rng name text count s = ending (generate_text out rand count name rng s)
  produce rand rng name binary count s = ending (some (generate_bin out rand count rng s))

  -- With the default seed of each generator.
  unfoldable pub with_generator : Generator → Text → OutputFormat → ℕ → S → Ending S
  with_generator RandomBin.xorshift = produce xorshift 1
  with_generator RandomBin.wyrand = produce wyrand 0
  with_generator RandomBin.cycle = produce cycle_rand 0

  unfoldable pub with_args : Text → Result Error (Generator × OutputFormat × ℕ) → S → Ending S
  with_args name (ok (generator, format, count)) s = with_generator generator name format count s
  with_args name (err e) s = returns s (err e)

  unfoldable pub generate : List Text → S → Ending S
  generate (_ ∷ generator ∷ format ∷ count ∷ []) s =
      with_args generator (read_args generator format count) s
  generate _ s = exits s

-- The exit code of `main`; a panic has that of the standard library.
unfoldable pub exit_code : {S : Type 0} → Ending S → ℕ
exit_code (exits _) = 1
exit_code panics = 101
exit_code (returns _ (ok _)) = 0
exit_code (returns _ (err _)) = 1
