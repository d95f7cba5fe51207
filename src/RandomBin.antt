-- ===== src/RandomBin.antt =====
-- anode/src/bin/random.rs: a program that writes pseudo-random numbers to its output. A text is the
-- list of its bytes. The standard output is a parameter.
pub mod Args
pub mod Counts
pub mod Output
pub mod Pieces
pub mod Samples
pub mod Decimal
pub mod Lines
pub mod Main
use Prim.Native.Char.{code}
use Prim.Native.String.{String}
use libmutex.Prelude.{ℕ, ◌+◌, ◌%◌, ◌^◌, Option, List, [], ◌∷◌}
use libmutex.Rand.{Rand}

abbrev pub Text : Type 0
Text = List ℕ

abbrev pub codes : String → Text
codes String.[] = []
codes (String.◌∷◌ c s) = code c ∷ codes s

pub data Result (E A : Type 0) : Type 0 where
  ok : A → Result E A
  err : E → Result E A

-- `?`, with `From` for the error.
abbrev pub and_then : {E F A B : Type 0} → (E → F) → Result E A → (A → Result F B) → Result F B
and_then from (ok a) f = f a
and_then from (err e) f = err (from e)

pub data Generator : Type 0 where
  xorshift : Generator
  wyrand : Generator
  cycle : Generator

pub data OutputFormat : Type 0 where
  text : OutputFormat
  binary : OutputFormat

pub data IntErrorKind : Type 0 where
  empty : IntErrorKind
  invalid_digit : IntErrorKind
  pos_overflow : IntErrorKind

pub data ErrorKind : Type 0 where
  broken_pipe : ErrorKind
  other : ℕ → ErrorKind

-- What `generate` boxes as an error.
pub data Error : Type 0 where
  unknown_generator : Text → Error
  unknown_format : Text → Error
  parse_int : IntErrorKind → Error
  io : ErrorKind → Error

-- The generator `Cycle`.
unfoldable pub cycle_next : ℕ → ℕ × ℕ
cycle_next self = let next : ℕ = (self + 1) % 2 ^ 64 in (next, next)

abbrev pub cycle_rand : Rand ℕ
cycle_rand = record { next_u64 = cycle_next }

-- The standard output: `write`, which returns how many bytes it has taken, and `println!`, which
-- panics (`none`) if it fails.
pub record Stdout (S : Type 0) : Type 0 where
  pub write : S → Text → S × Result ErrorKind ℕ
  pub println : S → Text → Option S
