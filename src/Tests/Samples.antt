-- ===== src/Tests/Samples.antt =====
-- Witnesses of the theorems on the generators and on the program that writes their numbers.
use libmutex.Prelude.{
  ℕ, ◌≡◌, refl, arith, [], ◌∷◌, ◌++◌, map, zero, suc, some, ◌-◌, length, take, ltb, if◌then◌else◌,
}
use libmutex.Rand.{xorshift, xorshift_seed}
use libmutex.Rand.Generators.{after, IsState, xorshift-IsState}
use libmutex.RandomBin.{Text, codes, Result, ok, err, ErrorKind, broken_pipe, Stdout}
use libmutex.RandomBin as RandomBin
use libmutex.RandomBin.Args.{parse_count, u64_from_str, expand, push_digit, from_digits}
use libmutex.RandomBin.Counts.{digit, kilo, spell, value, fit, parse_count-value}
use libmutex.RandomBin.Pieces.{took, Written, refused, StdoutLaws}

-- A pipe that has room for some bytes, with all that it has taken. Where the room is too small for
-- a buffer it takes a part.
abbrev Pipe : Type 0
Pipe = ℕ × Text

abbrev smaller : ℕ → ℕ → ℕ
smaller a b = if ltb a b then a else b

abbrev write : Pipe → Text → Pipe × Result ErrorKind ℕ
write (zero, s) buf = ((0, s), err broken_pipe)
write (suc room, s) buf =
    let n : ℕ = smaller (suc room) (length buf) in ((suc room - n, s ++ take n buf), ok n)

abbrev pipe : Stdout Pipe
pipe = record { write = write; println = λ p line. some p }

write-Written : (p : Pipe) (buf : Text) → Written {S = Pipe} (λ q. q.1) p buf (write p buf)
write-Written (zero, s) buf = refused broken_pipe refl
write-Written (suc room, s) buf = took (smaller (suc room) (length buf)) (ground arith) refl

abbrev pipe-laws : StdoutLaws pipe
pipe-laws = record { contents = λ p. p.1; written = write-Written }

xorshift-IsState_example :
    IsState (after xorshift 2 (xorshift_seed 0))
    × IsState (xorshift.next_u64 (after xorshift 2 (xorshift_seed 0))).0
xorshift-IsState_example = xorshift-IsState 0 (omega arith) 2

-- "5K"
parse_count-value_example :
    parse_count (map spell (digit 5 (omega arith) ∷ kilo ∷ []))
    ≡ fit (value 0 (digit 5 (omega arith) ∷ kilo ∷ []))
parse_count-value_example = parse_count-value (digit 5 (omega arith)) (kilo ∷ [])

five_thousand : parse_count (codes "5K") ≡ ok 5000
unfolding u64_from_str expand push_digit from_digits
five_thousand = refl
