-- ===== src/RandomBin/Args.antt =====
-- anode/src/bin/random.rs: the arguments of the program, and the functions of the standard library
-- that read them.
use libmutex.Prelude.{
  ℕ, ◌+◌, ◌-◌, ◌*◌, ◌^◌, Bool, true, false, ◌&&◌, [], ◌∷◌, ◌++◌, leb, ltb, ◌==◌, if◌then◌else◌,
}
use libmutex.RandomBin.{
  Text, codes, Result, ok, err, and_then, Generator, xorshift, wyrand, cycle, OutputFormat, text,
  binary, IntErrorKind, empty, invalid_digit, pos_overflow,
}

-- Two texts are the same.
abbrev pub same : Text → Text → Bool
same [] [] = true
same [] (_ ∷ _) = false
same (_ ∷ _) [] = false
same (c ∷ s) (d ∷ t) = (c == d) && same s t

-- `Generator::from_str`; the error is the text in the message.
unfoldable pub generator_from_str : Text → Result Text Generator
generator_from_str s =
    if same s (codes "xorshift")
    then ok xorshift
    else if same s (codes "wyrand")
    then ok wyrand
    else if same s (codes "cycle")
    then ok cycle
    else err s

-- `OutputFormat::from_str`
unfoldable pub format_from_str : Text → Result Text OutputFormat
format_from_str s =
    if same s (codes "text") then ok text else if same s (codes "binary") then ok binary else err s

-- `str::replace`, of one character.
abbrev pub replace : ℕ → Text → Text → Text
replace from to [] = []
replace from to (c ∷ s) = let rest = replace from to s in if c == from then to ++ rest else c ∷ rest

-- The replacements of `generate`, in their order.
unfoldable pub expand : Text → Text
expand count =
    let count = replace b'K' (codes "000") count in
    let count = replace b'M' (codes "000000") count in
    let count = replace b'B' (codes "000000000") count in
    let count = replace b'G' (codes "000000000") count in
    let count = replace b'T' (codes "000000000000") count in
    let count = replace b'Q' (codes "000000000000000") count in
    replace b'P' (codes "000000000000000") count

-- One round of `u64::from_str`, with the number so far.
unfoldable pub push_digit : ℕ → ℕ → Result IntErrorKind ℕ
push_digit result c =
    if leb b'0' c && leb c b'9'
    then (if ltb (result * 10 + (c - b'0')) (2 ^ 64)
        then ok (result * 10 + (c - b'0'))
        else err pos_overflow)
    else err invalid_digit

unfoldable pub from_digits : ℕ → Text → Result IntErrorKind ℕ
from_digits result [] = ok result
from_digits result (c ∷ s) = and_then (λ e. e) (push_digit result c) (λ next. from_digits next s)

-- `u64::from_str`
unfoldable pub u64_from_str : Text → Result IntErrorKind ℕ
u64_from_str [] = err empty
u64_from_str (c ∷ []) = from_digits 0 (c ∷ [])
u64_from_str (c ∷ d ∷ s) = from_digits 0 (if c == b'+' then d ∷ s else c ∷ d ∷ s)

-- How `generate` reads its count.
abbrev pub parse_count : Text → Result IntErrorKind ℕ
parse_count count = u64_from_str (expand count)
