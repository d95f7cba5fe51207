-- ===== src/RandomBin/Lines/Reading.antt =====
-- anode/src/bin/random.rs: the lines that `generate_text` writes read back.
use libmutex.Prelude.{ℕ, ◌<◌, ◌≡◌, ◌⊎◌, List, [], ◌∷◌, ◌++◌, map, length}
use libmutex.Rand.{Rand}
use libmutex.Rand.Generators.{after}
use libmutex.RandomBin.{Text, Result, ok, Error}
use libmutex.RandomBin.Args.{u64_from_str}
use libmutex.RandomBin.Pieces.{Cut}
use libmutex.RandomBin.Samples.{draws}
use libmutex.RandomBin.Lines.{newline, line_buffers, Ends}

-- Each text with a line end.
unfoldable pub join_lines : List Text → Text
join_lines [] = []
join_lines (l ∷ ls) = (l ++ newline) ++ join_lines ls

-- The output after `c` are lines that read as the first numbers of a generator, and `rest`. Of the
-- texts and line ends the output has taken the first bytes, and either bytes are missing or all of
-- them are there.
pub record TextRead {R : Type 0} (rand : Rand R) (count : ℕ) (rng : R) (c text : Text)
    (result : Result Error ℕ) : Type 0 where
  pub lines : ℕ
  pub texts : List Text
  pub whole : Text
  pub rest : Text
  pub written : text ≡ c ++ (whole ++ rest)
  pub cut : Cut (line_buffers texts) whole
  pub intact : (length whole < length (join_lines texts)) ⊎ (whole ≡ join_lines texts)
  pub read : map u64_from_str texts ≡ map ok (draws rand lines rng)
  pub ends : Ends count count 1 lines (rand.next_u64 (after rand lines rng)).0 rest result
