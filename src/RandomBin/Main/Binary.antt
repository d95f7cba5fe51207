-- ===== src/RandomBin/Main/Binary.antt =====
-- anode/src/bin/random.rs: a run of the program that writes numbers in binary.
use libmutex.Prelude.{ℕ, ◌<◌, ◌≡◌, arith, ◌*◌, ◌⊎◌, length, List, map}
use libmutex.Rand.{Rand, xorshift, wyrand}
use libmutex.Rand.Generators.{IsU64}
use libmutex.RandomBin.{
  Text, codes, Result, err, and_then, Generator, OutputFormat, Error, parse_int, cycle_next,
  cycle_rand,
}
use libmutex.RandomBin as RandomBin
use libmutex.RandomBin.Pieces.{Cut}
use libmutex.RandomBin.Output.{le_bytes}
use libmutex.RandomBin.Samples.{draws, decode, Returns}
use libmutex.RandomBin.Main.{Ending, returns}

abbrev pub spelling : Generator → Text
spelling RandomBin.xorshift = codes "xorshift"
spelling RandomBin.wyrand = codes "wyrand"
spelling RandomBin.cycle = codes "cycle"

-- The first numbers of each generator.
abbrev pub samples : Generator → ℕ → List ℕ
samples RandomBin.xorshift n = draws xorshift n 1
samples RandomBin.wyrand n = draws wyrand n 0
samples RandomBin.cycle n = draws cycle_rand n 0

cycle-IsU64 : IsU64 cycle_rand
unfolding cycle_next
cycle-IsU64 = record { Keeps = λ _. Unit; next = λ s _. (omega arith, tt) }

-- What a run of the program has written and returned.
pub record Emits {S : Type 0} (contents : S → Text) (samples : ℕ → List ℕ) (count : ℕ)
    (end : Ending S) : Type 0 where
  pub state : S
  pub result : Result Error ℕ
  pub emitted : ℕ
  pub ends : end ≡ returns state result
  pub written : Cut (map le_bytes (samples emitted)) (contents state)
  pub read : (length (contents state) < 8 * emitted) ⊎ (decode (contents state) ≡ samples emitted)
  pub reported : Returns count emitted result
