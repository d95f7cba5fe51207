-- ===== src/RandomBin/Pieces.antt =====
-- anode/src/bin/random.rs: what an output has taken of the buffers that were written to it. A write
-- may take only the first bytes of its buffer.
use libmutex.Prelude.{
  ℕ, ◌+◌, ◌<◌, ◌≤◌, ◌≡◌, ap, ◌∙◌, arith, List, [], ◌∷◌, ◌++◌, ◌⊎◌, inl, inr, dec_lt, length, take,
  concat, length-append, length-take, take_all,
}
use libmutex.RandomBin.{Text, Result, ok, err, ErrorKind, Stdout}

-- What a write has done, where `contents` is all that the output has taken: at most the whole
-- buffer, and nothing if the write returns an error.
pub data Written {S : Type 0} (contents : S → Text) (s : S) (buf : Text)
    : S × Result ErrorKind ℕ → Type 0 where
  took :
      {s' : S} (n : ℕ)
      → n ≤ length buf
      → contents s' ≡ contents s ++ take n buf
      → Written contents s buf (s', ok n)
  refused : {s' : S} (e : ErrorKind) → contents s' ≡ contents s → Written contents s buf (s', err e)

pub record StdoutLaws {S : Type 0} (out : Stdout S) : Type 0 where
  pub contents : S → Text
  pub written : (s : S) (buf : Text) → Written contents s buf (out.write s buf)

-- The text has the first bytes of each buffer, in their order.
abbrev pub Cut : List Text → Text → Type 0
Cut [] t = t ≡ []
Cut (b ∷ bs) t = (n : ℕ) × (rest : Text) × (n ≤ length b) × (t ≡ take n b ++ rest) × Cut bs rest

-- Either bytes are missing, or the buffers have been taken whole.
abbrev pub Intact : List Text → Text → Type 0
Intact bs t = (length t < length (concat bs)) ⊎ (t ≡ concat bs)

Cut-length : (bs : List Text) (t : Text) → Cut bs t → length t ≤ length (concat bs)
Cut-length [] t e = omega (arith, ap length e)
Cut-length (b ∷ bs) t (n, rest, le, e, cut) = omega (
  arith,
  ap length e,
  length-append (take n b) rest,
  length-append b (concat bs),
  length-take n b le,
  Cut-length bs rest cut,
)

pub Cut-Intact : (bs : List Text) (t : Text) → Cut bs t → Intact bs t
Cut-Intact [] t e = inr e
Cut-Intact (b ∷ bs) t (n, rest, le, e, cut) = elim (dec_lt n (length b)) [
  | yes less ↦ inl (shorter (omega (arith, less, Cut-length bs rest cut)))
  | no full ↦ elim (Cut-Intact bs rest cut) [
    | inl less ↦ inl (shorter (omega arith))
    | inr same ↦ inr (e ∙ ap (λ s. s ++ rest) (take_all n b (omega arith)) ∙ ap (λ s. b ++ s) same)
  ]
]
  where
    shorter : n + length rest < length b + length (concat bs) → length t < length (b ++ concat bs)
    shorter h = omega (
      arith,
      ap length e,
      length-append (take n b) rest,
      length-append b (concat bs),
      length-take n b le,
    )
