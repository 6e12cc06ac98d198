-- ===== src/Serving/Bpe/Merging.antt =====
-- The merges of byte-pair encoding, apart from the loop that finds them.
use s_llm.Prelude.{
  ℕ, zero, suc, ◌≤◌, ◌<◌, ◌≡◌, refl, ap, ◌∙◌, subst, Option, none, some, List, [], ◌∷◌, ◌++◌, arith,
  length,
}
use mathlib.Core.List.{append_assoc}
use s_llm.Prelude.Text.{Text}
use s_llm.Serving.Bpe.{Ranks, rank_of, merge_at}
use s_llm.Serving.Bpe.Bytes.{joined, AllOf}

-- The rank of the pair at a position, where there is one.
unfoldable pub pair_rank : Ranks → ℕ → List Text → Option ℕ
pair_rank rank zero (a ∷ b ∷ words) = rank_of rank a b
pair_rank rank (suc i) (a ∷ words) = pair_rank rank i words
pair_rank rank _ words = none

-- The pair at `i` has the lowest rank, and is the first of those that have it.
abbrev pub IsBest : Ranks → List Text → ℕ → Type 0
IsBest rank words i =
    (r : ℕ) × (pair_rank rank i words ≡ some r)
    × ((j s : ℕ) → pair_rank rank j words ≡ some s → (r ≤ s) × (j < i → r < s))

-- Byte-pair encoding: the best pair is merged until no pair has a rank.
pub data Merges (rank : Ranks) : List Text → List Text → Type 0 where
  finished :
      {words : List Text} → ((i : ℕ) → pair_rank rank i words ≡ none) → Merges rank words words
  merged :
      {words last : List Text} (i : ℕ)
      → IsBest rank words i
      → Merges rank (merge_at i words) last
      → Merges rank words last

IsBest-unique :
    (rank : Ranks) (words : List Text) {i j : ℕ} → IsBest rank words i → IsBest rank words j → i ≡ j
IsBest-unique rank words {i} {j} (r, e, least) (s, e', least') =
    ground (arith, least j s e', least' i r e)

unranked : {o : Option ℕ} {r : ℕ} → o ≡ none → o ≡ some r → ⊥
unranked e e' = ground arith

-- What the encoding comes to is determined.
pub Merges-unique :
    {rank : Ranks} {words first second : List Text}
    → Merges rank words first
    → Merges rank words second
    → first ≡ second
Merges-unique (finished over) (finished over') = refl
Merges-unique (finished over) (merged i (r, e, least) rest) = absurd (unranked (over i) e)
Merges-unique (merged i (r, e, least) rest) (finished over) = absurd (unranked (over i) e)
Merges-unique {rank} {words} {second} (merged i best rest) (merged j best' rest') =
    Merges-unique rest (
      subst (λ k. Merges rank (merge_at k words) second) (IsBest-unique rank words best' best)
        rest')

-- A merge loses no character, and one symbol where there is a pair.
pub joined-merge_at : (i : ℕ) (words : List Text) → joined (merge_at i words) ≡ joined words
joined-merge_at zero [] = refl
joined-merge_at zero (a ∷ []) = refl
joined-merge_at zero (a ∷ b ∷ words) = append_assoc a b (joined words)
joined-merge_at (suc i) [] = refl
joined-merge_at (suc i) (a ∷ words) = ap (◌++◌ a) (joined-merge_at i words)

pub length-merge_at :
    (rank : Ranks) (i r : ℕ) (words : List Text)
    → pair_rank rank i words ≡ some r
    → suc (length (merge_at i words)) ≡ length words
unfolding pair_rank
length-merge_at rank zero r [] h = cc
length-merge_at rank zero r (a ∷ []) h = cc
length-merge_at rank zero r (a ∷ b ∷ words) h = refl
length-merge_at rank (suc i) r [] h = cc
length-merge_at rank (suc i) r (a ∷ words) h = ap suc (length-merge_at rank i r words h)

-- A property of symbols that every ranked merge keeps.
pub merge_at-AllOf :
    (P : Text → Type 0) (rank : Ranks) (i r : ℕ) (words : List Text)
    → ((a b : Text) (s : ℕ) → rank_of rank a b ≡ some s → P (a ++ b))
    → pair_rank rank i words ≡ some r
    → AllOf P words
    → AllOf P (merge_at i words)
unfolding pair_rank
merge_at-AllOf P rank zero r [] keeps h every = every
merge_at-AllOf P rank zero r (a ∷ []) keeps h every = every
merge_at-AllOf P rank zero r (a ∷ b ∷ words) keeps h (pa, (pb, every)) = (keeps a b r h, every)
merge_at-AllOf P rank (suc i) r [] keeps h every = every
merge_at-AllOf P rank (suc i) r (a ∷ words) keeps h (pa, every) =
    (pa, merge_at-AllOf P rank i r words keeps h every)

-- The encoding loses no character, and keeps what its merges keep.
pub joined-Merges :
    {rank : Ranks} {words last : List Text} → Merges rank words last → joined last ≡ joined words
joined-Merges (finished over) = refl
joined-Merges {words} (merged i best rest) = joined-Merges rest ∙ joined-merge_at i words

pub Merges-AllOf :
    (P : Text → Type 0) {rank : Ranks} {words last : List Text}
    → ((a b : Text) (s : ℕ) → rank_of rank a b ≡ some s → P (a ++ b))
    → Merges rank words last
    → AllOf P words
    → AllOf P last
Merges-AllOf P keeps (finished over) every = every
Merges-AllOf P {rank} {words} keeps (merged i (r, e, least) rest) every =
    Merges-AllOf P keeps rest (merge_at-AllOf P rank i r words keeps e every)
