-- ===== src/Serving/Bpe.antt =====
-- serving/bpe.py: `BPETokenizer`. A symbol is a string; the compiled pre-tokenization pattern is the
-- function that its `finditer` computes, since the `regex` module is not under this repository.
pub mod Bytes
pub mod Merging
pub mod Scan
pub mod Lossless
use s_llm.Prelude.{
  ℕ, zero, suc, ◌+◌, ◌-◌, ◌*◌, ◌/◌, ◌%◌, ◌^◌, ◌≤◌, ◌<◌, ◌≡◌, ◌≢◌, refl, sym, ap, ◌∙◌, subst, min,
  ◌⊎◌, inl, inr, ◌↔◌, Bool, true, false, ◌&&◌, ◌||◌, not, Option, none, some, List, [], ◌∷◌, ◌++◌,
  map, arith, ltb, leb, ◌==◌, if◌then◌else◌, bit, length, take, drop, replicate, keep, all, count,
  member, sum, range_from, Outcome, returns, raises, state_of, Result, ok, err, ◌>>=◌, >>=-eq-ok,
  ok_inj, Result-cases, Error, value_error, key_error, index_error, out_of_capacity,
  collectives_error, shard_error, runtime_error, ℤ, pos, negsuc, Bool-cases, Option-cases, leb→le,
  le→leb, ltb→lt, lt→ltb, ==_refl, ==_iff, length-append, take-append-drop, length-take,
  length-drop, count-append, count-split, length-range_from, count-range_from,
}
use s_llm.Prelude.Dict.{
  Dict, lookup, put, without, has, Distinct, lookup-put, lookup-without, put-Distinct,
  without-Distinct, without_missing, length-put_missing, length-put_present, length-without,
  without-put_missing,
}
use s_llm.Prelude.Text.{Text, same, find, assign, utf8_encode, utf8_decode}

-- One pass of the second loop of `bytes_to_unicode`: `bs`, `cs` and `n` after byte `b`.
abbrev pub fill_in : List ℕ × List ℕ × ℕ → ℕ → List ℕ × List ℕ × ℕ
fill_in (bs, cs, n) b =
    if member b bs then (bs, cs, n) else (bs ++ b ∷ [], cs ++ (256 + n) ∷ [], suc n)

abbrev pub fill_all : List ℕ × List ℕ × ℕ → List ℕ → List ℕ × List ℕ × ℕ
fill_all state [] = state
fill_all state (b ∷ bs) = fill_all (fill_in state b) bs

-- `dict(zip(bs, cs))`
abbrev pub dict_of : List ℕ → List ℕ → Dict ℕ → Dict ℕ
dict_of (b ∷ bs) (c ∷ cs) d = dict_of bs cs (put b c d)
dict_of _ _ d = d

abbrev pub shown : List ℕ
shown = range_from 33 94 ++ range_from 161 12 ++ range_from 174 82

unfoldable pub bytes_to_unicode : Dict ℕ
bytes_to_unicode =
    let state = fill_all (shown, shown, 0) (range_from 0 256) in dict_of state.0 state.1 []

-- `{c: b for b, c in d.items()}`
abbrev pub inverse : Dict ℕ → Dict ℕ → Dict ℕ
inverse [] d = d
inverse ((b, c) ∷ rest) d = inverse rest (put c b d)

unfoldable pub unicode_to_bytes : Dict ℕ
unicode_to_bytes = inverse bytes_to_unicode []

abbrev pub Ranks : Type 0
Ranks = List ((Text × Text) × ℕ)

-- `self.rank.get((a, b))`
abbrev pub rank_of : Ranks → Text → Text → Option ℕ
rank_of [] a b = none
rank_of (((x, y), i) ∷ d) a b =
    let rest = rank_of d a b in if same x a && same y b then some i else rest

-- `self.rank[(a, b)] = i`
abbrev pub set_rank : Text → Text → ℕ → Ranks → Ranks
set_rank a b i [] = ((a, b), i) ∷ []
set_rank a b i (((x, y), j) ∷ d) =
    let rest = set_rank a b i d in
    if same x a && same y b then ((x, y), i) ∷ d else ((x, y), j) ∷ rest

abbrev pub ranked : ℕ → List (Text × Text) → Ranks → Ranks
ranked i [] d = d
ranked i ((a, b) ∷ merges) d = ranked (suc i) merges (set_rank a b i d)

-- `{str(k): int(v) for k, v in vocab.items()}`
abbrev pub vocab_of : List (Text × ℕ) → List (Text × ℕ) → List (Text × ℕ)
vocab_of [] d = d
vocab_of ((k, v) ∷ rest) d = vocab_of rest (assign k v d)

-- `{v: k for k, v in self.vocab.items()}`
abbrev pub tokens_of : List (Text × ℕ) → Dict Text → Dict Text
tokens_of [] d = d
tokens_of ((k, v) ∷ rest) d = tokens_of rest (put v k d)

pub record Bpe : Type 0 where
  pub vocab : List (Text × ℕ)
  pub id_to_token : Dict Text
  pub rank : Ranks
  pub pieces : Text → List Text

-- The constructor; `compile` is `regex.compile`.
unfoldable pub make_bpe :
    (Text → Option (Text → List Text)) → List (Text × ℕ) → List (Text × Text) → Text → Result Bpe
make_bpe compile [] merges pattern = err value_error
make_bpe compile (v ∷ vs) merges pattern = elim (compile pattern) [
  | none ↦ err value_error
  | some pieces ↦ ok (record {
    vocab = vocab_of (v ∷ vs) [];
    id_to_token = tokens_of (vocab_of (v ∷ vs) []) [];
    rank = ranked 0 merges [];
    pieces = pieces;
  })
]

-- `self.b2u[b] for b in data`
unfoldable pub symbols_of : List ℕ → Result (List Text)
symbols_of [] = ok []
symbols_of (b ∷ bs) = elim (lookup b bytes_to_unicode) [
  | none ↦ err key_error
  | some c ↦ symbols_of bs >>= λ rest. ok ((c ∷ []) ∷ rest)
]

-- `best_rank` and `best_i` after the pair at `i`, whose rank is `r`.
abbrev pub better : Option (ℕ × ℕ) → Option ℕ → ℕ → Option (ℕ × ℕ)
better best none i = best
better none (some r) i = some (r, i)
better (some (s, j)) (some r) i = if ltb r s then some (r, i) else some (s, j)

-- The `for` loop over the adjacent pairs, from the pair at `i` on.
abbrev pub best_from : Ranks → ℕ → Option (ℕ × ℕ) → List Text → Option (ℕ × ℕ)
best_from rank i best [] = best
best_from rank i best (a ∷ []) = best
best_from rank i best (a ∷ b ∷ words) =
    best_from rank (suc i) (better best (rank_of rank a b) i) (b ∷ words)

-- `words[i] += words[i + 1]; del words[i + 1]`
abbrev pub merge_at : ℕ → List Text → List Text
merge_at zero (a ∷ b ∷ words) = (a ++ b) ∷ words
merge_at (suc i) (a ∷ words) = a ∷ merge_at i words
merge_at _ words = words

-- The `while` loop, with fuel for its passes.
unfoldable pub merge_loop : ℕ → Ranks → List Text → Option (List Text)
merge_loop zero rank words = none
merge_loop (suc fuel) rank words =
    elim (if ltb 1 (length words) then best_from rank 0 none words else none) [
      | none ↦ some words
      | some (r, i) ↦ merge_loop fuel rank (merge_at i words)
    ]

-- `_bpe_symbols` on the symbols of the bytes: one pass for each symbol is enough.
unfoldable pub bpe_symbols : Ranks → Text → Result (List Text)
bpe_symbols rank tok = utf8_encode tok >>= λ raw. symbols_of raw >>= λ words.
    elim (merge_loop (suc (length words)) rank words) [ none ↦ err runtime_error | some ws ↦ ok ws ]

-- A digit of `f"{byte:02X}"`.
abbrev pub hex_digit : ℕ → ℕ
hex_digit d = if ltb d 10 then 48 + d else 55 + d

-- `f"<0x{byte:02X}>"`
abbrev pub byte_token : ℕ → Text
byte_token b = 60 ∷ 48 ∷ 120 ∷ hex_digit (b / 16) ∷ hex_digit (b % 16) ∷ 62 ∷ []

abbrev pub byte_ids : List (Text × ℕ) → List ℕ → Result (List ℕ)
byte_ids vocab [] = ok []
byte_ids vocab (b ∷ bs) = elim (find (byte_token b) vocab) [
  | none ↦ err key_error
  | some i ↦ byte_ids vocab bs >>= λ rest. ok (i ∷ rest)
]

-- `bytes(self.u2b[c] for c in sym)`
unfoldable pub raw_bytes : Text → Result (List ℕ)
raw_bytes [] = ok []
raw_bytes (c ∷ cs) = elim (lookup c unicode_to_bytes) [
  | none ↦ err key_error
  | some b ↦ raw_bytes cs >>= λ rest. ok (b ∷ rest)
]

-- The body of the loop of `_bpe_to_ids`.
abbrev pub symbol_ids : List (Text × ℕ) → Text → Result (List ℕ)
symbol_ids vocab sym = elim (find sym vocab) [
  | some i ↦ ok (i ∷ [])
  | none ↦ raw_bytes sym >>= λ raw. byte_ids vocab raw
]

abbrev pub ids_of : List (Text × ℕ) → List Text → Result (List ℕ)
ids_of vocab [] = ok []
ids_of vocab (sym ∷ syms) =
    symbol_ids vocab sym >>= λ here. ids_of vocab syms >>= λ rest. ok (here ++ rest)

-- `_bpe_to_ids`, which `encode_piece` calls.
unfoldable pub encode_piece : Bpe → Text → Result (List ℕ)
encode_piece t tok = bpe_symbols t.rank tok >>= λ syms. ids_of t.vocab syms

abbrev pub encode_pieces : Bpe → List Text → Result (List ℕ)
encode_pieces t [] = ok []
encode_pieces t (piece ∷ rest) =
    encode_piece t piece >>= λ here. encode_pieces t rest >>= λ ids. ok (here ++ ids)

unfoldable pub encode : Bpe → Text → Result (List ℕ)
encode t text = encode_pieces t (t.pieces text)

-- The bytes of the characters that stand for bytes.
unfoldable pub known_bytes : Text → List ℕ
known_bytes [] = []
known_bytes (c ∷ cs) = elim (lookup c unicode_to_bytes) [
  | none ↦ known_bytes cs
  | some b ↦ b ∷ known_bytes cs
]

-- `buf` after the loop of `decode`.
abbrev pub decoded_bytes : Bpe → List ℕ → List ℕ
decoded_bytes t [] = []
decoded_bytes t (i ∷ ids) = elim (lookup i t.id_to_token) [
  | none ↦ decoded_bytes t ids
  | some token ↦ known_bytes token ++ decoded_bytes t ids
]

unfoldable pub decode : Bpe → List ℕ → Text
decode t ids = utf8_decode (decoded_bytes t ids)
