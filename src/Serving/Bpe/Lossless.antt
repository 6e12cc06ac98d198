-- ===== src/Serving/Bpe/Lossless.antt =====
-- Encoding with a vocabulary that has every byte and every merge loses nothing.
use s_llm.Prelude.{
  ℕ, suc, ◌<◌, ◌≡◌, refl, sym, ap, ◌∙◌, subst, inl, inr, true, none, some, List, [], ◌∷◌, ◌++◌,
  arith, length, all, Result, ok, err, runtime_error, Option-cases,
}
use s_llm.Prelude.Dict.{lookup}
use mathlib.Core.List.{append_assoc}
use s_llm.Prelude.Text.{Text, find, is_scalar, utf8_encode, utf8_decode}
use s_llm.Prelude.Text.Laws.{
  utf8_encode-total, utf8_encode-append, all-append_left, all-append_right, append_eq,
  utf8_decode-utf8_encode,
}
use s_llm.Serving.Bpe.{
  bytes_to_unicode, Ranks, rank_of, Bpe, symbols_of, merge_loop, bpe_symbols, symbol_ids, ids_of,
  encode_piece, encode_pieces, encode, known_bytes, decoded_bytes, decode,
}
use s_llm.Serving.Bpe.Bytes.{joined, AllOf, IsByteSymbol, known_bytes-append, symbols_of-total}
use s_llm.Serving.Bpe.Merging.{Merges, joined-Merges, Merges-AllOf}
use s_llm.Serving.Bpe.Scan.{merge_loop-Merges}

-- A symbol has an id, and the id leads back to it.
abbrev pub Known : Bpe → Text → Type 0
Known t s = (i : ℕ) × (find s t.vocab ≡ some i) × (lookup i t.id_to_token ≡ some s)

-- What a checkpoint's files provide: each byte is a token, and each merge.
pub record IsComplete (t : Bpe) : Type 0 where
  pub byte_known : (b c : ℕ) → b < 256 → lookup b bytes_to_unicode ≡ some c → Known t (c ∷ [])
  pub merge_known : (a b : Text) (r : ℕ) → rank_of t.rank a b ≡ some r → Known t (a ++ b)

bpe_symbols-ok :
    (rank : Ranks) (tok : Text) (raw : List ℕ) (first last : List Text)
    → utf8_encode tok ≡ ok raw
    → symbols_of raw ≡ ok first
    → merge_loop (suc (length first)) rank first ≡ some last
    → bpe_symbols rank tok ≡ ok last
unfolding bpe_symbols
bpe_symbols-ok rank tok raw first last e1 e2 e3 =
    rw (bpe_symbols, e1, e2)
      (ap (λ o. elim o as (λ _. Result (List Text)) [ none ↦ err runtime_error | some ws ↦ ok ws ])
        e3)

-- Splitting a text that can be encoded into symbols always ends with the greedy merges of the
-- characters of its bytes.
pub bpe_symbols-Merges :
    (rank : Ranks) (tok : Text)
    → all is_scalar tok ≡ true
    → (raw : List ℕ) × (first last : List Text) × (utf8_encode tok ≡ ok raw)
      × (symbols_of raw ≡ ok first)
      × (bpe_symbols rank tok ≡ ok last)
      × Merges rank first last
      × (known_bytes (joined last) ≡ raw)
      × AllOf IsByteSymbol first
bpe_symbols-Merges rank tok scalar =
    let (raw, e1, small) = utf8_encode-total tok scalar in
    let (first, e2, known, long, every) = symbols_of-total raw small in
    let (last, e3, merges) = merge_loop-Merges (suc (length first)) rank first (omega arith) in
    (
      raw,
      first,
      last,
      e1,
      e2,
      bpe_symbols-ok rank tok raw first last e1 e2 e3,
      merges,
      ap known_bytes (joined-Merges merges) ∙ known,
      every,
    )

decoded_bytes-some :
    (t : Bpe) (i : ℕ) (ids : List ℕ) (s : Text)
    → lookup i t.id_to_token ≡ some s
    → decoded_bytes t (i ∷ ids) ≡ known_bytes s ++ decoded_bytes t ids
decoded_bytes-some t i ids s e = rw (decoded_bytes, e) refl

decoded_bytes-none :
    (t : Bpe) (i : ℕ) (ids : List ℕ)
    → lookup i t.id_to_token ≡ none
    → decoded_bytes t (i ∷ ids) ≡ decoded_bytes t ids
decoded_bytes-none t i ids e = rw (decoded_bytes, e) refl

pub decoded_bytes-append :
    (t : Bpe) (xs ys : List ℕ)
    → decoded_bytes t (xs ++ ys) ≡ decoded_bytes t xs ++ decoded_bytes t ys
decoded_bytes-append t [] ys = refl
decoded_bytes-append t (x ∷ xs) ys = elim (Option-cases (lookup x t.id_to_token)) [
  | inl missing ↦
      decoded_bytes-none t x (xs ++ ys) missing
      ∙ decoded_bytes-append t xs ys
      ∙ ap (λ bs. bs ++ decoded_bytes t ys) (sym (decoded_bytes-none t x xs missing))
  | inr (s, e) ↦
      decoded_bytes-some t x (xs ++ ys) s e
      ∙ ap (◌++◌ (known_bytes s)) (decoded_bytes-append t xs ys)
      ∙ sym (append_assoc (known_bytes s) (decoded_bytes t xs) (decoded_bytes t ys))
      ∙ ap (λ bs. bs ++ decoded_bytes t ys) (sym (decoded_bytes-some t x xs s e))
]

ids_of-some :
    (vocab : List (Text × ℕ)) (s : Text) (ss : List Text) (i : ℕ) (ids : List ℕ)
    → find s vocab ≡ some i
    → ids_of vocab ss ≡ ok ids
    → ids_of vocab (s ∷ ss) ≡ ok (i ∷ ids)
ids_of-some vocab s ss i ids e e' = rw (ids_of, symbol_ids, e, e') refl

ids_of-Known :
    (t : Bpe) (syms : List Text)
    → AllOf (Known t) syms
    → (ids : List ℕ) × (ids_of t.vocab syms ≡ ok ids)
      × (decoded_bytes t ids ≡ known_bytes (joined syms))
unfolding known_bytes
ids_of-Known t [] every = ([], refl, refl)
ids_of-Known t (s ∷ ss) ((i, e, back), every) =
    let (ids, e', known) = ids_of-Known t ss every in
    (
      i ∷ ids,
      ids_of-some t.vocab s ss i ids e e',
      decoded_bytes-some t i ids s back
          ∙ ap (◌++◌ (known_bytes s)) known
          ∙ sym (known_bytes-append s (joined ss)),
    )

byte_symbols-Known :
    (t : Bpe) (syms : List Text) → IsComplete t → AllOf IsByteSymbol syms → AllOf (Known t) syms
byte_symbols-Known t [] c every = tt
byte_symbols-Known t (s ∷ ss) c ((b, ch, small, there, e), every) =
    (subst (Known t) (sym e) (c.byte_known b ch small there), byte_symbols-Known t ss c every)

encode_piece-ok :
    (t : Bpe) (tok : Text) (syms : List Text) (ids : List ℕ)
    → bpe_symbols t.rank tok ≡ ok syms
    → ids_of t.vocab syms ≡ ok ids
    → encode_piece t tok ≡ ok ids
unfolding encode_piece
encode_piece-ok t tok syms ids e e' = rw (encode_piece, e) e'

-- Encoding a piece never fails, and its ids stand for the bytes of the piece.
encode_piece-decoded_bytes :
    (t : Bpe) (tok : Text)
    → IsComplete t
    → all is_scalar tok ≡ true
    → (ids raw : List ℕ) × (encode_piece t tok ≡ ok ids)
      × (utf8_encode tok ≡ ok raw)
      × (decoded_bytes t ids ≡ raw)
encode_piece-decoded_bytes t tok c scalar =
    let (raw, first, last, e1, e2, e3, merges, known, every) =
      bpe_symbols-Merges t.rank tok scalar in
    let all_known =
      Merges-AllOf (Known t) c.merge_known merges (byte_symbols-Known t first c every) in
    let (ids, e4, decoded) = ids_of-Known t last all_known in
    (ids, raw, encode_piece-ok t tok last ids e3 e4, e1, decoded ∙ known)

encode_pieces-ok :
    (t : Bpe) (piece : Text) (pieces : List Text) (here rest : List ℕ)
    → encode_piece t piece ≡ ok here
    → encode_pieces t pieces ≡ ok rest
    → encode_pieces t (piece ∷ pieces) ≡ ok (here ++ rest)
encode_pieces-ok t piece pieces here rest e e' = rw (encode_pieces, e, e') refl

encode_pieces-decoded_bytes :
    (t : Bpe) (pieces : List Text)
    → IsComplete t
    → all is_scalar (joined pieces) ≡ true
    → (ids raw : List ℕ) × (encode_pieces t pieces ≡ ok ids)
      × (utf8_encode (joined pieces) ≡ ok raw)
      × (decoded_bytes t ids ≡ raw)
encode_pieces-decoded_bytes t [] c scalar = ([], [], refl, refl, refl)
encode_pieces-decoded_bytes t (p ∷ ps) c scalar =
    let (ids, raw, e, e1, d) =
      encode_piece-decoded_bytes t p c (all-append_left is_scalar p (joined ps) scalar) in
    let (ids', raw', e', e1', d') =
      encode_pieces-decoded_bytes t ps c (all-append_right is_scalar p (joined ps) scalar) in
    (
      ids ++ ids',
      raw ++ raw',
      encode_pieces-ok t p ps ids ids' e e',
      utf8_encode-append p (joined ps) raw raw' e1 e1',
      decoded_bytes-append t ids ids' ∙ append_eq d d',
    )

-- A tokenizer whose vocabulary has all bytes and merges, and whose pattern covers the text, encodes every
-- text of Unicode scalar values, and decoding gives the text back.
pub decode-encode :
    (t : Bpe) (text : Text)
    → IsComplete t
    → joined (t.pieces text) ≡ text
    → all is_scalar text ≡ true
    → (ids : List ℕ) × (encode t text ≡ ok ids) × (decode t ids ≡ text)
unfolding encode decode
decode-encode t text c covered scalar =
    let (ids, raw, e, e1, d) =
      encode_pieces-decoded_bytes t (t.pieces text) c (ap (all is_scalar) covered ∙ scalar) in
    (ids, e, ap utf8_decode d ∙ utf8_decode-utf8_encode _ raw e1 ∙ covered)
