-- ===== src/Tests/Texts.antt =====
-- serving/bpe.py on a small vocabulary: the characters of the bytes, and one merge.
use s_llm.Prelude.{
  ℕ, ◌≡◌, refl, ap, ◌∙◌, inl, inr, Bool, true, false, ◌&&◌, none, some, List, [], ◌∷◌, map, arith,
  all, range_from, ok, Bool-cases, Option-cases,
}
use s_llm.Prelude.Dict.{Dict, lookup, put}
use s_llm.Prelude.Text.{Text, same, find, utf8_encode}
use s_llm.Prelude.Text.Laws.{same-eq}
use s_llm.Serving.Bpe.{
  bytes_to_unicode, rank_of, Bpe, symbols_of, bpe_symbols, merge_loop, encode, decode, encode_piece,
  known_bytes,
}
use s_llm.Serving.Engine.{too_long}
use s_llm.Serving.Bpe.{decoded_bytes, unicode_to_bytes}
use s_llm.Serving.Facade.Stream.{
  iter_batched, WholeTokens, no_tokens, next_token, queue_of, joined_yields, iter_batched-queue_of,
  split_character_lost,
}
use s_llm.Serving.Bpe.Bytes.{joined, AllOf, IsByteSymbol, all-lookup}
use s_llm.Serving.Bpe.Merging.{Merges}
use s_llm.Serving.Bpe.Lossless.{Known, IsComplete, bpe_symbols-Merges, decode-encode}

-- The entry of each byte is its number.
abbrev byte_entries : Dict ℕ → List (Text × ℕ)
byte_entries [] = []
byte_entries ((b, c) ∷ d) = (c ∷ [], b) ∷ byte_entries d

abbrev he : Text
he = b'h' ∷ b'e' ∷ []

abbrev whole_text : (Text → List Text)
whole_text s = s ∷ []

abbrev toy : Bpe
toy = record {
  vocab = (he, 256) ∷ byte_entries bytes_to_unicode;
  id_to_token = (256, he) ∷ map (λ (x : ℕ × ℕ). (x.0, x.1 ∷ [])) bytes_to_unicode;
  rank = ((b'h' ∷ [], b'e' ∷ []), 0) ∷ [];
  pieces = whole_text;
}

is_known : Text → Bool
is_known s = elim (find s toy.vocab) [
  | none ↦ false
  | some i ↦ elim (lookup i toy.id_to_token) [ none ↦ false | some s' ↦ same s' s ]
]

is_known-Known : (s : Text) → is_known s ≡ true → Known toy s
unfolding is_known
is_known-Known s h = elim (Option-cases (find s toy.vocab)) [
  | inl e ↦ (let bad : false ≡ true = rw (is_known, e) at h in cc)
  | inr (i, e) ↦ elim (Option-cases (lookup i toy.id_to_token)) [
    | inl f ↦ (let bad : false ≡ true = rw (is_known, e, f) at h in cc)
    | inr (s', f) ↦
        (let alike : same s' s ≡ true = rw (is_known, e, f) at h in
          (i, e, f ∙ ap some (same-eq s' s alike)))
  ]
]

byte_is_known : ℕ → Bool
byte_is_known b = elim (lookup b bytes_to_unicode) [ none ↦ false | some c ↦ is_known (c ∷ []) ]

bytes_known : all byte_is_known (range_from 0 256) ≡ true
unfolding byte_is_known is_known bytes_to_unicode lookup put
bytes_known = refl

merged_known : is_known he ≡ true
unfolding is_known bytes_to_unicode lookup put
merged_known = refl

toy-IsComplete : IsComplete toy
unfolding byte_is_known
toy-IsComplete = record {
  byte_known = λ b c small e.
      let here : byte_is_known b ≡ true =
        all-lookup byte_is_known 0 256 b bytes_known (omega arith) small in
      is_known-Known (c ∷ []) (rw (byte_is_known, e) at here);
  merge_known = λ a b r e. elim (Bool-cases (same (b'h' ∷ []) a && same (b'e' ∷ []) b)) [
    | inr other ↦ (let bad : none ≡ some r = rw (rank_of, other) at e in cc)
    | inl both ↦
        let first : b'h' ∷ [] ≡ a = same-eq (b'h' ∷ []) a (ground (arith, both)) in
        let second : b'e' ∷ [] ≡ b = same-eq (b'e' ∷ []) b (ground (arith, both)) in
        rw (← first, ← second) (is_known-Known he merged_known)
  ];
}

decode-encode_example :
    (ids : List ℕ) × (encode toy (b'h' ∷ b'e' ∷ 0xe9 ∷ []) ≡ ok ids)
    × (decode toy ids ≡ b'h' ∷ b'e' ∷ 0xe9 ∷ [])
decode-encode_example = decode-encode toy (b'h' ∷ b'e' ∷ 0xe9 ∷ []) toy-IsComplete refl refl

bpe_symbols-Merges_example :
    (raw : List ℕ) × (first last : List Text) × (utf8_encode he ≡ ok raw)
    × (symbols_of raw ≡ ok first)
    × (bpe_symbols toy.rank he ≡ ok last)
    × Merges toy.rank first last
    × (known_bytes (joined last) ≡ raw)
    × AllOf IsByteSymbol first
bpe_symbols-Merges_example = bpe_symbols-Merges toy.rank he refl

encode-he : encode toy he ≡ ok (256 ∷ [])
unfolding encode encode_piece bpe_symbols symbols_of merge_loop bytes_to_unicode lookup put
encode-he = refl

-- "é" in two tokens, one for each of its bytes.
first_byte_decoded : decoded_bytes toy (0xc3 ∷ []) ≡ 0xc3 ∷ []
unfolding known_bytes unicode_to_bytes bytes_to_unicode lookup put
first_byte_decoded = refl

both_bytes_decoded : decoded_bytes toy (0xc3 ∷ 0xa9 ∷ []) ≡ 0xc3 ∷ 0xa9 ∷ []
unfolding known_bytes unicode_to_bytes bytes_to_unicode lookup put
both_bytes_decoded = refl

split_character_lost_example :
    (decode toy (0xc3 ∷ 0xa9 ∷ []) ≡ 0xe9 ∷ [])
    × (joined_yields (iter_batched (decode toy) [] [] (queue_of (0xc3 ∷ 0xa9 ∷ []) too_long)).yields
        ≡ 0xfffd ∷ [])
split_character_lost_example =
    split_character_lost toy 0xe9 0xc3 0xa9 too_long (omega arith) (omega arith) first_byte_decoded
      both_bytes_decoded

-- A byte of its own, and a merged token.
toy-WholeTokens : WholeTokens toy (b'h' ∷ 256 ∷ []) (b'h' ∷ b'h' ∷ b'e' ∷ [])
unfolding known_bytes unicode_to_bytes bytes_to_unicode lookup put
toy-WholeTokens = next_token (b'h' ∷ []) refl (next_token he refl no_tokens)

iter_batched-queue_of_example :
    (joined_yields (iter_batched (decode toy) [] [] (queue_of (b'h' ∷ 256 ∷ []) too_long)).yields
      ≡ b'h' ∷ b'h' ∷ b'e' ∷ [])
    × (decode toy (b'h' ∷ 256 ∷ []) ≡ b'h' ∷ b'h' ∷ b'e' ∷ [])
iter_batched-queue_of_example =
    iter_batched-queue_of toy (b'h' ∷ 256 ∷ []) (b'h' ∷ b'h' ∷ b'e' ∷ []) too_long toy-WholeTokens
