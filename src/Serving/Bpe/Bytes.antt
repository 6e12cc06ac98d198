-- ===== src/Serving/Bpe/Bytes.antt =====
-- The 256 characters that stand for the bytes.
use s_llm.Prelude.{
  ℕ, zero, suc, ◌+◌, ◌≤◌, ◌<◌, ◌≡◌, refl, ap, ◌∙◌, inl, inr, Bool, true, false, none, some, List,
  [], ◌∷◌, ◌++◌, arith, ◌==◌, length, all, range_from, ok, Option-cases,
}
use s_llm.Prelude.Dict.{lookup, put}
use s_llm.Prelude.Text.{Text}
use s_llm.Prelude.Text.Laws.{is_byte}
use s_llm.Serving.Bpe.{bytes_to_unicode, unicode_to_bytes, symbols_of, known_bytes}

-- Whether byte `b` has a character and comes back from it.
comes_back : ℕ → Bool
comes_back b = elim (lookup b bytes_to_unicode) [
  | none ↦ false
  | some c ↦ elim (lookup c unicode_to_bytes) [ none ↦ false | some d ↦ d == b ]
]

all_come_back : all comes_back (range_from 0 256) ≡ true
unfolding comes_back unicode_to_bytes bytes_to_unicode lookup put
all_come_back = refl

pub all-lookup :
    (p : ℕ → Bool) (lo n b : ℕ) → all p (range_from lo n) ≡ true → lo ≤ b → b < lo + n → p b ≡ true
all-lookup p lo zero b h low high = ground arith
all-lookup p lo (suc n) b h low high = ground (arith, all-lookup p (suc lo) n b)

-- The characters of a byte are found, and lead back to it.
pub bytes_to_unicode-unicode_to_bytes :
    (b : ℕ)
    → b < 256
    → (c : ℕ) × (lookup b bytes_to_unicode ≡ some c) × (lookup c unicode_to_bytes ≡ some b)
unfolding comes_back
bytes_to_unicode-unicode_to_bytes b small =
    let known = all-lookup comes_back 0 256 b all_come_back (omega arith) small in
    elim (Option-cases (lookup b bytes_to_unicode)) [
      | inl missing ↦ ground arith
      | inr (c, e) ↦ elim (Option-cases (lookup c unicode_to_bytes)) [
        | inl missing ↦ ground arith
        | inr (d, e') ↦ (c, e, e' ∙ ap some (ground arith))
      ]
    ]

known_bytes-some :
    (c b : ℕ) (cs : Text)
    → lookup c unicode_to_bytes ≡ some b
    → known_bytes (c ∷ cs) ≡ b ∷ known_bytes cs
unfolding known_bytes
known_bytes-some c b cs e = rw (known_bytes, e) refl

known_bytes-none :
    (c : ℕ) (cs : Text) → lookup c unicode_to_bytes ≡ none → known_bytes (c ∷ cs) ≡ known_bytes cs
unfolding known_bytes
known_bytes-none c cs e = rw (known_bytes, e) refl

pub known_bytes-append : (s t : Text) → known_bytes (s ++ t) ≡ known_bytes s ++ known_bytes t
unfolding known_bytes
known_bytes-append [] t = refl
known_bytes-append (c ∷ cs) t = elim (Option-cases (lookup c unicode_to_bytes)) [
  | inl missing ↦
      known_bytes-none c (cs ++ t) missing
      ∙ known_bytes-append cs t
      ∙ rw (known_bytes-none c cs missing) refl
  | inr (b, e) ↦
      known_bytes-some c b (cs ++ t) e
      ∙ ap (◌∷◌ b) (known_bytes-append cs t)
      ∙ rw (known_bytes-some c b cs e) refl
]

symbols_of-some :
    (b c : ℕ) (bs : List ℕ) (words : List Text)
    → lookup b bytes_to_unicode ≡ some c
    → symbols_of bs ≡ ok words
    → symbols_of (b ∷ bs) ≡ ok ((c ∷ []) ∷ words)
unfolding symbols_of
symbols_of-some b c bs words e e' = rw (symbols_of, e, e') refl

-- The characters of the symbols, in order.
abbrev pub joined : List Text → Text
joined [] = []
joined (s ∷ ss) = s ++ joined ss

-- A symbol of one character that stands for a byte.
abbrev pub IsByteSymbol : Text → Type 0
IsByteSymbol s = (b : ℕ) × (c : ℕ) × (b < 256) × (lookup b bytes_to_unicode ≡ some c) × (s ≡ c ∷ [])

abbrev pub AllOf : (Text → Type 0) → List Text → Type 0
AllOf P [] = Unit
AllOf P (s ∷ ss) = P s × AllOf P ss

pub symbols_of-total :
    (bs : List ℕ)
    → all is_byte bs ≡ true
    → (words : List Text) × (symbols_of bs ≡ ok words)
      × (known_bytes (joined words) ≡ bs)
      × (length words ≡ length bs)
      × AllOf IsByteSymbol words
unfolding symbols_of known_bytes
symbols_of-total [] h = ([], refl, refl, refl, tt)
symbols_of-total (b ∷ bs) h =
    let (c, there, back) = bytes_to_unicode-unicode_to_bytes b (ground arith) in
    let (words, e, known, long, every) = symbols_of-total bs (ground arith) in
    (
      (c ∷ []) ∷ words,
      symbols_of-some b c bs words there e,
      known_bytes-some c b (joined words) back ∙ ap (◌∷◌ b) known,
      ap suc long,
      ((b, c, ground arith, there, refl), every),
    )
