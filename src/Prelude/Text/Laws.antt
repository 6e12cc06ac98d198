-- ===== src/Prelude/Text/Laws.antt =====
-- Laws of Prelude/Text: equality, dicts, and the codec.
use s_llm.Prelude.{
  some, Bool-cases, false, if◌then◌else◌, ℕ, suc, ◌+◌, ◌*◌, ◌/◌, ◌%◌, ◌≤◌, ◌<◌, ◌≡◌, refl, sym, ap,
  ◌∙◌, subst, inl, inr, Bool, true, List, [], ◌∷◌, ◌++◌, arith, ltb, ◌==◌, if◌then◌else◌, all, ok,
  >>=-eq-ok, ok_inj, Result-cases,
}
use mathlib.Core.List.{append_assoc}
use s_llm.Prelude.Text.{
  find, assign, Text, same, is_scalar, utf8_char, utf8_encode, Pending, idle, decode_from,
  utf8_decode,
}

pub same_refl : (s : Text) → same s s ≡ true
same_refl [] = refl
same_refl (c ∷ cs) = ground (arith, same_refl cs)

pub same-eq : (s t : Text) → same s t ≡ true → s ≡ t
same-eq [] [] h = refl
same-eq [] (d ∷ ds) h = cc
same-eq (c ∷ cs) [] h = cc
same-eq (c ∷ cs) (d ∷ ds) h = ground (arith, same-eq cs ds)

abbrev waiting : ℕ → ℕ → Pending
waiting n bits = record { needed = n; bits = bits; lower = 0x80; upper = 0xbf }

decode_last :
    (p : Pending) (x : ℕ) (rest : List ℕ)
    → p.needed ≡ 1
    → p.lower ≤ 0x80 + x
    → 0x80 + x ≤ p.upper
    → decode_from p ((0x80 + x) ∷ rest) ≡ (p.bits * 64 + x) ∷ decode_from idle rest
unfolding decode_from
decode_last p x rest one low high = ground arith

decode_more :
    (p : Pending) (n x : ℕ) (rest : List ℕ)
    → p.needed ≡ suc (suc n)
    → p.lower ≤ 0x80 + x
    → 0x80 + x ≤ p.upper
    → decode_from p ((0x80 + x) ∷ rest) ≡ decode_from (waiting (suc n) (p.bits * 64 + x)) rest
unfolding decode_from
decode_more p n x rest more low high = ground arith

pub decode_two :
    (c : ℕ) (rest : List ℕ)
    → 0x80 ≤ c
    → c < 0x800
    → decode_from idle ((0xc0 + c / 64) ∷ (0x80 + c % 64) ∷ rest) ≡ c ∷ decode_from idle rest
unfolding decode_from
decode_two c rest low high = ground (arith, decode_last (waiting 1 (c / 64)) (c % 64) rest refl)

abbrev second_of_three : ℕ → Pending
second_of_three high = record {
  needed = 2;
  bits = high;
  lower = if high == 0 then 0xa0 else 0x80;
  upper = if high == 13 then 0x9f else 0xbf;
}

abbrev second_of_four : ℕ → Pending
second_of_four high = record {
  needed = 3;
  bits = high;
  lower = if high == 0 then 0x90 else 0x80;
  upper = if high == 4 then 0x8f else 0xbf;
}

decode_lead_three :
    (high : ℕ) (rest : List ℕ)
    → high < 16
    → decode_from idle ((0xe0 + high) ∷ rest) ≡ decode_from (second_of_three high) rest
unfolding decode_from
decode_lead_three high rest small = ground arith

decode_lead_four :
    (high : ℕ) (rest : List ℕ)
    → high < 5
    → decode_from idle ((0xf0 + high) ∷ rest) ≡ decode_from (second_of_four high) rest
unfolding decode_from
decode_lead_four high rest small = ground arith

decode_three :
    (c : ℕ) (rest : List ℕ)
    → 0x800 ≤ c
    → c < 0x10000
    → is_scalar c ≡ true
    → decode_from idle ((0xe0 + c / 4096) ∷ (0x80 + c / 64 % 64) ∷ (0x80 + c % 64) ∷ rest)
      ≡ c ∷ decode_from idle rest
decode_three c rest low high scalar =
    let first : c / 4096 < 16 = omega arith in
    let above : (second_of_three (c / 4096)).lower ≤ 0x80 + c / 64 % 64 = ground arith in
    let below : 0x80 + c / 64 % 64 ≤ (second_of_three (c / 4096)).upper = ground arith in
    let whole : (c / 4096 * 64 + c / 64 % 64) * 64 + c % 64 ≡ c = omega arith in
    decode_lead_three (c / 4096) _ first
    ∙ decode_more (second_of_three (c / 4096)) 0 (c / 64 % 64) _ refl above below
    ∙ decode_last (waiting 1 (c / 4096 * 64 + c / 64 % 64)) (c % 64) rest refl (omega arith)
        (omega arith)
    ∙ ap (λ x. x ∷ decode_from idle rest) whole

decode_four :
    (c : ℕ) (rest : List ℕ)
    → 0x10000 ≤ c
    → c < 0x110000
    → decode_from idle (
        (0xf0 + c / 262144)
        ∷ (0x80 + c / 4096 % 64)
        ∷ (0x80 + c / 64 % 64)
        ∷ (0x80 + c % 64)
        ∷ rest)
      ≡ c ∷ decode_from idle rest
decode_four c rest low high =
    let first : c / 262144 < 5 = omega arith in
    let above : (second_of_four (c / 262144)).lower ≤ 0x80 + c / 4096 % 64 = ground arith in
    let below : 0x80 + c / 4096 % 64 ≤ (second_of_four (c / 262144)).upper = ground arith in
    let whole : ((c / 262144 * 64 + c / 4096 % 64) * 64 + c / 64 % 64) * 64 + c % 64 ≡ c =
      omega arith in
    decode_lead_four (c / 262144) _ first
    ∙ decode_more (second_of_four (c / 262144)) 1 (c / 4096 % 64) _ refl above below
    ∙ decode_more (waiting 2 (c / 262144 * 64 + c / 4096 % 64)) 0 (c / 64 % 64) _ refl (omega arith)
        (omega arith)
    ∙ decode_last (waiting 1 ((c / 262144 * 64 + c / 4096 % 64) * 64 + c / 64 % 64)) (c % 64) rest
        refl (omega arith) (omega arith)
    ∙ ap (λ x. x ∷ decode_from idle rest) whole

decode_one :
    (c : ℕ) (rest : List ℕ) → c < 0x80 → decode_from idle (c ∷ rest) ≡ c ∷ decode_from idle rest
unfolding decode_from
decode_one c rest low = ground arith

decode-utf8_char :
    (c : ℕ) (bytes rest : List ℕ)
    → utf8_char c ≡ ok bytes
    → decode_from idle (bytes ++ rest) ≡ c ∷ decode_from idle rest
decode-utf8_char c bytes rest h =
    ground (arith, decode_one c rest, decode_two c rest, decode_three c rest, decode_four c rest)

-- What a text encodes to decodes to the text.
pub utf8_decode-utf8_encode :
    (s : Text) (bytes : List ℕ) → utf8_encode s ≡ ok bytes → utf8_decode bytes ≡ s
unfolding decode_from
utf8_decode-utf8_encode [] bytes h = rw (← ok_inj h) refl
utf8_decode-utf8_encode (c ∷ cs) bytes h =
    let (here, first, h1) = >>=-eq-ok (utf8_char c) _ h in
    let (rest, second, h2) = >>=-eq-ok (utf8_encode cs) _ h1 in
    rw (← ok_inj h2)
      (decode-utf8_char c here rest first ∙ ap (◌∷◌ c) (utf8_decode-utf8_encode cs rest second))

abbrev pub is_byte : ℕ → Bool
is_byte b = ltb b 256

pub all-append :
    {A : Type 0} (p : A → Bool) (xs ys : List A)
    → all p xs ≡ true
    → all p ys ≡ true
    → all p (xs ++ ys) ≡ true
all-append p [] ys h k = k
all-append p (x ∷ xs) ys h k = ground (arith, all-append p xs ys)

utf8_char-total :
    (c : ℕ)
    → is_scalar c ≡ true
    → (bytes : List ℕ) × (utf8_char c ≡ ok bytes) × (all is_byte bytes ≡ true)
utf8_char-total c h = elim (Result-cases (utf8_char c)) [
  | inl (bytes, e) ↦ (bytes, e, ground arith)
  | inr (x, e) ↦ ground arith
]

-- Every text of scalar values can be encoded, in bytes.
pub utf8_encode-total :
    (s : Text)
    → all is_scalar s ≡ true
    → (bytes : List ℕ) × (utf8_encode s ≡ ok bytes) × (all is_byte bytes ≡ true)
utf8_encode-total [] h = ([], refl, refl)
utf8_encode-total (c ∷ cs) h =
    let (here, first, small) = utf8_char-total c (ground arith) in
    let (rest, second, smalls) = utf8_encode-total cs (ground arith) in
    (here ++ rest, rw (first, second) refl, all-append is_byte here rest small smalls)

pub all-append_left :
    {A : Type 0} (p : A → Bool) (xs ys : List A) → all p (xs ++ ys) ≡ true → all p xs ≡ true
all-append_left p [] ys h = refl
all-append_left p (x ∷ xs) ys h = ground (arith, all-append_left p xs ys)

pub all-append_right :
    {A : Type 0} (p : A → Bool) (xs ys : List A) → all p (xs ++ ys) ≡ true → all p ys ≡ true
all-append_right p [] ys h = h
all-append_right p (x ∷ xs) ys h = ground (arith, all-append_right p xs ys)

pub append_eq : {A : Type 0} {a b c d : List A} → a ≡ b → c ≡ d → a ++ c ≡ b ++ d
append_eq h k = rw (h, k) refl

utf8_encode-cons :
    (c : ℕ) (cs : Text) (here rest : List ℕ)
    → utf8_char c ≡ ok here
    → utf8_encode cs ≡ ok rest
    → utf8_encode (c ∷ cs) ≡ ok (here ++ rest)
utf8_encode-cons c cs here rest e e' = rw (utf8_encode, e, e') refl

pub utf8_encode-append :
    (s t : Text) (xs ys : List ℕ)
    → utf8_encode s ≡ ok xs
    → utf8_encode t ≡ ok ys
    → utf8_encode (s ++ t) ≡ ok (xs ++ ys)
utf8_encode-append [] t xs ys e e' = subst (λ zs. utf8_encode t ≡ ok (zs ++ ys)) (ok_inj e) e'
utf8_encode-append (c ∷ cs) t xs ys e e' =
    let (here, e1, h1) = >>=-eq-ok (utf8_char c) _ e in
    let (rest, e2, h2) = >>=-eq-ok (utf8_encode cs) _ h1 in
    utf8_encode-cons c (cs ++ t) here (rest ++ ys) e1 (utf8_encode-append cs t rest ys e2 e')
    ∙ ap ok (sym (append_assoc here rest ys) ∙ ap (λ zs. zs ++ ys) (ok_inj h2))

-- An assignment is found again, and leaves the other keys.
pub find-assign :
    {V : Type 0} (key x : Text) (v : V) (d : List (Text × V))
    → find x (assign key v d) ≡ (if same key x then some v else find x d)
find-assign key x v [] = refl
find-assign key x v ((k, w) ∷ d) = elim (Bool-cases (same k key)) [
  | inl e ↦ rw e (rw (← same-eq k key e) (found k))
  | inr e ↦ elim (Bool-cases (same k x)) [
    | inl f ↦ let apart : same key x ≡ false = other_key k e f in rw (e, f, apart) refl
    | inr f ↦ rw (e, f) (find-assign key x v d)
  ]
]
  where
    found :
        (k : Text)
        → (if same k x then some v else find x d)
          ≡ (if same k x then some v else (if same k x then some w else find x d))
    found k = ground arith

    clash : {b : Bool} → b ≡ true → b ≡ false → ⊥
    clash h k = ground arith

    unlike : {k : Text} → k ≡ x → key ≡ x → same k key ≡ false → ⊥
    unlike p q e = clash (same_refl x) (rw (p, q) at e)

    other_key : (k : Text) → same k key ≡ false → same k x ≡ true → same key x ≡ false
    other_key k e f = elim (Bool-cases (same key x)) [
      | inl g ↦ absurd (unlike (same-eq k x f) (same-eq key x g) e)
      | inr g ↦ g
    ]
