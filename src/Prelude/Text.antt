-- ===== src/Prelude/Text.antt =====
-- Python's `str` and `bytes` as serving/bpe.py uses them: lists of code points and of bytes, dicts with
-- strings for keys, and the UTF-8 codec. `utf8_decode` is `bytes.decode("utf-8", errors="replace")`: an
-- ill-formed sequence, up to its longest valid beginning, becomes U+FFFD.
pub mod Laws
use Prim.Native.Nat.{ℕ, ◌+◌, ◌-◌, ◌*◌, ◌/◌, ◌%◌}
use mathlib.Core.Bool.{Bool, true, false, ◌&&◌, ◌||◌, not}
use mathlib.Core.List.{List, [], ◌∷◌, ◌++◌}
use mathlib.Core.Option.{Option, none, some}
use s_llm.Prelude.Tests.{ltb, leb, ◌==◌, if◌then◌else◌}
use s_llm.Prelude.Results.{Result, ok, err, ◌>>=◌, value_error}

abbrev pub Text : Type 0
Text = List ℕ

abbrev pub same : Text → Text → Bool
same [] [] = true
same [] (d ∷ ds) = false
same (c ∷ cs) [] = false
same (c ∷ cs) (d ∷ ds) = let rest = same cs ds in c == d && rest

-- d.get(key)
abbrev pub find {ℓ} : {V : Type ℓ} → Text → List (Text × V) → Option V
find key [] = none
find key ((k, v) ∷ d) = let rest = find key d in if same k key then some v else rest

-- d[key] = v
abbrev pub assign {ℓ} : {V : Type ℓ} → Text → V → List (Text × V) → List (Text × V)
assign key v [] = (key, v) ∷ []
assign key v ((k, w) ∷ d) =
    let rest = assign key v d in if same k key then (k, v) ∷ d else (k, w) ∷ rest

-- A code point that is not half of a surrogate pair.
abbrev pub is_scalar : ℕ → Bool
is_scalar c = ltb c 0xd800 || (leb 0xe000 c && ltb c 0x110000)

abbrev pub utf8_char : ℕ → Result (List ℕ)
utf8_char c =
    if ltb c 0x80
    then ok (c ∷ [])
    else if ltb c 0x800
    then ok ((0xc0 + c / 64) ∷ (0x80 + c % 64) ∷ [])
    else if not (is_scalar c)
    then err value_error
    else if ltb c 0x10000
    then ok ((0xe0 + c / 4096) ∷ (0x80 + c / 64 % 64) ∷ (0x80 + c % 64) ∷ [])
    else ok
        ((0xf0 + c / 262144) ∷ (0x80 + c / 4096 % 64) ∷ (0x80 + c / 64 % 64) ∷ (0x80 + c % 64) ∷ [])

abbrev pub utf8_encode : Text → Result (List ℕ)
utf8_encode [] = ok []
utf8_encode (c ∷ cs) = utf8_char c >>= λ here. utf8_encode cs >>= λ rest. ok (here ++ rest)

-- Where the decoder stands: how many bytes are needed, the bits so far, and the range of the next byte.
pub record Pending : Type 0 where
  pub needed : ℕ
  pub bits : ℕ
  pub lower : ℕ
  pub upper : ℕ

abbrev pub idle : Pending
idle = record { needed = 0; bits = 0; lower = 0x80; upper = 0xbf }

-- The first byte of a sequence: what comes out, and the state after it.
abbrev pub first_byte : ℕ → Text × Pending
first_byte b =
    if ltb b 0x80
    then (b ∷ [], idle)
    else if ltb b 0xc2
    then (0xfffd ∷ [], idle)
    else if ltb b 0xe0
    then ([], record { needed = 1; bits = b - 0xc0; lower = 0x80; upper = 0xbf })
    else if ltb b 0xf0
    then (
      [],
      record {
        needed = 2;
        bits = b - 0xe0;
        lower = if b == 0xe0 then 0xa0 else 0x80;
        upper = if b == 0xed then 0x9f else 0xbf;
      },
    )
    else if ltb b 0xf5
    then (
      [],
      record {
        needed = 3;
        bits = b - 0xf0;
        lower = if b == 0xf0 then 0x90 else 0x80;
        upper = if b == 0xf4 then 0x8f else 0xbf;
      },
    )
    else (0xfffd ∷ [], idle)

abbrev pub next_byte : Pending → ℕ → Text × Pending
next_byte p b =
    if p.needed == 0
    then first_byte b
    else if ltb b p.lower || ltb p.upper b
    then (0xfffd ∷ (first_byte b).0, (first_byte b).1)
    else let bits = p.bits * 64 + (b - 0x80) in
      if p.needed == 1
      then (bits ∷ [], idle)
      else ([], record { needed = p.needed - 1; bits = bits; lower = 0x80; upper = 0xbf })

unfoldable pub decode_from : Pending → List ℕ → Text
decode_from p [] = if p.needed == 0 then [] else 0xfffd ∷ []
decode_from p (b ∷ bs) = (next_byte p b).0 ++ decode_from (next_byte p b).1 bs

abbrev pub utf8_decode : List ℕ → Text
utf8_decode bs = decode_from idle bs
