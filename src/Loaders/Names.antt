-- ===== src/Loaders/Names.antt =====
-- The regular expressions of loaders/tp_shard.py: a text, a number (`\d+`), or one of several texts, in
-- a row. A text never starts with a digit where it follows a number, so that a match needs no second
-- try. Tensor names are ASCII and have no line break.
use Prim.Native.Char.{code}
use Prim.Native.String.{String}
use s_llm.Prelude.{
  ℕ, ◌+◌, ◌-◌, ◌*◌, Bool, true, false, ◌&&◌, Option, none, some, List, [], ◌∷◌, leb, ◌==◌,
  if◌then◌else◌,
}

-- The code points of a text.
abbrev pub codes : String → List ℕ
codes String.[] = []
codes (String.◌∷◌ c s) = code c ∷ codes s

pub data Piece : Type 0 where
  text : String → Piece
  number : Piece
  one_of : List String → Piece

abbrev is_digit : ℕ → Bool
is_digit c = leb b'0' c && leb c b'9'

-- What is left of a name after a text.
unfoldable pub strip : List ℕ → List ℕ → Option (List ℕ)
strip [] name = some name
strip (c ∷ cs) [] = none
strip (c ∷ cs) (d ∷ name) = let rest = strip cs name in if c == d then rest else none

-- `strip` of the first of several texts that stands there.
unfoldable pub strip_any : List String → List ℕ → Option (List ℕ)
strip_any [] name = none
strip_any (s ∷ ss) name =
    let others = strip_any ss name in
    elim (strip (codes s) name) [ none ↦ others | some rest ↦ some rest ]

-- The digits at the front, as a number, and the rest.
unfoldable pub digits : ℕ → List ℕ → ℕ × List ℕ
digits n [] = (n, [])
digits n (c ∷ name) =
    let more = digits (10 * n + (c - b'0')) name in if is_digit c then more else (n, c ∷ name)

unfoldable pub number_at : List ℕ → Option (ℕ × List ℕ)
number_at [] = none
number_at (c ∷ name) = if is_digit c then some (digits 0 (c ∷ name)) else none

-- The numbers of a name that matches.
unfoldable pub matched : List Piece → List ℕ → Option (List ℕ)
matched [] [] = some []
matched [] (c ∷ name) = none
matched (text s ∷ ps) name = elim (strip (codes s) name) [
  | none ↦ none
  | some rest ↦ matched ps rest
]
matched (one_of ss ∷ ps) name = elim (strip_any ss name) [
  | none ↦ none
  | some rest ↦ matched ps rest
]
matched (number ∷ ps) name = elim (number_at name) [
  | none ↦ none
  | some (n, rest) ↦ elim (matched ps rest) [ none ↦ none | some ns ↦ some (n ∷ ns) ]
]

abbrev pub matches : List Piece → String → Bool
matches ps name = elim (matched ps (codes name)) [ none ↦ false | some ns ↦ true ]
