-- ===== src/Tests/Files.antt =====
-- loaders/safetensors_reader.py on a file with one tensor of four bytes.
use s_llm.Prelude.{
  if◌then◌else◌, ◌+◌, ◌<◌, ltb, length, ℕ, ◌-◌, ◌≤◌, ◌≡◌, refl, sym, ◌∙◌, subst, inl, inr, Option,
  none, some, List, [], ◌∷◌, arith, take, drop, ok, err, ok_inj, safetensors_error, ℤ, pos,
  Bool-cases,
}
use s_llm.Prelude.Text.{Text, same, find}
use s_llm.Loaders.Safetensors.{
  Json, number, text, array, object, nothing, value, nothing_more, member_of, TensorSpec, Header,
  spec_of, dtypes, check_span, parse_entry, parse_entries, parse_header_bytes, load_tensors,
  load_tensors_from_url, read_header, data_offsets, max_header_bytes,
}
use s_llm.Loaders.Safetensors.Accepted.{AllAccepted, parse_header_bytes-AllAccepted}
use s_llm.Loaders.Safetensors.Reading.{IsFetchable, load_tensors_from_url-load_tensors}

abbrev no_numbers : Text → Option ℤ
no_numbers s = none

abbrev weight : Text
weight = b'w' ∷ []

abbrev eight_bits : Text
eight_bits = b'U' ∷ b'8' ∷ []

-- {"w": {"dtype": "U8", "shape": [4], "data_offsets": [0, 4]}}
abbrev document : Json
document = object (
    member_of weight
      (object (
        member_of (b'd' ∷ b't' ∷ b'y' ∷ b'p' ∷ b'e' ∷ []) (text eight_bits) (
          member_of (b's' ∷ b'h' ∷ b'a' ∷ b'p' ∷ b'e' ∷ []) (array (value (number (pos 4)) nothing))
            (member_of data_offsets
              (array (value (number (pos 0)) (value (number (pos 4)) nothing))) nothing_more))))
      nothing_more)

abbrev parses : List ℕ → Option Json
parses bytes = some document

-- The length 2, two bytes that stand for the document, and the tensor.
abbrev file : List ℕ
file = 2 ∷ 0 ∷ 0 ∷ 0 ∷ 0 ∷ 0 ∷ 0 ∷ 0 ∷ 123 ∷ 125 ∷ 11 ∷ 12 ∷ 13 ∷ 14 ∷ []

abbrev one_tensor : Header
one_tensor = record {
  tensors = (weight, record { dtype = eight_bits; shape = 4 ∷ []; begin_at = 0; end_at = 4 }) ∷ [];
  data_offset = 10;
}

file-parsed : parse_header_bytes no_numbers parses file ≡ ok one_tensor
unfolding parse_header_bytes parse_entries parse_entry check_span dtypes
file-parsed = refl

parse_header_bytes-AllAccepted_example : (10 ≤ 14) × AllAccepted one_tensor.tensors
parse_header_bytes-AllAccepted_example =
    parse_header_bytes-AllAccepted no_numbers parses file one_tensor file-parsed

abbrev bytes_only : List ℕ → TensorSpec → List ℕ
bytes_only bytes spec = bytes

abbrev honest : ℕ → ℕ → Option (List ℕ)
honest b n = if ltb b (length file) then some (take n (drop b file)) else none

one_tensor-IsFetchable : IsFetchable file one_tensor
unfolding spec_of
one_tensor-IsFetchable name spec e = elim (Bool-cases (same weight name)) [
  | inr other ↦ (let bad : err safetensors_error ≡ ok spec = rw (spec_of, find, other) at e in cc)
  | inl here ↦
      subst
        (λ (x : TensorSpec).
          (1 ≤ x.end_at - x.begin_at)
          × (x.end_at - x.begin_at ≤ max_header_bytes)
          × (one_tensor.data_offset + x.begin_at < length file))
        (ok_inj (rw (spec_of, find, here) at e)) (omega arith, omega arith, omega arith)
]

load_tensors_from_url-load_tensors_example :
    load_tensors_from_url no_numbers parses bytes_only honest (weight ∷ []) 10
    ≡ load_tensors no_numbers parses bytes_only file (some (weight ∷ []))
load_tensors_from_url-load_tensors_example =
    load_tensors_from_url-load_tensors no_numbers parses bytes_only honest file (weight ∷ []) 10
      (omega arith) (λ b n more. refl) (omega arith) (omega arith)
      (λ header e. subst (IsFetchable file) (ok_inj (sym file-parsed ∙ e)) one_tensor-IsFetchable)

loads-weight :
    load_tensors no_numbers parses bytes_only file none ≡ ok ((weight, 11 ∷ 12 ∷ 13 ∷ 14 ∷ []) ∷ [])
unfolding load_tensors read_header spec_of parse_header_bytes parse_entries parse_entry check_span
    dtypes
loads-weight = refl
