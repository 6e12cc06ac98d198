-- ===== src/Loaders/Safetensors.antt =====
-- loaders/safetensors_reader.py. The JSON parser and `int` of a string are parameters, as are the
-- numpy decoding of the bytes of a tensor and the server that a shard is fetched from.
pub mod Accepted
pub mod Reading
use s_llm.Prelude.{
  ℕ, zero, suc, ◌+◌, ◌-◌, ◌*◌, ◌/◌, ◌%◌, ◌^◌, ◌≤◌, ◌<◌, ◌≡◌, ◌≢◌, refl, sym, ap, ◌∙◌, subst, min,
  ◌⊎◌, inl, inr, ◌↔◌, Bool, true, false, ◌&&◌, ◌||◌, not, Option, none, some, List, [], ◌∷◌, ◌++◌,
  map, arith, ltb, leb, ◌==◌, if◌then◌else◌, bit, length, take, drop, replicate, keep, all, count,
  member, sum, range_from, Outcome, returns, raises, state_of, Result, ok, err, ◌>>=◌, >>=-eq-ok,
  ok_inj, Outcome-cases, Result-cases, List-cases, Error, value_error, key_error, index_error,
  out_of_capacity, collectives_error, shard_error, runtime_error, type_error, safetensors_error,
  overflow_error, http_error, ℤ, pos, negsuc, Bool-cases, Option-cases, leb→le, le→leb, ltb→lt,
  lt→ltb, ==_refl, ==_iff, length-append, take-append-drop, length-take, length-drop, count-append,
  count-split, length-range_from, count-range_from,
}
use s_llm.Prelude.Dict.{
  Dict, lookup, put, without, has, Distinct, lookup-put, lookup-without, put-Distinct,
  without-Distinct, without_missing, length-put_missing, length-put_present, length-without,
  without-put_missing,
}
use s_llm.Prelude.Text.{Text, same, find, assign}

-- A parsed JSON value; a number with a fraction stands for what `int` makes of it, `infinite` for
-- `Infinity` and `-Infinity`.
mutual
  pub data Json : Type 0 where
    null infinite nan : Json
    boolean : Bool → Json
    number : ℤ → Json
    text : Text → Json
    array : Jsons → Json
    object : Members → Json

  pub data Jsons : Type 0 where
    nothing : Jsons
    value : Json → Jsons → Jsons

  pub data Members : Type 0 where
    nothing_more : Members
    member_of : Text → Json → Members → Members

-- The values of `_DTYPES`: how the bytes are decoded.
pub data Kind : Type 0 where
  native bf16 e5m2 e4m3 e8m0 : Kind

-- `_DTYPES`
unfoldable pub dtypes : List (Text × (Kind × ℕ))
dtypes =
    (b'F' ∷ b'6' ∷ b'4' ∷ [], (native, 8))
    ∷ (b'F' ∷ b'3' ∷ b'2' ∷ [], (native, 4))
    ∷ (b'F' ∷ b'1' ∷ b'6' ∷ [], (native, 2))
    ∷ (b'B' ∷ b'F' ∷ b'1' ∷ b'6' ∷ [], (bf16, 2))
    ∷ (b'F' ∷ b'8' ∷ b'_' ∷ b'E' ∷ b'5' ∷ b'M' ∷ b'2' ∷ [], (e5m2, 1))
    ∷ (b'F' ∷ b'8' ∷ b'_' ∷ b'E' ∷ b'4' ∷ b'M' ∷ b'3' ∷ [], (e4m3, 1))
    ∷ (b'F' ∷ b'8' ∷ b'_' ∷ b'E' ∷ b'8' ∷ b'M' ∷ b'0' ∷ [], (e8m0, 1))
    ∷ (b'I' ∷ b'6' ∷ b'4' ∷ [], (native, 8))
    ∷ (b'I' ∷ b'3' ∷ b'2' ∷ [], (native, 4))
    ∷ (b'I' ∷ b'1' ∷ b'6' ∷ [], (native, 2))
    ∷ (b'I' ∷ b'8' ∷ [], (native, 1))
    ∷ (b'U' ∷ b'6' ∷ b'4' ∷ [], (native, 8))
    ∷ (b'U' ∷ b'3' ∷ b'2' ∷ [], (native, 4))
    ∷ (b'U' ∷ b'1' ∷ b'6' ∷ [], (native, 2))
    ∷ (b'U' ∷ b'8' ∷ [], (native, 1))
    ∷ (b'B' ∷ b'O' ∷ b'O' ∷ b'L' ∷ [], (native, 1))
    ∷ []

-- `MAX_HEADER_BYTES`
abbrev pub max_header_bytes : ℕ
max_header_bytes = 2 ^ 28

pub record TensorSpec : Type 0 where
  pub dtype : Text
  pub shape : List ℕ
  pub begin_at : ℕ
  pub end_at : ℕ

abbrev pub product : List ℕ → ℕ
product [] = 1
product (d ∷ ds) = d * product ds

-- `_DTYPES[self.dtype][1]`
abbrev pub itemsize_of : Text → Result ℕ
itemsize_of dtype = elim (find dtype dtypes) [ none ↦ err key_error | some k ↦ ok k.1 ]

unfoldable pub nbytes : TensorSpec → Result ℕ
nbytes spec = itemsize_of spec.dtype >>= λ size. ok (product spec.shape * size)

pub record Header : Type 0 where
  pub tensors : List (Text × TensorSpec)
  pub data_offset : ℕ

unfoldable pub spec_of : Header → Text → Result TensorSpec
spec_of header name = elim (find name header.tensors) [
  | none ↦ err safetensors_error
  | some spec ↦ ok spec
]

abbrev pub data_offsets : Text
data_offsets =
    b'd' ∷ b'a' ∷ b't' ∷ b'a' ∷ b'_' ∷ b'o' ∷ b'f' ∷ b'f' ∷ b's' ∷ b'e' ∷ b't' ∷ b's' ∷ []

abbrev pub metadata : Text
metadata = b'_' ∷ b'_' ∷ b'm' ∷ b'e' ∷ b't' ∷ b'a' ∷ b'd' ∷ b'a' ∷ b't' ∷ b'a' ∷ b'_' ∷ b'_' ∷ []

-- `info[key]`
abbrev pub field : Text → Members → Option Json
field key nothing_more = none
field key (member_of k v rest) = let later = field key rest in if same k key then some v else later

-- `struct.unpack("<Q", bytes)`
abbrev pub little_endian : List ℕ → ℕ
little_endian [] = 0
little_endian (b ∷ bs) = b + 256 * little_endian bs

-- `except (TypeError, ValueError)`; an `OverflowError` is not caught.
abbrev pub failing_with {ℓ} : {A : Type ℓ} → Error → Result A → Result A
failing_with e (ok a) = ok a
failing_with e (err overflow_error) = err overflow_error
failing_with e (err x) = err e

module _ (int_of_text : Text → Option ℤ) where
  -- `int(value)`
  abbrev pub int_of : Json → Result ℤ
  int_of null = err type_error
  int_of infinite = err overflow_error
  int_of nan = err value_error
  int_of (boolean b) = ok (pos (bit b))
  int_of (number z) = ok z
  int_of (text s) = elim (int_of_text s) [ none ↦ err value_error | some z ↦ ok z ]
  int_of (array xs) = err type_error
  int_of (object ms) = err type_error

  -- `tuple(int(x) for x in xs)`
  abbrev pub ints_of : Jsons → Result (List ℤ)
  ints_of nothing = ok []
  ints_of (value x xs) = int_of x >>= λ z. ints_of xs >>= λ zs. ok (z ∷ zs)

  abbrev pub chars_of : Text → Jsons
  chars_of [] = nothing
  chars_of (c ∷ cs) = value (text (c ∷ [])) (chars_of cs)

  abbrev pub keys_of : Members → Jsons
  keys_of nothing_more = nothing
  keys_of (member_of k v rest) = value (text k) (keys_of rest)

  -- The same of any value, where a string yields its characters and a dict its keys.
  abbrev pub shape_of : Json → Result (List ℤ)
  shape_of (text s) = ints_of (chars_of s)
  shape_of (array xs) = ints_of xs
  shape_of (object ms) = ints_of (keys_of ms)
  shape_of _ = err type_error

  -- `any(d < 0 for d in shape)`, and the shape where there is none.
  abbrev pub sizes_of : List ℤ → Result (List ℕ)
  sizes_of [] = ok []
  sizes_of (pos d ∷ ds) = sizes_of ds >>= λ rest. ok (d ∷ rest)
  sizes_of (negsuc d ∷ ds) = err safetensors_error

  -- `d not in _DTYPES`; a list or a dict cannot be hashed.
  abbrev pub known_dtype : Json → Result (Text × ℕ)
  known_dtype (text d) = elim (find d dtypes) [
    | none ↦ err safetensors_error
    | some k ↦ ok (d, k.1)
  ]
  known_dtype (array xs) = err type_error
  known_dtype (object ms) = err type_error
  known_dtype _ = err safetensors_error

  -- `begin < 0 or end < begin`
  abbrev pub span_of : ℤ → ℤ → Result (ℕ × ℕ)
  span_of (pos b) (pos e) = if ltb e b then err safetensors_error else ok (b, e)
  span_of _ _ = err safetensors_error

  abbrev pub offsets_of : Json → Result (ℕ × ℕ)
  offsets_of (array (value x (value y nothing))) = int_of x >>= λ b. int_of y >>= λ e. span_of b e
  offsets_of _ = err safetensors_error

  -- The two checks of the byte span.
  unfoldable pub check_span : Text → ℕ → List ℕ → ℕ → ℕ → Result TensorSpec
  check_span dtype size shape b e =
      if not ((e - b) % size == 0)
      then err safetensors_error
      else if not (product shape * size == e - b)
      then err safetensors_error
      else ok (record { dtype = dtype; shape = shape; begin_at = b; end_at = e })

  -- The entry of one tensor.
  unfoldable pub parse_entry : Json → Result TensorSpec
  parse_entry (object info) = elim (field (b'd' ∷ b't' ∷ b'y' ∷ b'p' ∷ b'e' ∷ []) info) [
    | none ↦ err safetensors_error
    | some d ↦ elim (field (b's' ∷ b'h' ∷ b'a' ∷ b'p' ∷ b'e' ∷ []) info) [
      | none ↦ err safetensors_error
      | some s ↦ elim (field data_offsets info) [
        | none ↦ err safetensors_error
        | some o ↦ known_dtype d >>= λ k. offsets_of o >>= λ span.
            failing_with safetensors_error (shape_of s) >>= λ dims.
            sizes_of dims >>= λ shape. check_span k.0 k.1 shape span.0 span.1
      ]
    ]
  ]
  parse_entry _ = err safetensors_error

  -- The loop over the entries.
  unfoldable pub parse_entries :
      Members → List (Text × TensorSpec) → Result (List (Text × TensorSpec))
  parse_entries nothing_more tensors = ok tensors
  parse_entries (member_of name info rest) tensors =
      if same name metadata
      then parse_entries rest tensors
      else (parse_entry info >>= λ spec. parse_entries rest (assign name spec tensors))

  module _ (loads : List ℕ → Option Json) where
    -- The document in the header bytes.
    abbrev pub parse_document : List ℕ → ℕ → Result Header
    parse_document header_bytes hlen = elim (loads header_bytes) [
      | none ↦ err safetensors_error
      | some (object doc) ↦ parse_entries doc [] >>= λ tensors.
          ok (record { tensors = tensors; data_offset = 8 + hlen })
      | some _ ↦ err safetensors_error
    ]

    unfoldable pub parse_header_bytes : List ℕ → Result Header
    parse_header_bytes prefix =
        let hlen = little_endian (take 8 prefix) in
        let header_bytes = take hlen (drop 8 prefix) in
        if ltb (length prefix) 8
        then err safetensors_error
        else if ltb max_header_bytes hlen
        then err safetensors_error
        else if ltb (length header_bytes) hlen
        then err safetensors_error
        else parse_document header_bytes hlen

    -- On a stream that stands at the start of `file`.
    unfoldable pub read_header : List ℕ → Result Header
    read_header file =
        let head = take 8 file in
        let hlen = little_endian head in
        let body = take hlen (drop 8 file) in
        if ltb (length head) 8
        then err safetensors_error
        else if ltb max_header_bytes hlen
        then err safetensors_error
        else if ltb (length body) hlen
        then err safetensors_error
        else parse_header_bytes (head ++ body)

    module _ {A : Type 0} (decode_tensor_bytes : List ℕ → TensorSpec → A) where
      -- The bytes of one tensor of `file`.
      abbrev pub load_one : List ℕ → Header → Text → Result A
      load_one file header name = spec_of header name >>= λ spec.
          let span = spec.end_at - spec.begin_at in
          let bytes = take span (drop (header.data_offset + spec.begin_at) file) in
          if ltb (length file) (header.data_offset + spec.end_at)
          then err safetensors_error
          else if not (length bytes == span)
          then err safetensors_error
          else ok (decode_tensor_bytes bytes spec)

      abbrev pub load_each :
          List ℕ → Header → List Text → List (Text × A) → Result (List (Text × A))
      load_each file header [] out = ok out
      load_each file header (name ∷ names) out =
          load_one file header name >>= λ a. load_each file header names (assign name a out)

      abbrev pub names_of : List (Text × TensorSpec) → List Text
      names_of tensors = map (λ (x : Text × TensorSpec). x.0) tensors

      -- `names=None` loads all.
      unfoldable pub load_tensors : List ℕ → Option (List Text) → Result (List (Text × A))
      load_tensors file names = read_header file >>= λ header.
          load_each file header (elim names [ none ↦ names_of header.tensors | some ns ↦ ns ]) []

      -- `_get`, where `answer` is what `read(length)` gives for a range, or nothing where `urlopen`
      -- raises an `HTTPError`.
      abbrev pub get_range : (ℕ → ℕ → Option (List ℕ)) → ℕ → ℕ → Result (List ℕ)
      get_range answer b n =
          if ltb max_header_bytes n
          then err safetensors_error
          else elim (answer b n) [ none ↦ err http_error | some bytes ↦ ok bytes ]

      abbrev pub fetch_one : (ℕ → ℕ → Option (List ℕ)) → Header → Text → Result A
      fetch_one answer header name = spec_of header name >>= λ spec.
          get_range answer (header.data_offset + spec.begin_at) (spec.end_at - spec.begin_at)
          >>= λ raw.
              if not (length raw == spec.end_at - spec.begin_at)
              then err safetensors_error
              else ok (decode_tensor_bytes raw spec)

      abbrev pub fetch_each :
          (ℕ → ℕ → Option (List ℕ))
          → Header
          → List Text
          → List (Text × A)
          → Result (List (Text × A))
      fetch_each answer header [] out = ok out
      fetch_each answer header (name ∷ names) out =
          fetch_one answer header name >>= λ a. fetch_each answer header names (assign name a out)

      unfoldable pub load_tensors_from_url :
          (ℕ → ℕ → Option (List ℕ)) → List Text → ℕ → Result (List (Text × A))
      load_tensors_from_url answer names prefix_len = get_range answer 0 prefix_len >>= λ prefix.
          parse_header_bytes prefix >>= λ header. fetch_each answer header names []
