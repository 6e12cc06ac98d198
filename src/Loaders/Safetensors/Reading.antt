-- ===== src/Loaders/Safetensors/Reading.antt =====
-- Reading the header and the tensors of a file: the local and the remote reader agree.
use s_llm.Prelude.{
  ℕ, zero, suc, ◌+◌, ◌-◌, ◌≤◌, ◌≡◌, refl, sym, ap, ◌∙◌, ◌⊎◌, inl, inr, true, false, Option, none,
  some, ◌<◌, if◌then◌else◌, List, [], ◌∷◌, ◌++◌, arith, ltb, ◌==◌, length, take, drop, ok, err,
  Result-cases, safetensors_error, ℤ, Bool-cases, length-append, length-take, length-drop,
}
use s_llm.Prelude.Text.{Text, assign}
use s_llm.Loaders.Slices.Rows.{take-nil, take_all}
use s_llm.Loaders.Slices.Scatter.{take-append, drop-append}
use s_llm.Loaders.Safetensors.{
  Json, TensorSpec, Header, spec_of, parse_header_bytes, read_header, little_endian,
  max_header_bytes, load_one, load_each, load_tensors, get_range, fetch_one, fetch_each,
  load_tensors_from_url,
}

take-take : {A : Type 0} (n m : ℕ) (xs : List A) → n ≤ m → take n (take m xs) ≡ take n xs
take-take zero m xs h = refl
take-take (suc n) zero xs h = absurd (omega (arith, h))
take-take (suc n) (suc m) [] h = refl
take-take (suc n) (suc m) (x ∷ xs) h = ap (◌∷◌ x) (take-take n m xs (omega (arith, h)))

drop-take : {A : Type 0} (n m : ℕ) (xs : List A) → drop n (take (n + m) xs) ≡ take m (drop n xs)
drop-take zero m xs = let same : 0 + m ≡ m = omega arith in rw same refl
drop-take (suc n) m [] =
    let same : suc n + m ≡ suc (n + m) = omega arith in rw same (sym (take-nil m))
drop-take (suc n) m (x ∷ xs) =
    let same : suc n + m ≡ suc (n + m) = omega arith in rw same (drop-take n m xs)

module _ (int_of_text : Text → Option ℤ) (loads : List ℕ → Option Json) where
  -- What `parse_header_bytes` depends on.
  parse_header_bytes-same :
      (xs ys : List ℕ)
      → take 8 xs ≡ take 8 ys
      → ltb (length xs) 8 ≡ ltb (length ys) 8
      → take (little_endian (take 8 ys)) (drop 8 xs) ≡ take (little_endian (take 8 ys)) (drop 8 ys)
      → parse_header_bytes int_of_text loads xs ≡ parse_header_bytes int_of_text loads ys
  unfolding parse_header_bytes
  parse_header_bytes-same xs ys head short body = rw (parse_header_bytes, head, short, body) refl

  -- What the two readers find wrong before they parse.
  read_header_parts :
      (file : List ℕ)
      → ((read_header int_of_text loads file ≡ err safetensors_error)
          × (parse_header_bytes int_of_text loads file ≡ err safetensors_error))
        ⊎ (let n = little_endian (take 8 file) in
            (8 + n ≤ length file)
            × (read_header int_of_text loads file
                ≡ parse_header_bytes int_of_text loads (take 8 file ++ take n (drop 8 file))))
  unfolding read_header parse_header_bytes
  read_header_parts file =
      let n = little_endian (take 8 file) in
      let same : ltb (length (take 8 file)) 8 ≡ ltb (length file) 8 =
        ground (arith, length-take 8 file) in
      elim (Bool-cases (ltb (length file) 8)) [
        | inl short ↦ inl (rw (read_header, same, short) refl, rw (parse_header_bytes, short) refl)
        | inr long ↦ elim (Bool-cases (ltb max_header_bytes n)) [
          | inl huge ↦
              inl
                (rw (read_header, same, long, huge) refl, rw (parse_header_bytes, long, huge) refl)
          | inr small ↦ elim (Bool-cases (ltb (length (take n (drop 8 file))) n)) [
            | inl cut ↦ inl (
              rw (read_header, same, long, small, cut) refl,
              rw (parse_header_bytes, long, small, cut) refl,
            )
            | inr whole ↦ inr (
              ground (arith, length-take n (drop 8 file), length-drop 8 file),
              rw (read_header, same, long, small, whole) refl,
            )
          ]
        ]
      ]

  -- Reading the header from a stream is parsing it from the bytes of the file.
  pub read_header-parse_header_bytes :
      (file : List ℕ)
      → read_header int_of_text loads file ≡ parse_header_bytes int_of_text loads file
  read_header-parse_header_bytes file = elim (read_header_parts file) [
    | inl (first, second) ↦ first ∙ sym second
    | inr (enough, e) ↦
        let n = little_endian (take 8 file) in
        let eight : length (take 8 file) ≡ 8 = omega (arith, length-take 8 file, enough) in
        let rest : length (take n (drop 8 file)) ≡ n =
          omega (arith, length-take n (drop 8 file), length-drop 8 file, enough) in
        e
        ∙ parse_header_bytes-same (take 8 file ++ take n (drop 8 file)) file
            (take-append 8 (take 8 file) (take n (drop 8 file)) eight)
            (ground (arith, length-append (take 8 file) (take n (drop 8 file)), eight, enough))
            (rw (drop-append 8 (take 8 file) (take n (drop 8 file)) eight)
              (take_all n (take n (drop 8 file)) (omega (arith, rest))))
  ]

  -- Parsing a part of the file that has the header is parsing the file.
  parse_header_bytes-take :
      (file : List ℕ) (p : ℕ)
      → 8 + little_endian (take 8 file) ≤ p
      → parse_header_bytes int_of_text loads (take p file)
        ≡ parse_header_bytes int_of_text loads file
  parse_header_bytes-take file p enough =
      let n = little_endian (take 8 file) in
      let split : p ≡ 8 + (p - 8) = omega (arith, enough) in
      parse_header_bytes-same (take p file) file (take-take 8 p file (omega (arith, enough)))
        (ground (arith, length-take p file, enough))
        (ap (λ k. take n (drop 8 (take k file))) split
          ∙ ap (take n) (drop-take 8 (p - 8) file)
          ∙ take-take n (p - 8) (drop 8 file) (omega (arith, enough)))

-- A server that honours a range of at least one byte: it answers 206 with the bytes of the range that
-- there are, and 416 to a range that begins at or after the end of the file.
abbrev pub Honours : (ℕ → ℕ → Option (List ℕ)) → List ℕ → Type 0
Honours answer file =
    (b n : ℕ)
    → 1 ≤ n
    → answer b n ≡ (if ltb b (length file) then some (take n (drop b file)) else none)

-- The named tensors have bytes, not more than one request may ask for, and begin within the file.
abbrev pub IsFetchable : List ℕ → Header → Type 0
IsFetchable file header =
    (name : Text) (spec : TensorSpec)
    → spec_of header name ≡ ok spec
    → (1 ≤ spec.end_at - spec.begin_at)
      × (spec.end_at - spec.begin_at ≤ max_header_bytes)
      × (header.data_offset + spec.begin_at < length file)

module _ (int_of_text : Text → Option ℤ) (loads : List ℕ → Option Json) {A : Type 0}
    (decode_tensor_bytes : List ℕ → TensorSpec → A) where
  -- One tensor is the same from the server as from the file.
  fetch_one-load_one :
      (answer : ℕ → ℕ → Option (List ℕ)) (file : List ℕ) (header : Header) (name : Text)
      → Honours answer file
      → IsFetchable file header
      → fetch_one int_of_text loads decode_tensor_bytes answer header name
        ≡ load_one int_of_text loads decode_tensor_bytes file header name
  fetch_one-load_one answer file header name honours fetchable =
      elim (Result-cases (spec_of header name)) [
        | inr (x, e) ↦ rw (fetch_one, load_one, e) refl
        | inl (spec, e) ↦
            let (some_bytes, few, inside) = fetchable name spec e in
            let span = spec.end_at - spec.begin_at in
            let small : ltb max_header_bytes span ≡ false = ground (arith, few) in
            let slice = take span (drop (header.data_offset + spec.begin_at) file) in
            let begins : ltb (header.data_offset + spec.begin_at) (length file) ≡ true =
              ground (arith, inside) in
            let same : answer (header.data_offset + spec.begin_at) span ≡ some slice =
              honours (header.data_offset + spec.begin_at) span some_bytes ∙ rw begins refl in
            elim (Bool-cases (ltb (length file) (header.data_offset + spec.end_at))) [
              | inr fits ↦ rw (fetch_one, load_one, e, small, same, fits) refl
              | inl beyond ↦
                  let short : (length slice == span) ≡ false = ground (
                    arith,
                    length-take span (drop (header.data_offset + spec.begin_at) file),
                    length-drop (header.data_offset + spec.begin_at) file,
                    some_bytes,
                  ) in
                  rw (fetch_one, load_one, e, small, same, beyond, short) refl
            ]
      ]

  fetch_each-load_each :
      (answer : ℕ → ℕ → Option (List ℕ)) (file : List ℕ) (header : Header) (names : List Text)
      (out : List (Text × A))
      → Honours answer file
      → IsFetchable file header
      → fetch_each int_of_text loads decode_tensor_bytes answer header names out
        ≡ load_each int_of_text loads decode_tensor_bytes file header names out
  fetch_each-load_each answer file header [] out honours fetchable = refl
  fetch_each-load_each answer file header (name ∷ names) out honours fetchable =
      let one = fetch_one-load_one answer file header name honours fetchable in
      elim (Result-cases (load_one int_of_text loads decode_tensor_bytes file header name)) [
        | inr (x, e) ↦ rw (fetch_each, load_each, one, e) refl
        | inl (a, e) ↦
            rw (fetch_each, load_each, one, e)
              (fetch_each-load_each answer file header names (assign name a out) honours fetchable)
      ]

  -- Loading named tensors over HTTP is loading them from the file: for a file that is not empty, a server
  -- that honours ranges and answers 416 to those behind the end of the file, a first range that holds the
  -- header and is within the cap, and tensors that are not empty, within the cap, and begin within the
  -- file. Both give the same tensors, or the same error, also where the file is cut off in a tensor.
  pub load_tensors_from_url-load_tensors :
      (answer : ℕ → ℕ → Option (List ℕ)) (file : List ℕ) (names : List Text) (p : ℕ)
      → 0 < length file
      → Honours answer file
      → 8 + little_endian (take 8 file) ≤ p
      → p ≤ max_header_bytes
      → ((header : Header)
          → parse_header_bytes int_of_text loads file ≡ ok header
          → IsFetchable file header)
      → load_tensors_from_url int_of_text loads decode_tensor_bytes answer names p
        ≡ load_tensors int_of_text loads decode_tensor_bytes file (some names)
  unfolding load_tensors_from_url load_tensors
  load_tensors_from_url-load_tensors answer file names p some_bytes honours enough small fetchable =
      let capped : ltb max_header_bytes p ≡ false = ground (arith, small) in
      let begins : ltb 0 (length file) ≡ true = ground (arith, some_bytes) in
      let first : answer 0 p ≡ some (take p file) =
        honours 0 p (omega (arith, enough)) ∙ rw begins refl in
      let same : parse_header_bytes int_of_text loads (take p file)
          ≡ parse_header_bytes int_of_text loads file =
        parse_header_bytes-take int_of_text loads file p enough in
      let local = read_header-parse_header_bytes int_of_text loads file in
      elim (Result-cases (parse_header_bytes int_of_text loads file)) [
        | inr (x, e) ↦
            rw (load_tensors_from_url, load_tensors, get_range, capped, first, same, local, e) refl
        | inl (header, e) ↦
            rw (load_tensors_from_url, load_tensors, get_range, capped, first, same, local, e)
              (fetch_each-load_each answer file header names [] honours (fetchable header e))
      ]
