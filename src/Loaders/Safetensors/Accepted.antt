-- ===== src/Loaders/Safetensors/Accepted.antt =====
-- What an accepted header of a safetensors file says of its tensors.
use s_llm.Prelude.{
  ℕ, ◌+◌, ◌-◌, ◌*◌, ◌%◌, ◌≤◌, ◌≡◌, refl, sym, ap, ◌∙◌, subst, inl, inr, Option, none, some, List,
  [], ◌∷◌, arith, ltb, ◌==◌, length, take, drop, Result, ok, err, ◌>>=◌, >>=-eq-ok, ok_inj, checked,
  safetensors_error, ℤ, pos, negsuc, Bool-cases, Option-cases, ==_iff, length-take, length-drop,
}
use s_llm.Prelude.Text.{Text, same, find, assign}
use s_llm.Prelude.Text.Laws.{find-assign}
use s_llm.Loaders.Safetensors.{
  Json, null, infinite, nan, boolean, number, text, array, object, Members, nothing_more, member_of,
  dtypes, TensorSpec, product, itemsize_of, nbytes, Header, known_dtype, span_of, offsets_of,
  int_of, value, nothing, data_offsets, sizes_of, shape_of, failing_with, check_span, parse_entry,
  parse_entries, metadata, parse_header_bytes, little_endian, max_header_bytes, field,
}

-- The bytes of a tensor are as many as its shape and its type ask for.
pub record IsAccepted (spec : TensorSpec) : Type 0 where
  pub ordered : spec.begin_at ≤ spec.end_at
  pub sized : nbytes spec ≡ ok (spec.end_at - spec.begin_at)

abbrev pub AllAccepted : List (Text × TensorSpec) → Type 0
AllAccepted tensors =
    (name : Text) (spec : TensorSpec) → find name tensors ≡ some spec → IsAccepted spec

module _ (int_of_text : Text → Option ℤ) where
  known_dtype-size :
      (j : Json) (k : Text × ℕ) → known_dtype int_of_text j ≡ ok k → itemsize_of k.0 ≡ ok k.1
  known_dtype-size (text d) k h = elim (Option-cases (find d dtypes)) [
    | inl missing ↦ (let no : err safetensors_error ≡ ok k = rw (known_dtype, missing) at h in cc)
    | inr (kind, there) ↦
        (let same : (d, kind.1) ≡ k = ok_inj (rw (known_dtype, there) at h) in
          subst (λ x. itemsize_of x.0 ≡ ok x.1) same (rw (itemsize_of, there) refl))
  ]
  known_dtype-size null k h = cc
  known_dtype-size infinite k h = cc
  known_dtype-size nan k h = cc
  known_dtype-size (boolean b) k h = cc
  known_dtype-size (number z) k h = cc
  known_dtype-size (array xs) k h = cc
  known_dtype-size (object ms) k h = cc

  span_of-ordered : (b e : ℤ) (span : ℕ × ℕ) → span_of int_of_text b e ≡ ok span → span.0 ≤ span.1
  span_of-ordered (pos b) (pos e) span h = elim (Bool-cases (ltb e b)) [
    | inl bad ↦ (let no : err safetensors_error ≡ ok span = rw (span_of, bad) at h in cc)
    | inr fine ↦
        (let same : (b, e) ≡ span = ok_inj (rw (span_of, fine) at h) in
          subst (λ (x : ℕ × ℕ). x.0 ≤ x.1) same (ground arith))
  ]
  span_of-ordered (pos b) (negsuc e) span h = cc
  span_of-ordered (negsuc b) (pos e) span h = cc
  span_of-ordered (negsuc b) (negsuc e) span h = cc

  offsets_of-ordered :
      (j : Json) (span : ℕ × ℕ) → offsets_of int_of_text j ≡ ok span → span.0 ≤ span.1
  offsets_of-ordered (array (value x (value y nothing))) span h =
      let (b, first, h1) = >>=-eq-ok (int_of int_of_text x) _ h in
      let (e, second, h2) = >>=-eq-ok (int_of int_of_text y) _ h1 in span_of-ordered b e span h2
  offsets_of-ordered (array (value x (value y (value z zs)))) span h = cc
  offsets_of-ordered (array (value x nothing)) span h = cc
  offsets_of-ordered (array nothing) span h = cc
  offsets_of-ordered null span h = cc
  offsets_of-ordered infinite span h = cc
  offsets_of-ordered nan span h = cc
  offsets_of-ordered (boolean b) span h = cc
  offsets_of-ordered (number z) span h = cc
  offsets_of-ordered (text s) span h = cc
  offsets_of-ordered (object ms) span h = cc

  check_span-IsAccepted :
      (dtype : Text) (size : ℕ) (shape : List ℕ) (b e : ℕ) (spec : TensorSpec)
      → itemsize_of dtype ≡ ok size
      → b ≤ e
      → check_span int_of_text dtype size shape b e ≡ ok spec
      → IsAccepted spec
  unfolding check_span nbytes
  check_span-IsAccepted dtype size shape b e spec known ordered h =
      let (whole, h1) = checked ((e - b) % size == 0) _ _ _ h in
      let (matches, h2) = checked (product shape * size == e - b) _ _ _ h1 in
      subst IsAccepted (ok_inj h2) (record {
        ordered = ordered;
        sized = rw (nbytes, known) (ap ok ((==_iff (product shape * size) (e - b)).0 matches));
      })

  parse_entry-IsAccepted :
      (info : Json) (spec : TensorSpec) → parse_entry int_of_text info ≡ ok spec → IsAccepted spec
  unfolding parse_entry
  parse_entry-IsAccepted (object info) spec h =
      elim (Option-cases (field (b'd' ∷ b't' ∷ b'y' ∷ b'p' ∷ b'e' ∷ []) info)) [
        | inl e ↦ (let no : err safetensors_error ≡ ok spec = rw (parse_entry, e) at h in cc)
        | inr (d, e) ↦ elim (Option-cases (field (b's' ∷ b'h' ∷ b'a' ∷ b'p' ∷ b'e' ∷ []) info)) [
          | inl e' ↦ (let no : err safetensors_error ≡ ok spec = rw (parse_entry, e, e') at h in cc)
          | inr (s, e') ↦ elim (Option-cases (field data_offsets info)) [
            | inl o ↦
                (let no : err safetensors_error ≡ ok spec = rw (parse_entry, e, e', o) at h in cc)
            | inr (o, e2) ↦ chain d s o (rw (parse_entry, e, e', e2) at h)
          ]
        ]
      ]
    where
      chain :
          (d s o : Json)
          → (known_dtype int_of_text d >>= λ k. offsets_of int_of_text o >>= λ span.
              failing_with safetensors_error (shape_of int_of_text s) >>= λ dims.
              sizes_of int_of_text dims >>= λ shape.
              check_span int_of_text k.0 k.1 shape span.0 span.1)
            ≡ ok spec
          → IsAccepted spec
      chain d s o h0 =
          let (k, e1, h1) = >>=-eq-ok (known_dtype int_of_text d) _ h0 in
          let (span, e2, h2) = >>=-eq-ok (offsets_of int_of_text o) _ h1 in
          let (dims, e3, h3) =
            >>=-eq-ok (failing_with safetensors_error (shape_of int_of_text s)) _ h2 in
          let (shape, e4, h4) = >>=-eq-ok (sizes_of int_of_text dims) _ h3 in
          check_span-IsAccepted k.0 k.1 shape span.0 span.1 spec (known_dtype-size d k e1)
            (offsets_of-ordered o span e2) h4
  parse_entry-IsAccepted null spec h = cc
  parse_entry-IsAccepted infinite spec h = cc
  parse_entry-IsAccepted nan spec h = cc
  parse_entry-IsAccepted (boolean b) spec h = cc
  parse_entry-IsAccepted (number z) spec h = cc
  parse_entry-IsAccepted (text s) spec h = cc
  parse_entry-IsAccepted (array xs) spec h = cc

  assign-AllAccepted :
      (name : Text) (spec : TensorSpec) (tensors : List (Text × TensorSpec))
      → IsAccepted spec
      → AllAccepted tensors
      → AllAccepted (assign name spec tensors)
  assign-AllAccepted name spec tensors a every x found h = elim (Bool-cases (same name x)) [
    | inl e ↦ subst IsAccepted (some_inj (sym (find-assign name x spec tensors ∙ rw e refl) ∙ h)) a
    | inr e ↦ every x found (sym (find-assign name x spec tensors ∙ rw e refl) ∙ h)
  ]
    where
      some_inj : {u w : TensorSpec} → some u ≡ some w → u ≡ w
      some_inj p = cc

  parse_entries-AllAccepted :
      (doc : Members) (tensors last : List (Text × TensorSpec))
      → AllAccepted tensors
      → parse_entries int_of_text doc tensors ≡ ok last
      → AllAccepted last
  unfolding parse_entries
  parse_entries-AllAccepted nothing_more tensors last every h = subst AllAccepted (ok_inj h) every
  parse_entries-AllAccepted (member_of name info rest) tensors last every h =
      elim (Bool-cases (same name metadata)) [
        | inl e ↦ parse_entries-AllAccepted rest tensors last every (rw (parse_entries, e) at h)
        | inr e ↦
            let (spec, fine, h1) =
              >>=-eq-ok (parse_entry int_of_text info) _ (rw (parse_entries, e) at h) in
            parse_entries-AllAccepted rest (assign name spec tensors) last
              (assign-AllAccepted name spec tensors (parse_entry-IsAccepted info spec fine) every)
              h1
      ]

  -- A header that is accepted lies within the bytes given, and each of its tensors spans as many bytes as
  -- its shape and its type ask for.
  pub parse_header_bytes-AllAccepted :
      (loads : List ℕ → Option Json) (prefix : List ℕ) (header : Header)
      → parse_header_bytes int_of_text loads prefix ≡ ok header
      → (header.data_offset ≤ length prefix) × AllAccepted header.tensors
  unfolding parse_header_bytes
  parse_header_bytes-AllAccepted loads prefix header h = elim (Bool-cases (ltb (length prefix) 8)) [
    | inl short ↦ refused (rw (parse_header_bytes, short) at h)
    | inr long ↦ elim (Bool-cases (ltb max_header_bytes hlen)) [
      | inl huge ↦ refused (rw (parse_header_bytes, long, huge) at h)
      | inr small ↦ elim (Bool-cases (ltb (length (take hlen (drop 8 prefix))) hlen)) [
        | inl cut ↦ refused (rw (parse_header_bytes, long, small, cut) at h)
        | inr whole ↦
            let enough : 8 + hlen ≤ length prefix =
              ground (arith, length-take hlen (drop 8 prefix), length-drop 8 prefix) in
            document (loads (take hlen (drop 8 prefix))) enough
              (rw (parse_header_bytes, long, small, whole) at h)
      ]
    ]
  ]
    where
      hlen : ℕ
      hlen = little_endian (take 8 prefix)

      Accepted : Type 0
      Accepted = (header.data_offset ≤ length prefix) × AllAccepted header.tensors

      refused : err safetensors_error ≡ ok header → Accepted
      refused bad = cc

      document :
          (parsed : Option Json)
          → 8 + hlen ≤ length prefix
          → (elim parsed as (λ _. Result Header) [
            | none ↦ err safetensors_error
            | some (object doc) ↦ parse_entries int_of_text doc [] >>= λ tensors.
                ok (record { tensors = tensors; data_offset = 8 + hlen })
            | some _ ↦ err safetensors_error
          ])
            ≡ ok header
          → Accepted
      document none enough k = refused k
      document (some (object doc)) enough k =
          let (tensors, fine, k1) = >>=-eq-ok (parse_entries int_of_text doc []) _ k in
          (
            subst (λ (x : Header). x.data_offset ≤ length prefix) (ok_inj k1) enough,
            subst (λ (x : Header). AllAccepted x.tensors) (ok_inj k1)
                (parse_entries-AllAccepted doc [] tensors (λ name spec none_found. cc) fine),
          )
      document (some null) enough k = refused k
      document (some infinite) enough k = refused k
      document (some nan) enough k = refused k
      document (some (boolean b)) enough k = refused k
      document (some (number z)) enough k = refused k
      document (some (text t)) enough k = refused k
      document (some (array xs)) enough k = refused k
