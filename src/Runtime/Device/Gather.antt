-- ===== src/Runtime/Device/Gather.antt =====
-- What the device backend stores is what it gathers.
use s_llm.Prelude.{
  ℕ, ◌+◌, ◌≤◌, ◌<◌, ◌≡◌, refl, sym, ap, ◌∙◌, subst, inl, inr, true, false, ◌&&◌, Option, none, some,
  Bool, List, arith, ◌==◌, if◌then◌else◌, returns, state_of, Result, ok, err, key_error,
  runtime_error, Bool-cases, Option-cases, ==_iff,
}
use s_llm.Prelude.Dict.{Dict, lookup, put, without, has, lookup-put, lookup-without}
use s_llm.Runtime.Device.{
  DeviceKvBackend, replace, layers_at, free_stale, store_device, copy_pair, gather_device,
}
use s_llm.Runtime.Device.Apart.{pair_at, two_pairs}
use s_llm.Runtime.Device.Leak.{
  IsHeld, held, held_pair, held_pair-le, held_layers-le, has-put, to_device-cases,
}

module _ {F : Type 0} where
  lookup-free_stale :
      (p : ℕ) (stale : Option (ℕ × ℕ)) (live : Dict F)
      → held_pair p stale ≡ 0
      → lookup p (free_stale stale live) ≡ lookup p live
  lookup-free_stale p none live h = refl
  lookup-free_stale p (some (a, b)) live h =
      ground (arith, lookup-without b p (without a live), lookup-without a p live)

  -- The pair at a layer after it is replaced.
  pair_at-replace :
      (d : DeviceKvBackend F) (live : Dict F) (q l j m : ℕ) (pair : ℕ × ℕ)
      → pair_at j m (replace d live q l pair).bufs
        ≡ (if (q == j) && (l == m) then some pair else pair_at j m d.bufs)
  unfolding lookup
  pair_at-replace d live q l j m pair = ground (
    arith,
    lookup-put q j (put l pair (layers_at q d.bufs)) d.bufs,
    lookup-put l m pair (layers_at q d.bufs),
  )

  -- The contents of a pair of buffers, if there is one.
  abbrev read : Option (ℕ × ℕ) → Dict F → Result (F × F)
  read none live = err key_error
  read (some pair) live = copy_pair pair live

  gather_pair :
      (d : DeviceKvBackend F) (j m : ℕ) → gather_device d j m ≡ read (pair_at j m d.bufs) d.live
  unfolding gather_device lookup
  gather_pair d j m = elim (Option-cases (lookup j d.bufs)) [
    | inl e ↦ rw (e, layers_at, gather_device) refl
    | inr (layers, e) ↦ elim (Option-cases (lookup m layers)) [
      | inl f ↦ rw (e, f, layers_at, gather_device) refl
      | inr (pair, f) ↦ rw (e, f, layers_at, gather_device) refl
    ]
  ]

  abbrev both : Option F → Option F → Result (F × F)
  both x y = elim x [
    | none ↦ err runtime_error
    | some k ↦ elim y [ none ↦ err runtime_error | some v ↦ ok (k, v) ]
  ]

  read_kept :
      (o : Option (ℕ × ℕ)) (live live' : Dict F)
      → ((p : ℕ) → 0 < held_pair p o → lookup p live' ≡ lookup p live)
      → read o live' ≡ read o live
  read_kept none live live' h = refl
  read_kept (some (a, b)) live live' h =
      ap (λ o. both o (lookup b live')) (h a (ground arith))
      ∙ ap (λ o. both (lookup a live) o) (h b (ground arith))

  new_there :
      (d : DeviceKvBackend F) (kb vb : ℕ) (k v : F) (stale : Option (ℕ × ℕ))
      → held_pair kb stale ≡ 0
      → held_pair vb stale ≡ 0
      → (kb == vb) ≡ false
      → copy_pair (kb, vb) (free_stale stale (put vb v (put kb k d.live))) ≡ ok (k, v)
  new_there d kb vb k v stale e f h = ground (
    arith,
    e,
    f,
    h,
    lookup-free_stale kb stale (put vb v (put kb k d.live)) e,
    lookup-free_stale vb stale (put vb v (put kb k d.live)) f,
    lookup-put vb kb v (put kb k d.live),
    lookup-put vb vb v (put kb k d.live),
    lookup-put kb kb k d.live,
  )

  old_there :
      (d : DeviceKvBackend F) (kb vb p : ℕ) (k v : F) (stale : Option (ℕ × ℕ))
      → held_pair p stale ≡ 0
      → (kb == p) ≡ false
      → (vb == p) ≡ false
      → lookup p (free_stale stale (put vb v (put kb k d.live))) ≡ lookup p d.live
  old_there d kb vb p k v stale e f h = ground (
    arith,
    e,
    f,
    h,
    lookup-free_stale p stale (put vb v (put kb k d.live)) e,
    lookup-put vb p v (put kb k d.live),
    lookup-put kb p k d.live,
  )

  gather-replace :
      (d : DeviceKvBackend F) (q l j m kb vb : ℕ) (k v : F)
      → IsHeld d
      → has kb d.live ≡ false
      → has vb (put kb k d.live) ≡ false
      → gather_device (replace d (put vb v (put kb k d.live)) q l (kb, vb)) j m
        ≡ (if (q == j) && (l == m) then ok (k, v) else gather_device d j m)
  gather-replace d q l j m kb vb k v w e f = elim (Bool-cases ((q == j) && (l == m))) [
    | inl same ↦ rw same (
        gather_pair d' j m
        ∙ ap (λ o. read o d'.live)
            (pairs ∙ ap (λ c. if c then some (kb, vb) else pair_at j m d.bufs) same)
        ∙ new_there d kb vb k v stale (unheld kb e) (unheld vb vb_new) apart)
    | inr other ↦ rw other (
        gather_pair d' j m
        ∙ ap (λ o. read o d'.live)
            (pairs ∙ ap (λ c. if c then some (kb, vb) else pair_at j m d.bufs) other)
        ∙ read_kept (pair_at j m d.bufs) d.live d'.live (λ p h. kept p other h)
        ∙ sym (gather_pair d j m))
  ]
    where
      live : Dict F
      live = put vb v (put kb k d.live)

      d' : DeviceKvBackend F
      d' = replace d live q l (kb, vb)

      stale : Option (ℕ × ℕ)
      stale = pair_at q l d.bufs

      vb_new : has vb d.live ≡ false
      vb_new = ground (arith, has-put kb vb k d.live, f)

      apart : (kb == vb) ≡ false
      apart = ground (arith, has-put kb vb k d.live, f)

      unheld : (p : ℕ) → has p d.live ≡ false → held_pair p stale ≡ 0
      unheld p h =
          ground
            (arith, w.exact p, h, held_pair-le p l (layers_at q d.bufs), held_layers-le p q d.bufs)

      pairs :
          pair_at j m d'.bufs ≡ (if (q == j) && (l == m) then some (kb, vb) else pair_at j m d.bufs)
      pairs = pair_at-replace d live q l j m (kb, vb)

      differ : (x : ℕ) → has x d.live ≡ false → (p : ℕ) → has p d.live ≡ true → (x == p) ≡ false
      differ x g p h = elim (Bool-cases (x == p)) [
        | inl s ↦ absurd (ground (arith, g, h, ap (λ n. has n d.live) ((==_iff x p).0 s)))
        | inr s ↦ s
      ]

      kept :
          (p : ℕ)
          → ((q == j) && (l == m)) ≡ false
          → 0 < held_pair p (pair_at j m d.bufs)
          → lookup p d'.live ≡ lookup p d.live
      kept p other h =
          let count : held_pair p stale + held_pair p (pair_at j m d.bufs) ≤ held p d.bufs =
            two_pairs p q l j m d.bufs other in
          let there : has p d.live ≡ true = ground (arith, w.exact p, count, h) in
          let mine : held_pair p stale ≡ 0 = ground (arith, w.exact p, count, h, there) in
          old_there d kb vb p k v stale mine (differ kb e p there) (differ vb vb_new p there)

module _ {A N : Type 0} (flatten : A → List N) (new_buffer : Dict (List N) → Option ℕ)
    (uploads : ℕ → List N → Bool) where
  -- After a `store` on the device that returns, `gather` of that layer of that sequence gives the
  -- float32 elements of the stored arrays, each in one flat row-major array, and for any other what it
  -- gave before, provided that `sllm_buf_new` never gives a live pointer and that the live buffers are
  -- those that are held.
  pub gather_device-store_device :
      (d d' : DeviceKvBackend (List N)) (q l j m : ℕ) (k v : A)
      → ((live : Dict (List N)) (p : ℕ) → new_buffer live ≡ some p → has p live ≡ false)
      → IsHeld d
      → store_device flatten new_buffer uploads d q l k v ≡ returns tt d'
      → gather_device d' j m
        ≡ (if (q == j) && (l == m) then ok (flatten k, flatten v) else gather_device d j m)
  unfolding store_device
  gather_device-store_device d d' q l j m k v fresh w s =
      elim (to_device-cases flatten new_buffer uploads k d.live) [
        | inl (x, e, _) ↦ absurd (ground (arith, s, e))
        | inr (kb, new_kb, e) ↦
            elim (to_device-cases flatten new_buffer uploads v (put kb (flatten k) d.live)) [
              | inl (x, f, _) ↦ absurd (ground (arith, s, e, f))
              | inr (vb, new_vb, f) ↦
                  let last =
                    replace d (put vb (flatten v) (put kb (flatten k) d.live)) q l (kb, vb) in
                  let stored : store_device flatten new_buffer uploads d q l k v ≡ returns tt last =
                    rw (e, f, store_device) refl in
                  let same : last ≡ d' = ap state_of (sym stored ∙ s) in
                  subst
                    (λ x. gather_device x j m ≡ (
                      if (q == j) && (l == m)
                      then ok (flatten k, flatten v)
                      else gather_device d j m))
                    same
                    (gather-replace d q l j m kb vb (flatten k) (flatten v) w
                      (fresh d.live kb new_kb) (fresh (put kb (flatten k) d.live) vb new_vb))
            ]
      ]
