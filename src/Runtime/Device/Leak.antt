-- ===== src/Runtime/Device/Leak.antt =====
-- No buffer leaks and none is lost: the live buffers are those that the backend holds.
use s_llm.Prelude.{
  ℕ, ◌+◌, ◌≤◌, ◌≡◌, refl, ◌⊎◌, inl, inr, false, ◌||◌, Option, none, some, [], ◌∷◌, arith, ltb, ◌==◌,
  if◌then◌else◌, bit, returns, raises, runtime_error, value_error, Error, List, Bool, length,
  Bool-cases, Option-cases, ==_iff,
}
use s_llm.Prelude.Dict.{
  Dict, lookup, put, without, has, Distinct, lookup-put, lookup-without, put-Distinct,
  without-Distinct, without_missing,
}
use s_llm.Runtime.Device.{
  DeviceKvBackend, replace, layers_at, free_stale, to_device, store_device, free_layers,
  free_device,
}

-- How often a pointer is among the buffers of the layers, and of the sequences.
unfoldable pub held_layers : ℕ → Dict (ℕ × ℕ) → ℕ
held_layers p [] = 0
held_layers p ((l, (kb, vb)) ∷ layers) = bit (kb == p) + bit (vb == p) + held_layers p layers

unfoldable pub held : ℕ → Dict (Dict (ℕ × ℕ)) → ℕ
held p [] = 0
held p ((q, layers) ∷ bufs) = held_layers p layers + held p bufs

abbrev pub held_pair : ℕ → Option (ℕ × ℕ) → ℕ
held_pair p none = 0
held_pair p (some (kb, vb)) = bit (kb == p) + bit (vb == p)

held_layers-put :
    (p l : ℕ) (pair : ℕ × ℕ) (layers : Dict (ℕ × ℕ))
    → held_layers p (put l pair layers) + held_pair p (lookup l layers)
      ≡ held_layers p layers + held_pair p (some pair)
unfolding held_layers put lookup
held_layers-put p l (kb, vb) [] = omega arith
held_layers-put p l (kb, vb) ((j, (a, b)) ∷ layers) =
    ground (arith, held_layers-put p l (kb, vb) layers)

held-put :
    (p q : ℕ) (layers : Dict (ℕ × ℕ)) (bufs : Dict (Dict (ℕ × ℕ)))
    → held p (put q layers bufs) + held_layers p (layers_at q bufs)
      ≡ held p bufs + held_layers p layers
unfolding held held_layers put lookup
held-put p q layers [] = omega arith
held-put p q layers ((j, old) ∷ bufs) = ground (arith, held-put p q layers bufs)

held-without :
    (p q : ℕ) (bufs : Dict (Dict (ℕ × ℕ)))
    → Distinct bufs
    → held p (without q bufs) + held_layers p (layers_at q bufs) ≡ held p bufs
unfolding held held_layers without lookup
held-without p q [] v = refl
held-without p q ((j, old) ∷ bufs) v =
    ground (arith, held-without p q bufs v.1, without_missing q bufs)

pub held_pair-le :
    (p l : ℕ) (layers : Dict (ℕ × ℕ)) → held_pair p (lookup l layers) ≤ held_layers p layers
unfolding held_layers lookup
held_pair-le p l [] = omega arith
held_pair-le p l ((j, (a, b)) ∷ layers) = ground (arith, held_pair-le p l layers)

pub held_layers-le :
    (p q : ℕ) (bufs : Dict (Dict (ℕ × ℕ))) → held_layers p (layers_at q bufs) ≤ held p bufs
unfolding held held_layers lookup
held_layers-le p q [] = omega arith
held_layers-le p q ((j, old) ∷ bufs) = ground (arith, held_layers-le p q bufs)

module _ {F : Type 0} where
  has-without : (k p : ℕ) (d : Dict F) → has p (without k d) ≡ (if k == p then false else has p d)
  unfolding has
  has-without k p d = ground (arith, lookup-without k p d)

  pub has-put : (k p : ℕ) (x : F) (d : Dict F) → has p (put k x d) ≡ (k == p || has p d)
  unfolding has
  has-put k p x d = ground (arith, lookup-put k p x d)

  has-free_layers :
      (p : ℕ) (layers : Dict (ℕ × ℕ)) (d : Dict F)
      → has p (free_layers layers d) ≡ (if ltb 0 (held_layers p layers) then false else has p d)
  unfolding free_layers held_layers
  has-free_layers p [] d = refl
  has-free_layers p ((l, (a, b)) ∷ layers) d = ground (
    arith,
    has-free_layers p layers (without b (without a d)),
    has-without b p (without a d),
    has-without a p d,
  )

  has-free_stale :
      (p : ℕ) (stale : Option (ℕ × ℕ)) (d : Dict F)
      → has p (free_stale stale d) ≡ (if ltb 0 (held_pair p stale) then false else has p d)
  has-free_stale p none d = refl
  has-free_stale p (some (a, b)) d =
      ground (arith, has-without b p (without a d), has-without a p d)

  -- Each live buffer is held once, and each held buffer is live.
  pub record IsHeld (d : DeviceKvBackend F) : Type 0 where
    pub distinct : Distinct d.bufs
    pub exact : (p : ℕ) → held p d.bufs ≡ bit (has p d.live)

  -- The first buffer is freed when there is no second one.
  abandoned :
      (d : DeviceKvBackend F) (kb : ℕ) (k : F)
      → IsHeld d
      → has kb d.live ≡ false
      → IsHeld (record d { live = without kb (put kb k d.live) })
  abandoned d kb k w e = record {
    distinct = w.distinct;
    exact = λ p.
        ground (arith, w.exact p, has-without kb p (put kb k d.live), has-put kb p k d.live, e);
  }

  replaced :
      (d : DeviceKvBackend F) (q l kb vb : ℕ) (k v : F)
      → IsHeld d
      → has kb d.live ≡ false
      → has vb (put kb k d.live) ≡ false
      → IsHeld (replace d (put vb v (put kb k d.live)) q l (kb, vb))
  replaced d q l kb vb k v w e f = record {
    distinct = put-Distinct q (put l (kb, vb) layers) d.bufs w.distinct;
    exact = λ p. ground (
      arith,
      w.exact p,
      e,
      f,
      has-put kb vb k d.live,
      has-put kb p k d.live,
      has-put vb p v (put kb k d.live),
      has-free_stale p (lookup l layers) (put vb v (put kb k d.live)),
      held-put p q (put l (kb, vb) layers) d.bufs,
      held_layers-put p l (kb, vb) layers,
      held_pair-le p l layers,
      held_layers-le p q d.bufs,
    );
  }
    where
      layers : Dict (ℕ × ℕ)
      layers = layers_at q d.bufs

  -- `free` of the device backend frees the buffers of the sequence and no other ones, and afterwards
  -- the live buffers are again those that are held.
  pub free_device-IsHeld :
      (d : DeviceKvBackend F) (q : ℕ)
      → IsHeld d
      → IsHeld (free_device d q)
        × ((p : ℕ)
            → has p (free_device d q).live
              ≡ (if ltb 0 (held_layers p (layers_at q d.bufs)) then false else has p d.live))
  unfolding free_device
  free_device-IsHeld d q v = (
    record {
      distinct = without-Distinct q d.bufs v.distinct;
      exact = λ p. ground (
        arith,
        v.exact p,
        held-without p q d.bufs v.distinct,
        has-free_layers p (layers_at q d.bufs) d.live,
      );
    },
    λ p. has-free_layers p (layers_at q d.bufs) d.live,
  )

module _ {A N : Type 0} (flatten : A → List N) (new_buffer : Dict (List N) → Option ℕ)
    (uploads : ℕ → List N → Bool) where
  -- Why the copy of an array to the device fails.
  abbrev pub Refused : A → Error → Type 0
  Refused x e = (e ≡ runtime_error) ⊎ ((e ≡ value_error) × (length (flatten x) ≡ 0))

  pub to_device-cases :
      (x : A) (live : Dict (List N))
      → ((e : Error) × (to_device flatten new_buffer uploads x live ≡ raises e live) × Refused x e)
        ⊎ ((p : ℕ) × (new_buffer live ≡ some p)
            × (to_device flatten new_buffer uploads x live ≡ returns p (put p (flatten x) live)))
  unfolding to_device
  to_device-cases x live = elim (Bool-cases (length (flatten x) == 0)) [
    | inl h ↦ inl (value_error, rw (to_device, h) refl, inr (refl, (==_iff _ 0).0 h))
    | inr h ↦ elim (Option-cases (new_buffer live)) [
      | inl e ↦ inl (runtime_error, rw (to_device, h, e) refl, inl refl)
      | inr (p, e) ↦ elim (Bool-cases (uploads p (flatten x))) [
        | inl u ↦ inr (p, e, rw (to_device, h, e, u) refl)
        | inr u ↦ inl (runtime_error, rw (to_device, h, e, u) refl, inl refl)
      ]
    ]
  ]

  -- `store` of the device backend, when `sllm_buf_new` fails or gives a pointer that is not live: it
  -- records a new pair of buffers for the layer, or it raises and the held buffers are those of before.
  -- It raises a `RuntimeError`, or a `ValueError` if one of the arrays is empty. In either case the live
  -- buffers are those that are held afterwards, so that a replaced pair is freed and nothing leaks.
  pub store_device-IsHeld :
      (d : DeviceKvBackend (List N)) (q l : ℕ) (k v : A)
      → ((live : Dict (List N)) (p : ℕ) → new_buffer live ≡ some p → has p live ≡ false)
      → IsHeld d
      → (d' : DeviceKvBackend (List N)) × IsHeld d'
        × (((pair : ℕ × ℕ) × (store_device flatten new_buffer uploads d q l k v ≡ returns tt d')
              × (d'.bufs ≡ put q (put l pair (layers_at q d.bufs)) d.bufs))
            ⊎ ((e : Error) × (store_device flatten new_buffer uploads d q l k v ≡ raises e d')
                × (Refused k e ⊎ Refused v e)
                × (d'.bufs ≡ d.bufs)))
  unfolding store_device
  store_device-IsHeld d q l k v fresh w = elim (to_device-cases k d.live) [
    | inl (x, e, why) ↦ (d, w, inr (x, rw (e, store_device) refl, inl why, refl))
    | inr (kb, new_kb, e) ↦ elim (to_device-cases v (put kb (flatten k) d.live)) [
      | inl (x, f, why) ↦ (
        record d { live = without kb (put kb (flatten k) d.live) },
        abandoned d kb (flatten k) w (fresh d.live kb new_kb),
        inr (x, rw (e, f, store_device) refl, inr why, refl),
      )
      | inr (vb, new_vb, f) ↦ (
        replace d (put vb (flatten v) (put kb (flatten k) d.live)) q l (kb, vb),
        replaced d q l kb vb (flatten k) (flatten v) w (fresh d.live kb new_kb)
            (fresh (put kb (flatten k) d.live) vb new_vb),
        inl ((kb, vb), rw (e, f, store_device) refl, refl),
      )
    ]
  ]
