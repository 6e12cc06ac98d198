-- ===== src/Runtime/Device/Apart.antt =====
-- Different layers of the device backend hold different buffers.
use s_llm.Prelude.{
  ℕ, ◌+◌, ◌≤◌, ◌≡◌, subst, inl, inr, false, ◌&&◌, Option, [], ◌∷◌, arith, ◌==◌, Bool-cases, ==_iff,
}
use s_llm.Prelude.Dict.{Dict, lookup}
use s_llm.Runtime.Device.{layers_at}
use s_llm.Runtime.Device.Leak.{held, held_layers, held_pair, held_pair-le, held_layers-le}

-- Two layers hold their own buffers, and so do two sequences.
two_layers :
    (p l m : ℕ) (layers : Dict (ℕ × ℕ))
    → (l == m) ≡ false
    → held_pair p (lookup l layers) + held_pair p (lookup m layers) ≤ held_layers p layers
unfolding held_layers lookup
two_layers p l m [] h = omega arith
two_layers p l m ((j, (a, b)) ∷ layers) h =
    ground (arith, two_layers p l m layers h, held_pair-le p l layers, held_pair-le p m layers)

two_sequences :
    (p q j : ℕ) (bufs : Dict (Dict (ℕ × ℕ)))
    → (q == j) ≡ false
    → held_layers p (layers_at q bufs) + held_layers p (layers_at j bufs) ≤ held p bufs
unfolding held held_layers lookup
two_sequences p q j [] h = omega arith
two_sequences p q j ((i, old) ∷ bufs) h =
    ground (arith, two_sequences p q j bufs h, held_layers-le p q bufs, held_layers-le p j bufs)

-- The buffers at a layer of a sequence.
abbrev pub pair_at : ℕ → ℕ → Dict (Dict (ℕ × ℕ)) → Option (ℕ × ℕ)
pair_at q l bufs = lookup l (layers_at q bufs)

pub two_pairs :
    (p q l j m : ℕ) (bufs : Dict (Dict (ℕ × ℕ)))
    → ((q == j) && (l == m)) ≡ false
    → held_pair p (pair_at q l bufs) + held_pair p (pair_at j m bufs) ≤ held p bufs
two_pairs p q l j m bufs h = elim (Bool-cases (q == j)) [
  | inl e ↦
      let same : q ≡ j = (==_iff q j).0 e in
      let apart : (l == m) ≡ false = ground (arith, h, e) in
      subst (λ i. held_pair p (pair_at q l bufs) + held_pair p (pair_at i m bufs) ≤ held p bufs)
        same (omega (arith, two_layers p l m (layers_at q bufs) apart, held_layers-le p q bufs))
  | inr e ↦ omega (
    arith,
    two_sequences p q j bufs e,
    held_pair-le p l (layers_at q bufs),
    held_pair-le p m (layers_at j bufs),
  )
]
