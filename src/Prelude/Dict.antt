-- ===== src/Prelude/Dict.antt =====
-- Python's `dict` with numbers for keys, in insertion order: a new key goes to the end, and an
-- assignment to a present key keeps its place.
use Prim.Native.Nat.{ℕ, suc}
use mathlib.Core.Path.{◌≡◌, refl}
use mathlib.Core.Bool.{Bool, true, false}
use mathlib.Core.List.{List, [], ◌∷◌}
use mathlib.Core.Option.{Option, none, some}
use native.Mathlib.Omega.{arith}
use s_llm.Prelude.Tests.{◌==◌, if◌then◌else◌}
use s_llm.Prelude.Lists.{length}

abbrev pub Dict {ℓ} : Type ℓ → Type ℓ
Dict V = List (ℕ × V)

module _ {ℓ} {V : Type ℓ} where
  -- d.get(k)
  unfoldable pub lookup : ℕ → Dict V → Option V
  lookup k [] = none
  lookup k ((j, v) ∷ d) = if j == k then some v else lookup k d

  -- d[k] = v
  unfoldable pub put : ℕ → V → Dict V → Dict V
  put k v [] = (k, v) ∷ []
  put k v ((j, w) ∷ d) = if j == k then (k, v) ∷ d else (j, w) ∷ put k v d

  -- del d[k], d.pop(k, None)
  unfoldable pub without : ℕ → Dict V → Dict V
  without k [] = []
  without k ((j, w) ∷ d) = let rest = without k d in if j == k then rest else (j, w) ∷ rest

  unfoldable pub has : ℕ → Dict V → Bool
  unfolding lookup
  has k d = elim (lookup k d) [ none ↦ false | some v ↦ true ]

  pub lookup-put :
      (k j : ℕ) (v : V) (d : Dict V)
      → lookup j (put k v d) ≡ (if k == j then some v else lookup j d)
  unfolding lookup put
  lookup-put k j v [] = refl
  lookup-put k j v ((i, w) ∷ d) = ground (arith, lookup-put k j v d)

  pub lookup-without :
      (k j : ℕ) (d : Dict V) → lookup j (without k d) ≡ (if k == j then none else lookup j d)
  unfolding lookup without
  lookup-without k j [] = ground arith
  lookup-without k j ((i, w) ∷ d) = ground (arith, lookup-without k j d)

  pub put-put : (k : ℕ) (v w : V) (d : Dict V) → put k w (put k v d) ≡ put k w d
  unfolding put
  put-put k v w [] = ground arith
  put-put k v w ((j, u) ∷ d) = ground (arith, put-put k v w d)

  -- No key stands twice.
  abbrev pub Distinct : Dict V → Type ℓ
  Distinct [] = Unit
  Distinct ((k, v) ∷ d) = (lookup k d ≡ none) × Distinct d

  pub put-Distinct : (k : ℕ) (v : V) (d : Dict V) → Distinct d → Distinct (put k v d)
  unfolding lookup put
  put-Distinct k v [] h = (refl, tt)
  put-Distinct k v ((j, w) ∷ d) h = ground (arith, put-Distinct k v d h.1, lookup-put k j v d, h.0)

  pub without-Distinct : (k : ℕ) (d : Dict V) → Distinct d → Distinct (without k d)
  unfolding lookup without
  without-Distinct k [] h = tt
  without-Distinct k ((j, w) ∷ d) h =
      ground (arith, without-Distinct k d h.1, lookup-without k j d, h.0)

  pub without_missing : (k : ℕ) (d : Dict V) → lookup k d ≡ none → without k d ≡ d
  unfolding lookup without
  without_missing k [] h = refl
  without_missing k ((j, w) ∷ d) h = ground (arith, without_missing k d)

  pub length-put_missing :
      (k : ℕ) (v : V) (d : Dict V) → lookup k d ≡ none → length (put k v d) ≡ suc (length d)
  unfolding lookup put
  length-put_missing k v [] h = refl
  length-put_missing k v ((j, w) ∷ d) h = ground (arith, length-put_missing k v d)

  pub length-put_present :
      (k : ℕ) (v w : V) (d : Dict V) → lookup k d ≡ some w → length (put k v d) ≡ length d
  unfolding lookup put
  length-put_present k v w [] h = cc
  length-put_present k v w ((j, u) ∷ d) h = ground (arith, length-put_present k v w d)

  pub length-without :
      (k : ℕ) (v : V) (d : Dict V)
      → Distinct d
      → lookup k d ≡ some v
      → suc (length (without k d)) ≡ length d
  unfolding lookup without
  length-without k v [] s h = cc
  length-without k v ((j, w) ∷ d) s h =
      ground (arith, length-without k v d s.1, without_missing k d)

  -- A new key that is deleted again leaves the dict as it was, order included.
  pub without-put_missing :
      (k : ℕ) (v : V) (d : Dict V) → lookup k d ≡ none → without k (put k v d) ≡ d
  unfolding lookup put without
  without-put_missing k v [] h = ground arith
  without-put_missing k v ((j, w) ∷ d) h = ground (arith, without-put_missing k v d)
