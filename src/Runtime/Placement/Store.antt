-- ===== src/Runtime/Placement/Store.antt =====
-- The arrays that the host backend keeps for each sequence and layer. `as_f32` stands for `np.asarray`,
-- which gives back a float32 array itself: an array here is a reference, and what a caller writes into
-- its own array later is seen through the backend too.
use s_llm.Prelude.{
  ℕ, ◌≡◌, refl, ap, ◌∙◌, ◌&&◌, List, [], ◌∷◌, arith, ◌==◌, if◌then◌else◌, Result, ok, err,
  key_error,
}
use s_llm.Prelude.Dict.{lookup, put, lookup-put, lookup-without}
use s_llm.Runtime.Placement.{HostKvBackend, layers_of, store, gather, free_host}

module _ {A F : Type 0} (as_f32 : A → F) where
  gather-store :
      (h : HostKvBackend F) (q l j m : ℕ) (k v : A)
      → gather (store as_f32 h q l k v) j m
        ≡ (if (q == j) && (l == m) then ok (as_f32 k, as_f32 v) else gather h j m)
  unfolding gather store lookup
  gather-store h q l j m k v = ground (
    arith,
    lookup-put q j (put l (as_f32 k, as_f32 v) (layers_of as_f32 q h.arrays)) h.arrays,
    lookup-put l m (as_f32 k, as_f32 v) (layers_of as_f32 q h.arrays),
  )

gather-free_host :
    {F : Type 0} (h : HostKvBackend F) (q j m : ℕ)
    → gather (free_host h q) j m ≡ (if q == j then err key_error else gather h j m)
unfolding gather free_host
gather-free_host h q j m = ground (arith, lookup-without q j h.arrays)

-- What a caller does with the backend.
pub data HostUse (A : Type 0) : Type 0 where
  stores : ℕ → ℕ → A → A → HostUse A
  frees : ℕ → HostUse A

module _ {A F : Type 0} (as_f32 : A → F) where
  unfoldable pub after_host_uses : HostKvBackend F → List (HostUse A) → HostKvBackend F
  after_host_uses h [] = h
  after_host_uses h (stores q l k v ∷ us) = after_host_uses (store as_f32 h q l k v) us
  after_host_uses h (frees q ∷ us) = after_host_uses (free_host h q) us

  -- The last use that concerns a layer of a sequence says what is there: the arrays that it stored, or
  -- nothing; `start` where there is no such use.
  unfoldable pub last_use : List (HostUse A) → ℕ → ℕ → Result (F × F) → Result (F × F)
  last_use [] j m start = start
  last_use (stores q l k v ∷ us) j m start =
      last_use us j m (if (q == j) && (l == m) then ok (as_f32 k, as_f32 v) else start)
  last_use (frees q ∷ us) j m start = last_use us j m (if q == j then err key_error else start)

  -- After any sequence of `store` and `free` on the host backend, `gather` of a layer of a sequence
  -- gives the arrays that were stored last for that layer of that sequence, raises `KeyError` if the
  -- sequence was freed since, and gives what it gave at the start if neither was done.
  pub gather-after_host_uses :
      (us : List (HostUse A)) (h : HostKvBackend F) (j m : ℕ)
      → gather (after_host_uses h us) j m ≡ last_use us j m (gather h j m)
  unfolding after_host_uses last_use
  gather-after_host_uses [] h j m = refl
  gather-after_host_uses (stores q l k v ∷ us) h j m =
      gather-after_host_uses us (store as_f32 h q l k v) j m
      ∙ ap (last_use us j m) (gather-store as_f32 h q l j m k v)
  gather-after_host_uses (frees q ∷ us) h j m =
      gather-after_host_uses us (free_host h q) j m
      ∙ ap (last_use us j m) (gather-free_host h q j m)
