-- ===== src/Runtime/Kv/Laws.antt =====
-- What `KVBlockAllocator` promises to its callers.
use s_llm.Prelude.{
  ℕ, ◌+◌, ◌≤◌, ◌<◌, ◌≡◌, refl, sym, ap, ◌∙◌, subst, ◌⊎◌, inl, inr, false, List, [], ◌∷◌, ◌++◌,
  arith, ltb, ◌==◌, if◌then◌else◌, length, take, count, returns, raises, value_error,
  out_of_capacity, Bool-cases, ltb→lt, take-append-drop, length-take, length-drop, count-split,
}
use s_llm.Prelude.Dict.{Dict, lookup, put, without, without-put_missing}
use s_llm.Runtime.Heap.{Ascending, heappushes-take-drop}
use s_llm.Runtime.Kv.{KvAllocator, own_all, allocate, free_blocks, used_count, free_count, owned}
use s_llm.Runtime.Kv.Batch.{present, holds, without_all, freed, count-owned}
use s_llm.Runtime.Kv.Invariant.{
  IsValid, allocated, allocate-fits, allocate-full, allocated-IsValid, holds-allocated, Owns,
  free_blocks-owned, free_blocks-cases, freed-IsValid, holds-freed, length-free-freed,
}

-- On a valid allocator `allocate` raises `OutOfCapacity`, changing nothing, when more blocks are
-- asked for than are free. Otherwise it returns as many ids as asked for, which become the
-- sequence's own beside those it had, are lower than every id that stays free, and leave every
-- other sequence's blocks alone; the allocator stays valid.
pub allocate_total :
    (kv : KvAllocator) (s n : ℕ)
    → IsValid kv
    → ((free_count kv < n) × (allocate kv s n ≡ raises out_of_capacity kv))
      ⊎ ((ids : List ℕ) × (kv' : KvAllocator) × (allocate kv s n ≡ returns ids kv')
          × IsValid kv'
          × (length ids ≡ n)
          × (free_count kv' + n ≡ free_count kv)
          × ((q b : ℕ)
              → holds q (lookup b kv'.owner)
                ≡ holds q (lookup b kv.owner) + (if q == s then count b ids else 0))
          × Ascending (ids ++ kv'.free))
allocate_total kv s n v = elim (Bool-cases (ltb (length kv.free) n)) [
  | inl e ↦ inl (ltb→lt _ _ e, allocate-full kv s n (ltb→lt _ _ e))
  | inr e ↦
      let fits : n ≤ length kv.free = ground arith in
      inr (
        take n kv.free,
        allocated kv s n,
        allocate-fits kv s n fits,
        allocated-IsValid kv s n fits v,
        omega (arith, length-take n kv.free),
        unfold allocated in omega (arith, length-drop n kv.free),
        holds-allocated kv s n v,
        unfold allocated in subst Ascending (sym (take-append-drop n kv.free)) v.ascending,
      )
]

-- On a valid allocator `free` raises `ValueError`, changing nothing, exactly if not every id is listed
-- once and is owned by the sequence; otherwise it returns, the ids are free and nobody's, all other blocks
-- keep their owner, and the allocator stays valid.
pub free_total :
    (kv : KvAllocator) (s : ℕ) (ids : List ℕ)
    → IsValid kv
    → ((Owns kv s ids → ⊥) × (free_blocks kv s ids ≡ raises value_error kv))
      ⊎ (Owns kv s ids
          × (kv' : KvAllocator) × (free_blocks kv s ids ≡ returns tt kv')
          × IsValid kv'
          × (free_count kv' ≡ length ids + free_count kv)
          × ((q b : ℕ)
              → holds q (lookup b kv'.owner) + (if q == s then count b ids else 0)
                ≡ holds q (lookup b kv.owner)))
free_total kv s ids v = elim (free_blocks-cases kv s ids) [
  | inl e ↦ inl ((λ h. cc (e, free_blocks-owned kv s ids h)), e)
  | inr h ↦ inr (
    h,
    freed kv ids,
    free_blocks-owned kv s ids h,
    freed-IsValid kv s ids h v,
    length-free-freed kv s ids,
    holds-freed kv s ids h,
  )
]

without-put_ne :
    (k j s : ℕ) (d : Dict ℕ) → (k == j) ≡ false → without k (put j s d) ≡ put j s (without k d)
unfolding without put
without-put_ne k j s [] h = ground arith
without-put_ne k j s ((i, w) ∷ d) h = ground (arith, without-put_ne k j s d h)

without-own_all :
    (k s : ℕ) (ids : List ℕ) (d : Dict ℕ)
    → count k ids ≡ 0
    → without k (own_all ids s d) ≡ own_all ids s (without k d)
unfolding own_all
without-own_all k s [] d h = refl
without-own_all k s (x ∷ xs) d h =
    without-own_all k s xs (put x s d) (ground arith)
    ∙ ap (own_all xs s) (without-put_ne k x s d (ground arith))

without_all-own_all :
    (s : ℕ) (ids : List ℕ) (owner : Dict ℕ)
    → ((b : ℕ) → count b ids + present (lookup b owner) ≤ 1)
    → without_all ids (own_all ids s owner) ≡ owner
unfolding own_all without_all
without_all-own_all s [] owner h = refl
without_all-own_all s (x ∷ xs) owner h =
    ap (without_all xs) (
      without-own_all x s xs (put x s owner) (ground (arith, h x))
      ∙ ap (own_all xs s) (without-put_missing x s owner (ground (arith, h x))))
    ∙ without_all-own_all s xs owner (λ b. ground (arith, h b))

module _ (kv : KvAllocator) (s n : ℕ) (v : IsValid kv) (fits : n ≤ free_count kv) where
  restored : freed (allocated kv s n) (take n kv.free) ≡ kv
  unfolding freed allocated
  restored = λ i. record kv {
    free = heappushes-take-drop n kv.free v.ascending i;
    owner =
        without_all-own_all s (take n kv.free) kv.owner
          (λ b. ground (arith, v.partition b, count-split b n kv.free)) i;
  }

  -- The ids that `allocate` returned, given back at once, restore the allocator exactly: the heap
  -- and the owners, their order included.
  pub free-allocate :
      (ids : List ℕ) (kv' : KvAllocator)
      → allocate kv s n ≡ returns ids kv'
      → free_blocks kv' s ids ≡ returns tt kv
  free-allocate ids kv' e =
      let r : returns ids kv' ≡ returns (take n kv.free) (allocated kv s n) =
        sym e ∙ allocate-fits kv s n fits in
      let i : ids ≡ take n kv.free = cc r in
      let k : kv' ≡ allocated kv s n = cc r in
      rw (i, k)
        (free_blocks-owned (allocated kv s n) s (take n kv.free)
            (λ b. ground (arith, holds-allocated kv s n v s b))
          ∙ ap (returns tt) restored)

-- `used_count` is the number of owned blocks, and `owned` lists a sequence's blocks once each.
pub used-owned :
    (kv : KvAllocator)
    → IsValid kv
    → (used_count kv ≡ length kv.owner)
      × ((s b : ℕ) → count b (owned s kv.owner) ≡ holds s (lookup b kv.owner))
used-owned kv v = (omega (arith, v.sized), λ s b. count-owned s b kv.owner v.distinct)
