-- ===== src/Runtime/Kv/Invariant.antt =====
-- The invariant of `KVBlockAllocator` and the states that `allocate` and `free` end in.
use s_llm.Prelude.{
  ℕ, ◌+◌, ◌≤◌, ◌<◌, ◌≡◌, refl, subst, ◌⊎◌, inl, inr, List, [], arith, ltb, ◌==◌, if◌then◌else◌, bit,
  length, take, drop, count, range_from, returns, raises, ok, value_error, out_of_capacity, ℤ, pos,
  negsuc, Bool-cases, lt→ltb, length-take, length-drop, count-split, length-range_from,
  count-range_from,
}
use s_llm.Prelude.Dict.{lookup, Distinct}
use s_llm.Runtime.Heap.{Ascending, heappops-fits, drop-Ascending, range_from-Ascending}
use s_llm.Runtime.Kv.{KvAllocator, make_kv, own_all, allocate, free_blocks, validate}
use s_llm.Runtime.Kv.Batch.{
  present, holds, lookup-own_all, own_all-Distinct, length-own_all, lookup-without_all,
  without_all-Distinct, length-without_all, count-heappushes, length-heappushes,
  heappushes-Ascending, freed, release_all-eq, validate-Allowed, Allowed-validate,
}

-- Every block id below the capacity is free or owned, and not both; no other id is either.
pub record IsValid (kv : KvAllocator) : Type 0 where
  pub ascending : Ascending kv.free
  pub distinct : Distinct kv.owner
  pub partition : (b : ℕ) → count b kv.free + present (lookup b kv.owner) ≡ bit (ltb b kv.capacity)
  pub sized : length kv.free + length kv.owner ≡ kv.capacity

pub make_kv-IsValid : (c : ℤ) (kv : KvAllocator) → make_kv c ≡ ok kv → IsValid kv
unfolding make_kv lookup
make_kv-IsValid (negsuc n) kv e = cc
make_kv-IsValid (pos n) kv e = subst IsValid made (record {
  ascending = range_from-Ascending 0 n;
  distinct = tt;
  partition = λ b. ground (arith, count-range_from b 0 n);
  sized = omega (arith, length-range_from 0 n);
})
  where
    made : ◌≡◌ {A = KvAllocator} (record { capacity = n; free = range_from 0 n; owner = [] }) kv
    made = cc

-- The state after `n` blocks went to `s`.
unfoldable pub allocated : KvAllocator → ℕ → ℕ → KvAllocator
allocated kv s n = record kv { free = drop n kv.free; owner = own_all (take n kv.free) s kv.owner }

module _ (kv : KvAllocator) (s n : ℕ) where
  pub allocate-full : length kv.free < n → allocate kv s n ≡ raises out_of_capacity kv
  unfolding allocate
  allocate-full h = rw (lt→ltb (length kv.free) n h) refl

  pub allocate-fits :
      n ≤ length kv.free → allocate kv s n ≡ returns (take n kv.free) (allocated kv s n)
  unfolding allocate allocated
  allocate-fits h = elim (Bool-cases (ltb (length kv.free) n)) [
    | inl e ↦ absurd (ground arith)
    | inr e ↦ rw (e, heappops-fits n kv.free h) refl
  ]

  pub allocated-IsValid : n ≤ length kv.free → IsValid kv → IsValid (allocated kv s n)
  unfolding allocated
  allocated-IsValid h v = record {
    ascending = drop-Ascending n kv.free v.ascending;
    distinct = own_all-Distinct s (take n kv.free) kv.owner v.distinct;
    partition = λ b. ground (
      arith,
      v.partition b,
      count-split b n kv.free,
      lookup-own_all b s (take n kv.free) kv.owner,
    );
    sized = omega (
      arith,
      v.sized,
      length-take n kv.free,
      length-drop n kv.free,
      length-own_all s (take n kv.free) kv.owner
          (λ b. ground (arith, v.partition b, count-split b n kv.free)),
    );
  }

  pub holds-allocated :
      IsValid kv
      → (q b : ℕ)
      → holds q (lookup b (allocated kv s n).owner)
        ≡ holds q (lookup b kv.owner) + (if q == s then count b (take n kv.free) else 0)
  unfolding allocated
  holds-allocated v q b =
      ground (
        arith,
        v.partition b,
        count-split b n kv.free,
        lookup-own_all b s (take n kv.free) kv.owner,
      )

module _ (kv : KvAllocator) (s : ℕ) (ids : List ℕ) where
  -- Each id is listed once at most and belongs to `s`.
  abbrev pub Owns : Type 0
  Owns = (b : ℕ) → count b ids ≤ holds s (lookup b kv.owner)

  pub free_blocks-owned : Owns → free_blocks kv s ids ≡ returns tt (freed kv ids)
  unfolding free_blocks
  free_blocks-owned h =
      rw (Allowed-validate kv.owner s [] ids h) (release_all-eq ids kv (λ b. ground (arith, h b)))

  pub free_blocks-cases : (free_blocks kv s ids ≡ raises value_error kv) ⊎ Owns
  unfolding free_blocks
  free_blocks-cases = elim (Bool-cases (validate kv.owner s [] ids)) [
    | inl e ↦ inr (validate-Allowed kv.owner s [] ids e)
    | inr e ↦ inl (rw e refl)
  ]

  pub freed-IsValid : Owns → IsValid kv → IsValid (freed kv ids)
  unfolding freed
  freed-IsValid h v = record {
    ascending =
        heappushes-Ascending ids kv.free (λ b. ground (arith, v.partition b, h b)) v.ascending;
    distinct = without_all-Distinct ids kv.owner v.distinct;
    partition = λ b. ground (
      arith,
      v.partition b,
      h b,
      count-heappushes b ids kv.free,
      lookup-without_all b ids kv.owner,
    );
    sized = omega (
      arith,
      v.sized,
      length-heappushes ids kv.free,
      length-without_all ids kv.owner v.distinct (λ b. ground (arith, h b)),
    );
  }

  pub holds-freed :
      Owns
      → (q b : ℕ)
      → holds q (lookup b (freed kv ids).owner) + (if q == s then count b ids else 0)
        ≡ holds q (lookup b kv.owner)
  unfolding freed
  holds-freed h q b = ground (arith, h b, lookup-without_all b ids kv.owner)

  pub length-free-freed : length (freed kv ids).free ≡ length ids + length kv.free
  unfolding freed
  length-free-freed = length-heappushes ids kv.free
