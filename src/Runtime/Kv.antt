-- ===== src/Runtime/Kv.antt =====
-- `KVBlockAllocator` of runtime/blocks.py: paged KV blocks with the sequence that owns each.
-- Sequence ids and counts are natural numbers, which is what the scheduler passes.
pub mod Batch
pub mod Invariant
pub mod Laws
use s_llm.Prelude.{
  ℕ, ◌-◌, Bool, true, false, Option, none, some, List, [], ◌∷◌, ltb, ◌==◌, if◌then◌else◌, length,
  count, member, range_from, Outcome, returns, raises, Result, ok, err, value_error, key_error,
  out_of_capacity, ℤ, pos, negsuc,
}
use s_llm.Prelude.Dict.{Dict, lookup, put, without}
use s_llm.Runtime.Heap.{heappush, heappops}

pub record KvAllocator : Type 0 where
  pub capacity : ℕ
  pub free : List ℕ
  pub owner : Dict ℕ

-- `KVBlockAllocator(capacity)`
unfoldable pub make_kv : ℤ → Result KvAllocator
make_kv (negsuc n) = err value_error
make_kv (pos n) = ok (record { capacity = n; free = range_from 0 n; owner = [] })

abbrev pub free_count : KvAllocator → ℕ
free_count kv = length kv.free

abbrev pub used_count : KvAllocator → ℕ
used_count kv = kv.capacity - length kv.free

-- `for b in ids: self._owner[b] = seq_id`
unfoldable pub own_all : List ℕ → ℕ → Dict ℕ → Dict ℕ
own_all [] s owner = owner
own_all (b ∷ bs) s owner = own_all bs s (put b s owner)

unfoldable pub allocate : KvAllocator → ℕ → ℕ → Outcome KvAllocator (List ℕ)
allocate kv seq_id count =
    if ltb (length kv.free) count
    then raises out_of_capacity kv
    else elim (heappops count kv.free) [
      | raises e h ↦ raises e (record kv { free = h })
      | returns ids h ↦ returns ids (record kv { free = h; owner = own_all ids seq_id kv.owner })
    ]

-- `self._owner.get(b) == seq_id`
abbrev pub owned_by : ℕ → Option ℕ → Bool
owned_by s none = false
owned_by s (some q) = q == s

-- The first loop of `free`: nothing is changed before every id has passed.
unfoldable pub validate : Dict ℕ → ℕ → List ℕ → List ℕ → Bool
validate owner seq_id seen [] = true
validate owner seq_id seen (b ∷ bs) =
    let rest = validate owner seq_id (b ∷ seen) bs in
    if member b seen then false else if owned_by seq_id (lookup b owner) then rest else false

-- The second loop of `free`: `del` of a missing key would raise.
unfoldable pub release_all : List ℕ → KvAllocator → Outcome KvAllocator (Unit {0})
release_all [] kv = returns tt kv
release_all (b ∷ bs) kv = elim (lookup b kv.owner) [
  | none ↦ raises key_error kv
  | some q ↦ release_all bs (record kv { owner = without b kv.owner; free = heappush b kv.free })
]

unfoldable pub free_blocks : KvAllocator → ℕ → List ℕ → Outcome KvAllocator (Unit {0})
free_blocks kv seq_id ids =
    if validate kv.owner seq_id [] ids then release_all ids kv else raises value_error kv

-- `[b for b, s in self._owner.items() if s == seq_id]`
unfoldable pub owned : ℕ → Dict ℕ → List ℕ
owned seq_id [] = []
owned seq_id ((b, s) ∷ items) =
    let rest = owned seq_id items in if s == seq_id then b ∷ rest else rest
