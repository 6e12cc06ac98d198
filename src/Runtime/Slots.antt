-- ===== src/Runtime/Slots.antt =====
-- `StateAllocator` of runtime/blocks.py: one recurrent-state slot for a sequence.
pub mod Laws
use s_llm.Prelude.{
  ℕ, zero, suc, ◌+◌, ◌-◌, ◌*◌, ◌/◌, ◌%◌, ◌≤◌, ◌<◌, ◌≡◌, ◌≢◌, refl, sym, ap, ◌∙◌, subst, min, ◌⊎◌,
  inl, inr, ◌↔◌, Bool, true, false, ◌&&◌, ◌||◌, not, Option, none, some, List, [], ◌∷◌, ◌++◌, map,
  arith, ltb, leb, ◌==◌, if◌then◌else◌, bit, length, take, drop, replicate, keep, all, count,
  member, sum, range_from, Outcome, returns, raises, state_of, Result, ok, err, ◌>>=◌, Error,
  value_error, key_error, index_error, out_of_capacity, collectives_error, shard_error, ℤ, pos,
  negsuc, Bool-cases, Option-cases, leb→le, le→leb, ltb→lt, lt→ltb, ==_refl, ==_iff, length-append,
  take-append-drop, length-take, length-drop, count-append, count-split, length-range_from,
  count-range_from,
}
use s_llm.Prelude.Dict.{
  Dict, lookup, put, without, has, Distinct, lookup-put, lookup-without, put-Distinct,
  without-Distinct, without_missing, length-put_missing, length-put_present, length-without,
  without-put_missing,
}
use s_llm.Runtime.Heap.{heappush}
use s_llm.Runtime.Kv.{owned_by}

pub record StateAllocator : Type 0 where
  pub capacity : ℕ
  pub free : List ℕ
  pub owner : Dict ℕ

-- `StateAllocator(capacity)`
unfoldable pub make_state : ℤ → Result StateAllocator
make_state (negsuc n) = err value_error
make_state (pos n) = ok (record { capacity = n; free = range_from 0 n; owner = [] })

unfoldable pub allocate_slot : StateAllocator → ℕ → Outcome StateAllocator ℕ
allocate_slot st seq_id = elim st.free [
  | [] ↦ raises out_of_capacity st
  | slot ∷ h ↦ returns slot (record st { free = h; owner = put slot seq_id st.owner })
]

unfoldable pub free_slot : StateAllocator → ℕ → Option ℕ → Outcome StateAllocator (Unit {0})
free_slot st seq_id none = returns tt st
free_slot st seq_id (some slot) =
    if owned_by seq_id (lookup slot st.owner)
    then returns tt (record st { owner = without slot st.owner; free = heappush slot st.free })
    else raises value_error st

-- `[s for s, o in self._owner.items() if o == seq_id]`
unfoldable pub owned_slots : ℕ → Dict ℕ → List ℕ
owned_slots seq_id [] = []
owned_slots seq_id ((slot, o) ∷ items) =
    let rest = owned_slots seq_id items in if o == seq_id then slot ∷ rest else rest
