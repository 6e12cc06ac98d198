-- ===== src/Tp/Collectives.antt =====
-- tp/collectives.py: `SimCollectives`, the simulated world in which every rank contributes an array
-- under a tag. A tag is a number, since it is only a key. Arrays are of any type: `same_shape`,
-- `as_double`, `add`, `cast_like` and `concatenate` stand for what numpy does to them.
pub mod Contribute
pub mod Gather
pub mod Reduce
use s_llm.Prelude.{
  ℕ, zero, suc, ◌+◌, ◌-◌, ◌*◌, ◌/◌, ◌%◌, ◌^◌, ◌≤◌, ◌<◌, ◌≡◌, ◌≢◌, refl, sym, ap, ◌∙◌, subst, min,
  ◌⊎◌, inl, inr, ◌↔◌, Bool, true, false, ◌&&◌, ◌||◌, not, Option, none, some, List, [], ◌∷◌, ◌++◌,
  map, arith, ltb, leb, ◌==◌, if◌then◌else◌, bit, length, take, drop, replicate, keep, all, count,
  member, sum, range_from, Outcome, returns, raises, state_of, Result, ok, err, ◌>>=◌, Error,
  value_error, key_error, index_error, out_of_capacity, collectives_error, shard_error, ℤ, pos,
  negsuc, Bool-cases, Option-cases, leb→le, le→leb, ltb→lt, lt→ltb, ==_refl, ==_iff, length-append,
  take-append-drop, length-take, length-drop, count-append, count-split, length-range_from,
  count-range_from,
}
use s_llm.Prelude.Dict.{
  Dict, lookup, put, without, has, Distinct, lookup-put, lookup-without, put-Distinct,
  without-Distinct, without_missing, length-put_missing, length-put_present, length-without,
  without-put_missing,
}

pub record SimCollectives (A : Type 0) : Type 0 where
  pub world_size : ℕ
  pub tags : Dict (Dict A)

module _ {A : Type 0} where
  unfoldable pub make_collectives : ℤ → Result (SimCollectives A)
  make_collectives (negsuc n) = err collectives_error
  make_collectives (pos zero) = err collectives_error
  make_collectives (pos (suc n)) = ok (record { world_size = suc n; tags = [] })

  -- `self._tags.get(tag)`, empty for an unknown tag
  abbrev pub slot_of : ℕ → Dict (Dict A) → Dict A
  slot_of tag tags = elim (lookup tag tags) [ none ↦ [] | some slot ↦ slot ]

  -- `slot = self._tags.setdefault(tag, {})`, then `slot[rank] = arr`
  unfoldable pub contribute_at :
      SimCollectives A → ℕ → ℕ → A → Outcome (SimCollectives A) (Unit {0})
  contribute_at c tag rank arr =
      let slot = slot_of tag c.tags in
      if has rank slot
      then raises collectives_error (record c { tags = put tag slot c.tags })
      else returns tt (record c { tags = put tag (put rank arr slot) c.tags })

  unfoldable pub contribute : SimCollectives A → ℕ → ℤ → A → Outcome (SimCollectives A) (Unit {0})
  contribute c tag (negsuc n) arr = raises collectives_error c
  contribute c tag (pos rank) arr =
      if ltb rank c.world_size then contribute_at c tag rank arr else raises collectives_error c

  -- `[r for r in range(self.world_size) if r not in slot]`
  abbrev pub missing : Dict A → List ℕ → List ℕ
  missing slot ranks = keep (λ r. not (has r slot)) ranks

  -- `[slot[r] for r in range(self.world_size)]`
  unfoldable pub collect : Dict A → List ℕ → Result (List A)
  collect slot [] = ok []
  collect slot (r ∷ rs) = elim (lookup r slot) [
    | none ↦ err key_error
    | some x ↦ collect slot rs >>= λ xs. ok (x ∷ xs)
  ]

  -- `_parts`
  unfoldable pub parts : SimCollectives A → ℕ → Result (List A)
  parts c tag = elim (lookup tag c.tags) [
    | none ↦ err collectives_error
    | some slot ↦
        if length (missing slot (range_from 0 c.world_size)) == 0
        then collect slot (range_from 0 c.world_size)
        else err collectives_error
  ]

  unfoldable pub reset : SimCollectives A → Option ℕ → SimCollectives A
  reset c none = record c { tags = [] }
  reset c (some tag) = record c { tags = without tag c.tags }

  module _ (concatenate : List A → ℕ → A) where
    unfoldable pub all_gather_parts : List A → ℕ → Result A
    all_gather_parts [] axis = err collectives_error
    all_gather_parts (x ∷ xs) axis = ok (concatenate (x ∷ xs) axis)

    unfoldable pub all_gather : SimCollectives A → ℕ → ℕ → Result A
    all_gather c tag axis = parts c tag >>= λ xs. all_gather_parts xs axis

  module _ (same_shape : A → A → Bool) (as_double : A → A) (add : A → A → A)
      (cast_like : A → A → A) where
    unfoldable pub reduce_loop : A → List A → Result A
    reduce_loop out [] = ok out
    reduce_loop out (p ∷ ps) =
        let rest = reduce_loop (add out p) ps in
        if same_shape p out then rest else err collectives_error

    unfoldable pub all_reduce_partials : List A → Result A
    all_reduce_partials [] = err collectives_error
    all_reduce_partials (x ∷ xs) = reduce_loop (as_double x) xs >>= λ out. ok (cast_like x out)

    unfoldable pub all_reduce : SimCollectives A → ℕ → Result A
    all_reduce c tag = parts c tag >>= λ xs. all_reduce_partials xs
