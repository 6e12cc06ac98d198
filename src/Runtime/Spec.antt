-- ===== src/Runtime/Spec.antt =====
-- runtime/spec.py: speculative decoding, and the plain greedy loop of serving/executor.py that it
-- has to agree with. A token id is a natural number. `next ids` is the main model's greedy token
-- after `ids` (the argmax of the last row of its logits), `draft` and `block` are what the draft
-- heads propose: numeric code, which the loops only call. A loop has fuel, and `none` means that the
-- fuel ran out.
pub mod Verify
pub mod Greedy
pub mod Stop
use s_llm.Prelude.{
  ℕ, zero, suc, ◌+◌, ◌-◌, ◌*◌, ◌/◌, ◌%◌, ◌≤◌, ◌<◌, ◌≡◌, ◌≢◌, refl, sym, ap, ◌∙◌, subst, min, ◌⊎◌,
  inl, inr, ◌↔◌, Bool, true, false, ◌&&◌, ◌||◌, not, Option, none, some, List, [], ◌∷◌, ◌++◌, map,
  arith, ltb, leb, ◌==◌, if◌then◌else◌, bit, length, take, drop, replicate, keep, all, count,
  member, sum, range_from, Outcome, returns, raises, state_of, Result, ok, err, ◌>>=◌, Error,
  value_error, key_error, index_error, out_of_capacity, collectives_error, shard_error, ℤ, pos,
  negsuc, Bool-cases, Option-cases, leb→le, le→leb, ltb→lt, lt→ltb, ==_refl, ==_iff, length-append,
  take-append-drop, length-take, length-drop, count-append, count-split, length-range_from,
  count-range_from,
}
use s_llm.Prelude.Dict.{
  Dict, lookup, put, without, has, Distinct, lookup-put, lookup-without, put-Distinct,
  without-Distinct, without_missing, length-put_missing, length-put_present, length-without,
  without-put_missing,
}

-- `ids[-1]`, an `IndexError` on an empty list.
unfoldable pub last? : List ℕ → Option ℕ
last? [] = none
last? (x ∷ []) = some x
last? (x ∷ y ∷ xs) = last? (y ∷ xs)

-- `len(ids) >= max_context` of the recompute path of `generate`
abbrev pub at_context : Option ℕ → ℕ → Bool
at_context none n = false
at_context (some m) n = leb m n

module _ (next : List ℕ → ℕ) where
  -- `generate`, recompute path, at temperature 0 and with no repetition penalty.
  unfoldable pub generate : Option ℕ → List ℕ → ℕ → List ℕ → List ℕ
  generate max_context stop_ids zero ids = ids
  generate max_context stop_ids (suc steps) ids =
      let next_id = next ids in
      let ids' = ids ++ next_id ∷ [] in
      let rest = generate max_context stop_ids steps ids' in
      if member next_id stop_ids
      then ids
      else if at_context max_context (length ids')
      then ids'
      else rest

  -- The loop `for k, tok in enumerate(draft)`: the accepted tokens, and the main model's own token
  -- where one was not accepted.
  unfoldable pub verify : List ℕ → List ℕ → List ℕ × Option ℕ
  verify ids [] = ([], none)
  verify ids (tok ∷ rest) =
      let more = verify (ids ++ tok ∷ []) rest in
      if next ids == tok then (tok ∷ more.0, more.1) else ([], some (next ids))

  -- `nxt`: the logits of the mismatch are used again.
  abbrev pub corrective : List ℕ → Option ℕ → ℕ
  corrective ids none = next ids
  corrective ids (some m) = m

  -- One pass of either loop from the draft on: what it leaves, and whether the loop goes on.
  unfoldable pub settle : List ℕ → ℕ → List ℕ → ℕ → List ℕ → Bool × List ℕ × ℕ
  settle stop_ids max_new ids n drafted =
      let (accepted, mismatch) = verify ids drafted in
      let ids' = ids ++ accepted in
      let n' = n + length accepted in
      let nxt = corrective ids' mismatch in
      if leb max_new n'
      then (false, ids', n')
      else if member nxt stop_ids
      then (false, ids', n')
      else (true, ids' ++ nxt ∷ [], n' + 1)

  module _ (draft : List ℕ → ℕ) where
    -- `for _ in range(nd)`: `mtp_next_token` on the growing list.
    unfoldable pub draft_tokens : ℕ → List ℕ → List ℕ
    draft_tokens zero cur = []
    draft_tokens (suc nd) cur = let tok = draft cur in tok ∷ draft_tokens nd (cur ++ tok ∷ [])

    unfoldable pub spec_loop : ℕ → List ℕ → ℕ → ℕ → List ℕ → ℕ → Option (Result (List ℕ))
    spec_loop zero stop_ids num_draft max_new ids n = none
    spec_loop (suc fuel) stop_ids num_draft max_new ids n =
        if ltb n max_new
        then elim (last? ids) [
          | none ↦ some (err index_error)
          | some t ↦
              if member t stop_ids
              then some (ok ids)
              else (let (again, ids', n') =
                    settle stop_ids max_new ids n
                      (draft_tokens (min num_draft (max_new - n - 1)) ids) in
                  elim again [
                    | true ↦ spec_loop fuel stop_ids num_draft max_new ids' n'
                    | false ↦ some (ok ids')
                  ])
        ]
        else some (ok ids)

    unfoldable pub spec_decode_greedy : List ℕ → ℕ → ℕ → List ℕ → Option (Result (List ℕ))
    spec_decode_greedy prompt max_new num_draft stop_ids =
        if ltb num_draft 1
        then some (err value_error)
        else spec_loop (suc max_new) stop_ids num_draft max_new prompt 0

  module _ (block : List ℕ → List ℕ) (block_size : ℕ) where
    unfoldable pub deepseek_loop : ℕ → List ℕ → ℕ → ℕ → List ℕ → ℕ → Option (Result (List ℕ))
    deepseek_loop zero stop_ids num_draft max_new ids n = none
    deepseek_loop (suc fuel) stop_ids num_draft max_new ids n =
        if ltb n max_new
        then elim (last? ids) [
          | none ↦ some (err index_error)
          | some t ↦
              let nd = min num_draft (max_new - n) in
              if member t stop_ids
              then some (ok ids)
              else if ltb nd 1
              then some (ok ids)
              else (let (again, ids', n') = settle stop_ids max_new ids n (take nd (block ids)) in
                  elim again [
                    | true ↦ deepseek_loop fuel stop_ids num_draft max_new ids' n'
                    | false ↦ some (ok ids')
                  ])
        ]
        else some (ok ids)

    -- `num_draft` defaults to the block size of the draft head.
    unfoldable pub spec_decode_greedy_deepseek :
        List ℕ → ℕ → Option ℕ → List ℕ → Option (Result (List ℕ))
    spec_decode_greedy_deepseek prompt max_new num_draft stop_ids =
        let nd : ℕ = elim num_draft [ none ↦ block_size | some k ↦ k ] in
        if ltb nd 1
        then some (err value_error)
        else deepseek_loop (suc max_new) stop_ids nd max_new prompt 0
