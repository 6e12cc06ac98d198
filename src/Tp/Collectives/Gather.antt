-- ===== src/Tp/Collectives/Gather.antt =====
-- What is gathered: the contributions in the order of the ranks, whatever the order they came in.
use s_llm.Prelude.{
  ℕ, zero, suc, ◌+◌, ◌≤◌, ◌<◌, ◌≡◌, refl, sym, ap, ◌∙◌, subst, inl, inr, true, ◌&&◌, ◌||◌, not,
  Option, none, some, List, [], ◌∷◌, map, arith, ltb, ◌==◌, if◌then◌else◌, bit, length, count,
  range_from, Outcome, returns, raises, Result, ok, err, collectives_error, pos, Option-cases,
  ==_refl, count-range_from,
}
use s_llm.Prelude.Dict.{Dict, lookup, has}
use s_llm.Tp.Collectives.{
  SimCollectives, make_collectives, slot_of, contribute, missing, collect, parts, all_gather_parts,
  all_gather,
}
use s_llm.Tp.Collectives.Contribute.{contribution, contribute_total}

module _ {A : Type 0} where
  -- All values, if none is absent.
  unfoldable pub every : List (Option A) → Option (List A)
  every [] = some []
  every (none ∷ os) = none
  every (some x ∷ os) = elim (every os) [ none ↦ none | some xs ↦ some (x ∷ xs) ]

  -- A gathered list, or the error for an absent one.
  abbrev pub present : Option (List A) → Result (List A)
  present none = err collectives_error
  present (some xs) = ok xs

  collect-every :
      (slot : Dict A) (rs : List ℕ)
      → (if length (missing slot rs) == 0 then collect slot rs else err collectives_error)
        ≡ present (every (map (λ r. lookup r slot) rs))
  unfolding collect every has
  collect-every slot [] = refl
  collect-every slot (r ∷ rs) = ground (arith, collect-every slot rs)

  every_empty : (n : ℕ) → 0 < n → every (map (λ r. lookup {V = A} r []) (range_from 0 n)) ≡ none
  unfolding every lookup
  every_empty zero v = absurd (ground arith)
  every_empty (suc n) v = refl

  -- `_parts` is the list of what the ranks of the world have contributed, in the order of the ranks,
  -- and a `CollectivesError` when one of them has not contributed, or the tag is unknown.
  pub parts_total :
      (c : SimCollectives A) (tag : ℕ)
      → 0 < c.world_size
      → parts c tag ≡ present (every (map (contribution c tag) (range_from 0 c.world_size)))
  unfolding parts contribution
  parts_total c tag w = elim (Option-cases (lookup tag c.tags)) [
    | inl e ↦
        let absent : err collectives_error ≡ present (look []) =
          sym (ap present (every_empty c.world_size w)) in
        let slot_is : slot_of tag c.tags ≡ [] = rw (e, slot_of) refl in
        let parts_are : parts c tag ≡ err collectives_error = rw (e, parts) refl in
        parts_are ∙ absent ∙ ap (λ s. present (look s)) (sym slot_is)
    | inr (slot, e) ↦
        let slot_is : slot_of tag c.tags ≡ slot = rw (e, slot_of) refl in
        let parts_are : parts c tag ≡ present (look slot) =
          rw (e, parts) (collect-every slot (range_from 0 c.world_size)) in
        parts_are ∙ ap (λ s. present (look s)) (sym slot_is)
  ]
    where
      look : Dict A → Option (List A)
      look s = every (map (λ r. lookup r s) (range_from 0 c.world_size))

  -- The contributions of a list of ranks, one after the other.
  unfoldable pub contribute_all :
      SimCollectives A → ℕ → (ℕ → A) → List ℕ → Outcome (SimCollectives A) (Unit {0})
  contribute_all c tag f [] = returns tt c
  contribute_all c tag f (r ∷ rs) = elim (contribute c tag (pos r) (f r)) [
    | raises e c' ↦ raises e c'
    | returns _ c' ↦ contribute_all c' tag f rs
  ]

  contribute_all_recorded :
      (c : SimCollectives A) (tag : ℕ) (f : ℕ → A) (rs : List ℕ)
      → ((b : ℕ) → count b rs + bit (has b (slot_of tag c.tags)) ≤ bit (ltb b c.world_size))
      → (c' : SimCollectives A) × (contribute_all c tag f rs ≡ returns tt c')
        × (c'.world_size ≡ c.world_size)
        × ((r : ℕ)
            → contribution c' tag r
              ≡ (if ltb 0 (count r rs) then some (f r) else contribution c tag r))
  unfolding contribute_all contribution has
  contribute_all_recorded c tag f [] h = (c, refl, refl, λ r. refl)
  contribute_all_recorded c tag f (q ∷ rs) h =
      let (c1, e, w, k) = contribute_total c tag q (f q) in
      let good : ltb q c.world_size && not (has q (slot_of tag c.tags)) ≡ true =
        ground (arith, h q) in
      let e' : contribute c tag (pos q) (f q) ≡ returns tt c1 =
        e ∙ ap (λ g. if g then returns tt c1 else raises collectives_error c1) good in
      let seen : (b : ℕ) → has b (slot_of tag c1.tags) ≡ (q == b || has b (slot_of tag c.tags)) =
        λ b. ground (arith, k tag b, good) in
      let (c', e2, w2, k2) =
        contribute_all_recorded c1 tag f rs (λ b. ground (arith, h b, seen b, w)) in
      (c', rw (e', contribute_all) e2, w2 ∙ w, λ r. ground (arith, k2 r, k tag r, good))

  every-some :
      (g : ℕ → Option A) (f : ℕ → A) (rs : List ℕ)
      → ((r : ℕ) → 0 < count r rs → g r ≡ some (f r))
      → every (map g rs) ≡ some (map f rs)
  unfolding every
  every-some g f [] h = refl
  every-some g f (r ∷ rs) h =
      rw (h r (ground (arith, ==_refl r)), every-some g f rs (λ q v. h q (omega (arith, v)))) refl

abbrev new_world : {A : Type 0} → ℕ → SimCollectives A
new_world n = record { world_size = n; tags = [] }

new_world_gathers :
    {A : Type 0} (concatenate : List A → ℕ → A) (n tag axis : ℕ) (f : ℕ → A) (rs : List ℕ)
    → ((b : ℕ) → count b rs ≡ bit (ltb b (suc n)))
    → (c' : SimCollectives A) × (contribute_all (new_world (suc n)) tag f rs ≡ returns tt c')
      × (all_gather concatenate c' tag axis ≡ ok (concatenate (map f (range_from 0 (suc n))) axis))
unfolding all_gather all_gather_parts has lookup
new_world_gathers concatenate n tag axis f rs h =
    let (c', e, w, k) =
      contribute_all_recorded (new_world (suc n)) tag f rs (λ b. ground (arith, h b)) in
    let all_there : every (map (contribution c' tag) (range_from 0 (suc n)))
        ≡ some (map f (range_from 0 (suc n))) =
      every-some (contribution c' tag) f (range_from 0 (suc n))
        (λ r v. ground (arith, k r, h r, v, count-range_from r 0 (suc n))) in
    let ranks : every (map (contribution c' tag) (range_from 0 c'.world_size))
        ≡ some (map f (range_from 0 (suc n))) =
      subst
        (λ m.
          every (map (contribution c' tag) (range_from 0 m)) ≡ some (map f (range_from 0 (suc n))))
        (sym w) all_there in
    let gathered : parts c' tag ≡ ok (map f (range_from 0 (suc n))) =
      parts_total c' tag (omega (arith, w)) ∙ ap present ranks in
    (c', e, rw gathered refl)

-- In a new world, the ranks contribute under a tag in any order, each of them once: no contribution
-- fails, and `all_gather` concatenates what they have contributed in the order of the ranks.
pub all_gather_any_order :
    {A : Type 0} (concatenate : List A → ℕ → A) (n : ℕ) (c : SimCollectives A) (tag axis : ℕ)
    (f : ℕ → A) (rs : List ℕ)
    → make_collectives (pos n) ≡ ok c
    → ((b : ℕ) → count b rs ≡ bit (ltb b n))
    → (c' : SimCollectives A) × (contribute_all c tag f rs ≡ returns tt c')
      × (all_gather concatenate c' tag axis ≡ ok (concatenate (map f (range_from 0 n)) axis))
unfolding make_collectives
all_gather_any_order concatenate zero c tag axis f rs e h = absurd (ground (arith, e))
all_gather_any_order {A = A} concatenate (suc n) c tag axis f rs e h =
    let same : new_world (suc n) ≡ c = ground (arith, e) in
    subst
      (λ w.
        (c' : SimCollectives A) × (contribute_all w tag f rs ≡ returns tt c')
        × (all_gather concatenate c' tag axis
            ≡ ok (concatenate (map f (range_from 0 (suc n))) axis)))
      same (new_world_gathers concatenate n tag axis f rs h)
