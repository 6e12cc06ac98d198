-- ===== src/Tp/Collectives/Contribute.antt =====
-- What has been contributed, by whom and under which tag.
use s_llm.Prelude.{
  ℕ, ◌≡◌, refl, inl, inr, ◌&&◌, not, Option, none, some, arith, ltb, ◌==◌, if◌then◌else◌, returns,
  raises, collectives_error, pos, Bool-cases,
}
use s_llm.Prelude.Dict.{Dict, lookup, put, has, lookup-put, lookup-without}
use s_llm.Tp.Collectives.{SimCollectives, slot_of, contribute_at, contribute, reset}

module _ {A : Type 0} where
  -- What a rank has contributed under a tag.
  unfoldable pub contribution : SimCollectives A → ℕ → ℕ → Option A
  contribution c tag rank = lookup rank (slot_of tag c.tags)

  slot_of-put :
      (tag t : ℕ) (s : Dict A) (d : Dict (Dict A))
      → slot_of t (put tag s d) ≡ (if tag == t then s else slot_of t d)
  slot_of-put tag t s d = ground (arith, lookup-put tag t s d)

  -- A contribution of a rank outside the world, or a second one of a rank under the same tag, is a
  -- `CollectivesError` and changes no contribution. Any other is recorded, and no other contribution
  -- changes.
  pub contribute_total :
      (c : SimCollectives A) (tag rank : ℕ) (arr : A)
      → let good = ltb rank c.world_size && not (has rank (slot_of tag c.tags)) in
        (c' : SimCollectives A) × (contribute c tag (pos rank) arr
          ≡ (if good then returns tt c' else raises collectives_error c'))
        × (c'.world_size ≡ c.world_size)
        × ((t r : ℕ)
            → contribution c' t r
              ≡ (if good && ((tag == t) && (rank == r)) then some arr else contribution c t r))
  unfolding contribute contribute_at contribution
  contribute_total c tag rank arr = elim (Bool-cases (ltb rank c.world_size)) [
    | inr e ↦ (c, rw e refl, refl, λ t r. rw e refl)
    | inl e ↦ elim (Bool-cases (has rank (slot_of tag c.tags))) [
      | inl f ↦ (
        record c { tags = put tag (slot_of tag c.tags) c.tags },
        rw (e, f) refl,
        refl,
        λ t r. rw (e, f) (ground (arith, slot_of-put tag t (slot_of tag c.tags) c.tags)),
      )
      | inr f ↦ (
        record c { tags = put tag (put rank arr (slot_of tag c.tags)) c.tags },
        rw (e, f) refl,
        refl,
        λ t r.
            rw (e, f)
              (ground (
                arith,
                slot_of-put tag t (put rank arr (slot_of tag c.tags)) c.tags,
                lookup-put rank r arr (slot_of tag c.tags),
              )),
      )
    ]
  ]

  -- `reset` of a tag drops its contributions and no other ones; `reset` of all drops them all.
  pub contribution-reset :
      (c : SimCollectives A) (tag : Option ℕ) (t r : ℕ)
      → contribution (reset c tag) t r
        ≡ (elim tag [ none ↦ none | some q ↦ if q == t then none else contribution c t r ])
  unfolding contribution reset lookup
  contribution-reset c none t r = refl
  contribution-reset c (some q) t r = ground (arith, lookup-without q t c.tags)
