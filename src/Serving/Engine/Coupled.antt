-- ===== src/Serving/Engine/Coupled.antt =====
-- What the dict of sequences and the scheduler say of the same request, and how one request moves on.
use s_llm.Prelude.{
  ℕ, ◌-◌, ◌≤◌, ◌<◌, ◌≡◌, refl, sym, ap, ◌∙◌, subst, ◌⊎◌, inl, inr, true, false, Option, none, some,
  List, [], ◌∷◌, ◌++◌, arith, ◌==◌, if◌then◌else◌, length, count, Bool-cases, ==_refl, ==_iff,
}
use s_llm.Prelude.Dict.{Dict, lookup, put, without, has, lookup-put, lookup-without}
use s_llm.Runtime.Coordinator.{Coordinator}
use s_llm.Runtime.Scheduler.{Request, Scheduler, ended}
use s_llm.Runtime.Scheduler.Invariant.{ids, IsSound, has-some, has-put, has-without}
use s_llm.Runtime.Scheduler.Progress.{replaced}
use s_llm.Runtime.Scheduler.Removal.{removed}
use s_llm.Runtime.Spec.{generate}
use s_llm.Serving.Engine.{Info}

abbrev pub InList : Request → List Request → Type 0
InList r [] = ⊥
InList r (x ∷ xs) = (x ≡ r) ⊎ InList r xs

pub InList-append :
    (r : Request) (xs ys : List Request) → InList r (xs ++ ys) → InList r xs ⊎ InList r ys
InList-append r [] ys h = inr h
InList-append r (x ∷ xs) ys (inl e) = inl (inl e)
InList-append r (x ∷ xs) ys (inr h) = elim (InList-append r xs ys h) [
  | inl k ↦ inl (inr k)
  | inr k ↦ inr k
]

pub append-InList :
    (r : Request) (xs ys : List Request) → InList r xs ⊎ InList r ys → InList r (xs ++ ys)
append-InList r [] ys (inl h) = absurd h
append-InList r [] ys (inr h) = h
append-InList r (x ∷ xs) ys (inl (inl e)) = inl e
append-InList r (x ∷ xs) ys (inl (inr h)) = inr (append-InList r xs ys (inl h))
append-InList r (x ∷ xs) ys (inr h) = inr (append-InList r xs ys (inr h))

pub InList-count : (r : Request) (xs : List Request) → InList r xs → 0 < count r.seq_id (ids xs)
InList-count r [] h = absurd h
InList-count r (x ∷ xs) (inl e) = ground (arith, ap (λ (y : Request). y.seq_id) e)
InList-count r (x ∷ xs) (inr h) = omega (arith, InList-count r xs h)

-- Where a sequence stands.
abbrev pub Placed : ℕ → Scheduler → Type 0
Placed q s =
    (has q s.running ≡ true)
    ⊎ ((0 < count q (ids s.waiting)) ⊎ ((r : Request) × InList r s.done × (r.seq_id ≡ q)))

clash : {A : Type 0} {o : Option A} {x : A} → o ≡ none → o ≡ some x → ⊥
clash h k = ground arith

module _ {L C G R T : Type 0} (next : Option R → List ℕ → ℕ) (stop : List ℕ) where
  -- The tokens of the single-shot loop.
  abbrev pub single : Info L C G R T → List ℕ
  single info = generate (next info.rep) none stop info.max_new info.prompt

  -- A request that is not over: what is generated so far leads to what the single-shot loop gives.
  pub record Busy (r : Request) (info : Info L C G R T) : Type 0 where
    pub same_prompt : r.prompt_len ≡ length info.prompt
    pub same_max : r.max_new ≡ info.max_new
    pub same_gen : r.tokens_generated ≡ length info.gen
    pub room : r.tokens_generated < r.max_new
    pub leads :
        single info
        ≡ generate
            (next info.rep)
            none
            stop
            (info.max_new - length info.gen)
            (info.prompt ++ info.gen)

  -- The tokens are those of the single-shot loop.
  abbrev pub IsComplete : Info L C G R T → Type 0
  IsComplete info = info.prompt ++ info.gen ≡ single info

  pub record Coupled (s : Scheduler) (seqs : Dict (Info L C G R T)) (next_seq : ℕ) : Type 0 where
    pub sound : IsSound s
    pub unused : (q : ℕ) → next_seq ≤ q → lookup q seqs ≡ none
    pub runs :
        (q : ℕ) (r : Request)
        → lookup q s.running ≡ some r
        → (info : Info L C G R T) × (lookup q seqs ≡ some info) × Busy r info
    pub waits :
        (r : Request)
        → InList r s.waiting
        → (info : Info L C G R T) × (lookup r.seq_id seqs ≡ some info) × Busy r info
    pub over :
        (r : Request)
        → InList r s.done
        → (info : Info L C G R T) × (lookup r.seq_id seqs ≡ some info) × IsComplete info
    pub apart :
        (r : Request)
        → InList r s.done
        → (has r.seq_id s.running ≡ false) × (count r.seq_id (ids s.waiting) ≡ 0)
    pub accounted : (q : ℕ) (info : Info L C G R T) → lookup q seqs ≡ some info → Placed q s

  -- The request `r` under `q` becomes `r'`, and its dict `info'`.
  module _ (s : Scheduler) (seqs seqs' : Dict (Info L C G R T)) (n q : ℕ) (r r' : Request)
      (info' : Info L C G R T) (v : Coupled s seqs n) (e : lookup q s.running ≡ some r)
      (puts : (x : ℕ) → lookup x seqs' ≡ (if q == x then some info' else lookup x seqs)) where
    other_waits : (x : Request) → InList x s.waiting → (q == x.seq_id) ≡ false
    other_waits x h =
        ground (arith, v.sound.unique q, has-some q s.running e, InList-count x s.waiting h)

    other_done : (x : Request) → InList x s.done → (q == x.seq_id) ≡ false
    other_done x h = ground (arith, (v.apart x h).0, has-some q s.running e)

    other_seqs : (x : ℕ) → (q == x) ≡ false → lookup x seqs' ≡ lookup x seqs
    other_seqs x o = puts x ∙ rw o refl

    here_seqs : lookup q seqs' ≡ some info'
    here_seqs = puts q ∙ rw (==_refl q) refl

    still_unused : (x : ℕ) → n ≤ x → lookup x seqs' ≡ none
    still_unused x above = elim (Bool-cases (q == x)) [
      | inr o ↦ other_seqs x o ∙ v.unused x above
      | inl same ↦
          let key : q ≡ x = (==_iff q x).0 same in
          absurd (clash (v.unused q (omega (arith, above, key))) (v.runs q r e).1)
    ]

    -- The request goes on.
    pub goes_on-Coupled :
        IsSound (replaced s q r') → Busy r' info' → Coupled (replaced s q r') seqs' n
    goes_on-Coupled sound busy = record {
      sound = sound;
      unused = still_unused;
      runs = λ x y h. elim (Bool-cases (q == x)) [
        | inl same ↦
            let it : r' ≡ y = ground (arith, lookup-put q x r' s.running) in
            (info', puts x ∙ rw same refl, subst (λ (z : Request). Busy z info') it busy)
        | inr o ↦
            let (info, there, b) = v.runs x y (ground (arith, lookup-put q x r' s.running)) in
            (info, other_seqs x o ∙ there, b)
      ];
      waits = λ x h.
          let (info, there, b) = v.waits x h in
          (info, other_seqs x.seq_id (other_waits x h) ∙ there, b);
      over = λ x h.
          let (info, there, b) = v.over x h in
          (info, other_seqs x.seq_id (other_done x h) ∙ there, b);
      apart = λ x h. (
        ground (arith, has-put q x.seq_id r' s.running, other_done x h, (v.apart x h).0),
        (v.apart x h).1,
      );
      accounted = λ x info h. elim (Bool-cases (q == x)) [
        | inl same ↦ inl (ground (arith, has-put q x r' s.running))
        | inr o ↦ elim (v.accounted x info (sym (other_seqs x o) ∙ h)) [
          | inl k ↦ inl (ground (arith, has-put q x r' s.running))
          | inr k ↦ inr k
        ]
      ];
    }

    -- The request is done.
    pub is_done-Coupled :
        (c : Coordinator)
        → IsSound (removed (replaced s q r') q c (s.done ++ ended r' ∷ []))
        → r'.seq_id ≡ q
        → IsComplete info'
        → Coupled (removed (replaced s q r') q c (s.done ++ ended r' ∷ [])) seqs' n
    is_done-Coupled c sound name complete =
        let gone : (x : ℕ)
            → lookup x (without q (put q r' s.running))
              ≡ (if q == x then none else lookup x s.running) =
          (λ x.
            ground (arith, lookup-without q x (put q r' s.running), lookup-put q x r' s.running)) in
        record {
          sound = sound;
          unused = still_unused;
          runs = λ x y h. elim (Bool-cases (q == x)) [
            | inl same ↦ absurd (clash (gone x ∙ rw same refl) h)
            | inr o ↦
                let (info, there, b) = v.runs x y (sym (gone x ∙ rw o refl) ∙ h) in
                (info, other_seqs x o ∙ there, b)
          ];
          waits = λ x h.
              let (info, there, b) = v.waits x h in
              (info, other_seqs x.seq_id (other_waits x h) ∙ there, b);
          over = λ x h. elim (InList-append x s.done (ended r' ∷ []) h) [
            | inl k ↦
                let (info, there, b) = v.over x k in
                (info, other_seqs x.seq_id (other_done x k) ∙ there, b)
            | inr (inl it) ↦
                let key : q ≡ x.seq_id = sym name ∙ ap (λ (y : Request). y.seq_id) it in
                (info', ap (λ k. lookup k seqs') (sym key) ∙ here_seqs, complete)
            | inr (inr none_left) ↦ absurd none_left
          ];
          apart = λ x h. elim (InList-append x s.done (ended r' ∷ []) h) [
            | inl k ↦ (
              ground (
                arith,
                has-without q x.seq_id (put q r' s.running),
                has-put q x.seq_id r' s.running,
                other_done x k,
                (v.apart x k).0,
              ),
              (v.apart x k).1,
            )
            | inr (inl it) ↦
                let key : q ≡ x.seq_id = sym name ∙ ap (λ (y : Request). y.seq_id) it in
                (
                  ground
                      (arith, has-without q x.seq_id (put q r' s.running), ==_iff q x.seq_id, key),
                  subst (λ k. count k (ids s.waiting) ≡ 0) key
                      (ground (arith, v.sound.unique q, has-some q s.running e)),
                )
            | inr (inr none_left) ↦ absurd none_left
          ];
          accounted = λ x info h. elim (Bool-cases (q == x)) [
            | inl same ↦ inr (
                inr (
                  ended r',
                  append-InList (ended r') s.done (ended r' ∷ []) (inr (inl refl)),
                  name ∙ (==_iff q x).0 same,
                ))
            | inr o ↦ elim (v.accounted x info (sym (other_seqs x o) ∙ h)) [
              | inl k ↦ inl (
                  ground
                    (arith, has-without q x (put q r' s.running), has-put q x r' s.running, k, o))
              | inr (inl k) ↦ inr (inl k)
              | inr (inr (y, k, name')) ↦
                  inr (inr (y, append-InList y s.done (ended r' ∷ []) (inl k), name'))
            ]
          ];
        }
