-- ===== src/Runtime/Spec/Verify.antt =====
-- What one pass of a speculative loop emits: tokens of the main model's greedy run.
use s_llm.Prelude.{
  ℕ, zero, suc, ◌+◌, ◌≤◌, ◌≡◌, refl, sym, ap, ◌∙◌, subst, ◌⊎◌, inl, inr, Bool, true, false, Option,
  some, List, [], ◌∷◌, ◌++◌, arith, leb, ◌==◌, length, member, Bool-cases, leb→le,
}
use mathlib.Core.List.{append-nil, append_assoc}
use s_llm.Runtime.Spec.{last?, verify, corrective, settle, draft_tokens}

pub last?-append : (xs : List ℕ) (x : ℕ) → last? (xs ++ x ∷ []) ≡ some x
unfolding last?
last?-append [] x = refl
last?-append (y ∷ []) x = refl
last?-append (y ∷ z ∷ xs) x = last?-append (z ∷ xs) x

module _ (next : List ℕ → ℕ) where
  -- `k` tokens of the greedy run, whatever they are.
  unfoldable pub greedy_run : ℕ → List ℕ → List ℕ
  greedy_run zero ids = ids
  greedy_run (suc k) ids = greedy_run k (ids ++ next ids ∷ [])

  pub greedy_run-add :
      (j k : ℕ) (ids : List ℕ) → greedy_run (j + k) ids ≡ greedy_run k (greedy_run j ids)
  unfolding greedy_run
  greedy_run-add zero k ids =
      let e : zero + k ≡ k = omega arith in ap (λ (n : ℕ). greedy_run n ids) e
  greedy_run-add (suc j) k ids =
      let e : suc j + k ≡ suc (j + k) = omega arith in
      ap (λ (n : ℕ). greedy_run n ids) e ∙ greedy_run-add j k (ids ++ next ids ∷ [])

  pub last?-greedy_run :
      (k t : ℕ) (ids : List ℕ) → last? ids ≡ some t → (u : ℕ) × (last? (greedy_run k ids) ≡ some u)
  unfolding greedy_run
  last?-greedy_run zero t ids e = (t, e)
  last?-greedy_run (suc k) t ids e =
      last?-greedy_run k (next ids) (ids ++ next ids ∷ []) (last?-append ids (next ids))

  -- The accepted tokens are the greedy run, and the corrective token continues it.
  pub record Verified (ids drafted accepted : List ℕ) (mismatch : Option ℕ) : Type 0 where
    pub runs : ids ++ accepted ≡ greedy_run (length accepted) ids
    pub within : length accepted ≤ length drafted
    pub corrects : corrective next (ids ++ accepted) mismatch ≡ next (ids ++ accepted)

  pub verify-Verified :
      (ids drafted : List ℕ)
      → Verified ids drafted (verify next ids drafted).0 (verify next ids drafted).1
  unfolding verify greedy_run
  verify-Verified ids [] = record { runs = append-nil ids; within = omega arith; corrects = refl }
  verify-Verified ids (tok ∷ rest) = elim (Bool-cases (next ids == tok)) [
    | inr e ↦
        rw (e, verify)
          (record {
            runs = append-nil ids;
            within = omega arith;
            corrects = ap next (sym (append-nil ids));
          })
    | inl e ↦
        let v = verify-Verified (ids ++ tok ∷ []) rest in
        let acc : List ℕ = (verify next (ids ++ tok ∷ []) rest).0 in
        let mis : Option ℕ = (verify next (ids ++ tok ∷ []) rest).1 in
        let regroup : (ids ++ tok ∷ []) ++ acc ≡ ids ++ tok ∷ acc =
          append_assoc ids (tok ∷ []) acc in
        let it : tok ≡ next ids = ground arith in
        rw (e, verify)
          (record {
            runs =
                sym regroup ∙ v.runs ∙ ap (λ (x : ℕ). greedy_run (length acc) (ids ++ x ∷ [])) it;
            within = omega (arith, v.within);
            corrects = subst (λ (x : List ℕ). corrective next x mis ≡ next x) regroup v.corrects;
          })
  ]

  -- The state that a pass leaves: `k` more tokens of the greedy run, and why the loop ends, if it
  -- does.
  pub record Settles (stop_ids : List ℕ) (max_new : ℕ) (ids : List ℕ) (n : ℕ) (again : Bool)
      (ids' : List ℕ) (n' : ℕ) : Type 0 where
    pub steps : ℕ
    pub runs : ids' ≡ greedy_run steps ids
    pub counts : n' ≡ n + steps
    pub bounded : n' ≤ max_new
    pub goes_on : again ≡ true → 1 ≤ steps
    pub ends : again ≡ false → (n' ≡ max_new) ⊎ (member (next ids') stop_ids ≡ true)

  pub settle-Settles :
      (stop_ids : List ℕ) (max_new : ℕ) (ids : List ℕ) (n : ℕ) (drafted : List ℕ)
      → n + length drafted ≤ max_new
      → let r = settle next stop_ids max_new ids n drafted in
        Settles stop_ids max_new ids n r.0 r.1 r.2
  unfolding settle
  settle-Settles stop_ids max_new ids n drafted h =
      let v = verify-Verified ids drafted in
      let acc : List ℕ = (verify next ids drafted).0 in
      let mis : Option ℕ = (verify next ids drafted).1 in
      elim (Bool-cases (leb max_new (n + length acc))) [
        | inl full ↦ rw full (record {
          steps = length acc;
          runs = v.runs;
          counts = refl;
          bounded = omega (arith, v.within);
          goes_on = λ e. cc;
          ends = λ e. inl (omega (arith, v.within, leb→le _ _ full));
        })
        | inr room ↦ elim (Bool-cases (member (corrective next (ids ++ acc) mis) stop_ids)) [
          | inl stops ↦
              rw (room, stops)
                (record {
                  steps = length acc;
                  runs = v.runs;
                  counts = refl;
                  bounded = omega (arith, v.within);
                  goes_on = λ e. cc;
                  ends = λ e. inr (subst (λ (x : ℕ). member x stop_ids ≡ true) v.corrects stops);
                })
          | inr more ↦
              rw (room, more)
                (record {
                  steps = length acc + 1;
                  runs =
                      ap (λ (x : ℕ). (ids ++ acc) ++ x ∷ []) v.corrects
                      ∙ ap (λ (l : List ℕ). l ++ next l ∷ []) v.runs
                      ∙ unfold greedy_run in sym (greedy_run-add (length acc) 1 ids);
                  counts = omega arith;
                  bounded = ground arith;
                  goes_on = λ e. omega arith;
                  ends = λ e. cc;
                })
        ]
      ]

  pub length-draft_tokens :
      (draft : List ℕ → ℕ) (nd : ℕ) (cur : List ℕ) → length (draft_tokens next draft nd cur) ≡ nd
  unfolding draft_tokens
  length-draft_tokens draft zero cur = refl
  length-draft_tokens draft (suc nd) cur =
      ap suc (length-draft_tokens draft nd (cur ++ draft cur ∷ []))
