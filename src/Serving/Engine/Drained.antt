-- ===== src/Serving/Engine/Drained.antt =====
-- `run_all` returns only when every request is finished.
use s_llm.Prelude.{
  ℕ, zero, suc, ◌+◌, ◌≡◌, sym, ap, ◌∙◌, inl, inr, some, List, [], ◌∷◌, arith, ◌==◌, length, count,
  returns, raises, Outcome-cases, key_error, runtime_error, Bool-cases, Option-cases, ==_iff,
}
use s_llm.Prelude.Dict.{lookup}
use s_llm.Runtime.Scheduler.{Scheduler, waiting_count}
use s_llm.Serving.Model.{Calls, Sampler}
use s_llm.Serving.Engine.{Engine, queue_length, result_text, results_of, text_of, with_info}
use s_llm.Serving.Engine.Step.{step, run_loop, run_all}

returns_inj {ℓ} : {S A : Type ℓ} {a b : A} {s t : S} → returns a s ≡ returns b t → (a ≡ b) × (s ≡ t)
returns_inj h = ground (arith, h)

module _ {L C G R T : Type 0} (m : Calls L C) (sampler : Sampler L G R) where
  run_loop-drained :
      (n : ℕ) (e e' : Engine L C G R T) (u : Unit {0})
      → run_loop m sampler n e ≡ returns u e'
      → queue_length e' ≡ 0
  unfolding run_loop
  run_loop-drained zero e e' u h = elim (Bool-cases (queue_length e == 0)) [
    | inl k ↦
        (let same : e ≡ e' = (returns_inj (rw (run_loop, k) at h)).1 in
          ap queue_length (sym same) ∙ (==_iff (queue_length e) 0).0 k)
    | inr k ↦ (let no : raises runtime_error e ≡ returns u e' = rw (run_loop, k) at h in cc)
  ]
  run_loop-drained (suc n) e e' u h = elim (Outcome-cases (step m sampler e)) [
    | inr (x, e1, o) ↦ (let no : raises x e1 ≡ returns u e' = rw (run_loop, o) at h in cc)
    | inl (a ∷ actions, e1, o) ↦ run_loop-drained n e1 e' u (rw (run_loop, o) at h)
    | inl ([], e1, o) ↦ elim (Bool-cases (queue_length e1 == 0)) [
      | inl k ↦
          (let same : e1 ≡ e' = (returns_inj (rw (run_loop, o, k) at h)).1 in
            ap queue_length (sym same) ∙ (==_iff (queue_length e1) 0).0 k)
      | inr k ↦ (let no : raises runtime_error e1 ≡ returns u e' = rw (run_loop, o, k) at h in cc)
    ]
  ]

module _ {L C G R T : Type 0} (decoded : List ℕ → T) where
  -- Reading a result changes neither the scheduler nor the order.
  results_of-same :
      (qs : List ℕ) (e e' : Engine L C G R T) (ts : List T)
      → results_of decoded e qs ≡ returns ts e'
      → (e'.sched ≡ e.sched) × (e'.order ≡ e.order) × (length ts ≡ length qs)
  unfolding results_of result_text
  results_of-same [] e e' ts h =
      let (here, same) = returns_inj h in
      (
        ap (λ (x : Engine L C G R T). x.sched) (sym same),
        ap (λ (x : Engine L C G R T). x.order) (sym same),
        ap length (sym here),
      )
  results_of-same (q ∷ qs) e e' ts h = elim (Option-cases (lookup q e.seqs)) [
    | inl missing ↦
        (let no : raises key_error e ≡ returns ts e' = rw (results_of, result_text, missing) at h in
          cc)
    | inr (info, found) ↦
        (let e1 = with_info e q (record info { text = some (text_of decoded info) }) in
          elim (Outcome-cases (results_of decoded e1 qs)) [
            | inr (x, e2, o) ↦
                (let no : raises x e2 ≡ returns ts e' =
                    rw (results_of, result_text, found, o) at h in
                  cc)
            | inl (us, e2, o) ↦
                (let (here, last) = returns_inj (rw (results_of, result_text, found, o) at h) in
                  let (sched, order, count) = results_of-same qs e1 e2 us o in
                  (
                    ap (λ (x : Engine L C G R T). x.sched) (sym last) ∙ sched,
                    ap (λ (x : Engine L C G R T). x.order) (sym last) ∙ order,
                    ap length (sym here) ∙ ap suc count,
                  ))
          ])
  ]

-- Where `run_all` returns, however many steps were allowed, no request waits or runs, and there are as
-- many results as requests in the order of the engine.
run_all-drained :
    {L C G R T : Type 0} (m : Calls L C) (sampler : Sampler L G R) (decoded : List ℕ → T)
    (max_steps : ℕ) (e e' : Engine L C G R T) (ts : List T)
    → run_all m sampler decoded max_steps e ≡ returns ts e'
    → (queue_length e' ≡ 0) × (length ts ≡ length e'.order)
unfolding run_all
run_all-drained m sampler decoded max_steps e e' ts h =
    elim (Outcome-cases (run_loop m sampler max_steps e)) [
      | inr (x, e1, o) ↦ (let no : raises x e1 ≡ returns ts e' = rw (run_all, o) at h in cc)
      | inl (u, e1, o) ↦
          (let (same, order, count) =
              results_of-same decoded e1.order e1 e' ts (rw (run_all, o) at h) in
            (
              ap (λ (s : Scheduler). waiting_count s + length s.running) same
                  ∙ run_loop-drained m sampler max_steps e e1 u o,
              count ∙ ap length (sym order),
            ))
    ]
