-- ===== src/Serving/Engine/Reap.antt =====
-- `reap` of `BatchedInferenceEngine`: it drops the finished sequences that have a sink.
use s_llm.Prelude.{
  ℕ, Bool, true, false, ◌&&◌, not, Option, none, some, List, [], ◌∷◌, map, keep, member,
}
use s_llm.Prelude.Dict.{Dict, has}
use s_llm.Runtime.Scheduler.{Request}
use s_llm.Serving.Engine.{Engine, Info, Sink}

-- `{r.seq_id for r in self.sched.done}`
abbrev pub done_ids : List Request → List ℕ
done_ids rs = map (λ r. r.seq_id) rs

abbrev pub has_sink : Option Sink → Bool
has_sink none = false
has_sink (some sink) = true

module _ {L C G R T : Type 0} where
  abbrev pub is_reaped : List ℕ → ℕ × Info L C G R T → Bool
  is_reaped ids (q, info) = has_sink info.sink && member q ids

  -- The ids of the sequences that are dropped.
  abbrev pub reaped : List ℕ → Dict (Info L C G R T) → List ℕ
  reaped ids seqs = map (λ (x : ℕ × Info L C G R T). x.0) (keep (is_reaped ids) seqs)

  unfoldable pub reap : Engine L C G R T → Engine L C G R T × List ℕ
  reap e =
      let ids = done_ids e.sched.done in
      let gone = reaped ids e.seqs in
      let left = keep (λ x. not (is_reaped ids x)) e.seqs in
      let e' = record e { seqs = left } in
      elim gone [
        | [] ↦ (e', [])
        | (q ∷ qs) ↦ (
          record e' {
            order = keep (λ s. has s left) e.order;
            sched = record (e.sched) {
              done = keep (λ r. not (member r.seq_id (q ∷ qs))) e.sched.done;
            };
          },
          q ∷ qs,
        )
      ]
