-- ===== src/Runtime/Scheduler/Termination.antt =====
-- A request that gets its planned action in every round comes to its end.
use s_llm.Prelude.{
  ℕ, ◌<◌, ◌≡◌, refl, ap, ◌∙◌, subst, ◌⊎◌, inl, inr, Bool, none, some, List, [], ◌∷◌, arith, length,
  returns, state_of,
}
use s_llm.Prelude.Dict.{lookup, put, lookup-put, lookup-without}
use s_llm.Runtime.Scheduler.{Request, Action, Scheduler, plan_one, moved, advance}
use s_llm.Runtime.Scheduler.Invariant.{IsLive, IsSound}
use s_llm.Runtime.Scheduler.Progress.{Advanced, goes_on, is_done, advance_total}
use s_llm.Runtime.Scheduler.Plan.{
  Planned, chunked, one_token, plan_one-Planned, remaining, moved-remaining,
}

-- What the executor does to the bookkeeping of the actions of one request.
unfoldable pub advance_each : Scheduler → List Action → Bool → Scheduler
advance_each s [] eos = s
advance_each s (a ∷ rest) eos = advance_each (state_of (advance s a eos)) rest eos

-- One round for the request `q`: its part of `schedule`, and `advance`.
unfoldable pub round : Scheduler → ℕ → Bool → Scheduler
round s q eos = elim (lookup q s.running) [
  | none ↦ s
  | some r ↦ advance_each s (plan_one s.chunk_size r) eos
]

-- Rounds with the answers of the executor whether the token was an end of sequence.
unfoldable pub rounds : Scheduler → ℕ → List Bool → Scheduler
rounds s q [] = s
rounds s q (eos ∷ rest) = rounds (round s q eos) q rest

Ends : ℕ → ℕ → Scheduler → Type 0
Ends q k s =
    (lookup q s.running ≡ none)
    ⊎ ((r : Request) × (lookup q s.running ≡ some r) × (remaining r < k))

Advanced-Ends :
    (s : Scheduler) (a : Action) (eos : Bool) (r : Request) (s' : Scheduler)
    → Planned s.chunk_size r a
    → Advanced s a.seq_id r a eos (returns tt s')
    → Ends a.seq_id (remaining r) s'
unfolding Ends
Advanced-Ends s a eos r s' p (goes_on _ on same) = elim (moved-remaining s.chunk_size r a eos p) [
  | inl over ↦ cc (on, over)
  | inr less ↦ inr (
    moved r a,
    ap (λ (x : Scheduler). lookup a.seq_id x.running) same
        ∙ ground (arith, lookup-put a.seq_id a.seq_id (moved r a) s.running),
    less,
  )
]
Advanced-Ends s a eos r s' p (is_done t c _ over has_table reg same) = inl (
    ap (λ (x : Scheduler). lookup a.seq_id x.running) same
    ∙ ground (arith, lookup-without a.seq_id a.seq_id (put a.seq_id (moved r a) s.running)))

Planned-id : (chunk : ℕ) (r : Request) (a : Action) → Planned chunk r a → a.seq_id ≡ r.seq_id
Planned-id chunk r a (chunked _ i _ _ _ _ _ _) = i
Planned-id chunk r a (one_token _ i _ _ _) = i

round-Nearer :
    (s : Scheduler) (q : ℕ) (eos : Bool) (r : Request)
    → IsSound s
    → lookup q s.running ≡ some r
    → IsSound (round s q eos) × Ends q (remaining r) (round s q eos)
unfolding round advance_each
round-Nearer s q eos r v e =
    let l : IsLive q r = v.live q r e in
    let (a, f, p) = plan_one-Planned s.chunk_size r v.chunk_pos l.unfinished in
    let i : a.seq_id ≡ q = Planned-id s.chunk_size r a p ∙ l.named in
    let (s', g, w, d) = advance_total s a eos v r (rw i e) in
    let here : round s q eos ≡ s' = ground (arith, e, f, g) in
    let done : Ends q (remaining r) s' =
      subst (λ (k : ℕ). Ends k (remaining r) s') i (Advanced-Ends s a eos r s' p d) in
    rw here (w, done)

rounds_gone :
    (s : Scheduler) (q : ℕ) (answers : List Bool)
    → lookup q s.running ≡ none
    → rounds s q answers ≡ s
unfolding rounds round
rounds_gone s q [] e = refl
rounds_gone s q (eos ∷ rest) e =
    let here : round s q eos ≡ s = rw (e, round) refl in
    ap (λ (x : Scheduler). rounds x q rest) here ∙ rounds_gone s q rest e

-- However the executor answers, a running request of a sound scheduler has left after more
-- rounds than it has prompt tokens and output tokens to go, and the scheduler is sound.
pub rounds_end :
    (s : Scheduler) (q : ℕ) (r : Request) (answers : List Bool)
    → IsSound s
    → lookup q s.running ≡ some r
    → remaining r < length answers
    → (lookup q (rounds s q answers).running ≡ none) × IsSound (rounds s q answers)
unfolding rounds Ends
rounds_end s q r [] v e h = absurd (omega arith)
rounds_end s q r (eos ∷ rest) v e h =
    let (w, d) = round-Nearer s q eos r v e in
    elim d [
      | inl gone ↦ rw (rounds_gone (round s q eos) q rest gone) (gone, w)
      | inr (r', e', less) ↦ rounds_end (round s q eos) q r' rest w e' (omega arith)
    ]
