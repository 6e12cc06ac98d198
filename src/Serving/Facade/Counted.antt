-- ===== src/Serving/Facade/Counted.antt =====
-- The requests of the facade are counted: those that hold a place in flight, and those that were served.
use s_llm.Prelude.{
  ℕ, suc, ◌+◌, ◌≤◌, ◌≡◌, refl, sym, ap, ◌∙◌, subst, inl, inr, true, false, not, none, some, List,
  [], ◌∷◌, ◌++◌, arith, ◌==◌, bit, length, ℤ, pos, Bool-cases, Option-cases,
}
use s_llm.Prelude.Dict.{Dict, lookup, put, lookup-put, length-put_present, put-put}
use s_llm.Serving.Facade.Handshake.{
  Facade, Item, tok_id, tok_text, finish, error, Req, plus_one, minus_one, with_req, release,
}

abbrev pub is_terminal : Item → ℕ
is_terminal (tok_id tok) = 0
is_terminal (tok_text t) = 0
is_terminal (finish reason) = 1
is_terminal (error x) = 1

-- How many events of a queue end the stream.
abbrev pub terminals : List Item → ℕ
terminals [] = 0
terminals (x ∷ xs) = is_terminal x + terminals xs

pub terminals-append : (xs ys : List Item) → terminals (xs ++ ys) ≡ terminals xs + terminals ys
terminals-append [] ys = omega arith
terminals-append (x ∷ xs) ys = omega (arith, terminals-append xs ys)

-- The requests that hold a place in flight.
abbrev pub in_flight : Dict Req → ℕ
in_flight [] = 0
in_flight ((r, req) ∷ reqs) = bit (not req.released) + in_flight reqs

in_flight-put :
    (r : ℕ) (old new : Req) (reqs : Dict Req)
    → lookup r reqs ≡ some old
    → in_flight (put r new reqs) + bit (not old.released) ≡ in_flight reqs + bit (not new.released)
unfolding lookup put
in_flight-put r old new [] h = cc
in_flight-put r old new ((k, v) ∷ reqs) h = elim (Bool-cases (k == r)) [
  | inl e ↦ ground (arith, e)
  | inr e ↦ ground (arith, e, in_flight-put r old new reqs)
]

pub in_flight-put_new :
    (r : ℕ) (new : Req) (reqs : Dict Req)
    → lookup r reqs ≡ none
    → in_flight (put r new reqs) ≡ in_flight reqs + bit (not new.released)
unfolding lookup put
in_flight-put_new r new [] h = omega arith
in_flight-put_new r new ((k, v) ∷ reqs) h = ground (arith, in_flight-put_new r new reqs)

-- A request is told of its end once, and gives its place back when it is.
pub record IsOrderly (req : Req) : Type 0 where
  pub once : terminals req.q ≤ bit req.done
  pub returned : req.done ≡ true → req.released ≡ true

-- What holds between two calls.
pub record Counted (limit : ℕ) (reqs : Dict Req) (next : ℕ) (inflight : ℤ) (served : ℕ)
    : Type 0 where
  pub numbered : (r : ℕ) → next ≤ r → lookup r reqs ≡ none
  pub places : inflight ≡ pos (in_flight reqs)
  pub others : served + in_flight reqs ≡ length reqs
  pub bounded : in_flight reqs ≤ limit
  pub orderly : (r : ℕ) (req : Req) → lookup r reqs ≡ some req → IsOrderly req

abbrev pub freed : Req → Req
freed req = record req { released = true }

minus_one_pos : (n : ℕ) → minus_one (pos (suc n)) ≡ pos n
minus_one_pos n = ground arith

pub plus_one_pos : (n : ℕ) → plus_one (pos n) ≡ pos (suc n)
plus_one_pos n = refl

module _ {E J : Type 0} where
  abbrev pub IsCounted : Facade E J → Type 0
  IsCounted f = Counted f.max_queued f.reqs f.next_req f.inflight f.served

  -- A change of a request that keeps its place.
  pub with_req-IsCounted :
      (f : Facade E J) (r : ℕ) (old new : Req)
      → IsCounted f
      → lookup r f.reqs ≡ some old
      → new.released ≡ old.released
      → IsOrderly new
      → IsCounted (with_req f r new)
  with_req-IsCounted f r old new v e same o = record {
    numbered = λ k above. ground (arith, lookup-put r k new f.reqs, v.numbered k);
    places = v.places ∙ ap pos (ground (arith, in_flight-put r old new f.reqs));
    others =
        ground
          (arith, v.others, in_flight-put r old new f.reqs, length-put_present r new old f.reqs);
    bounded = ground (arith, v.bounded, in_flight-put r old new f.reqs);
    orderly = λ k req h. elim (Bool-cases (r == k)) [
      | inl here ↦ subst IsOrderly (ground (arith, lookup-put r k new f.reqs)) o
      | inr there ↦ v.orderly k req (ground (arith, lookup-put r k new f.reqs))
    ];
  }

  release_kept :
      (f : Facade E J) (r : ℕ) (req : Req)
      → lookup r f.reqs ≡ some req
      → req.released ≡ true
      → release f r ≡ f
  unfolding release
  release_kept f r req e k = rw (release, e, k) refl

  release_given :
      (f : Facade E J) (r : ℕ) (req : Req)
      → lookup r f.reqs ≡ some req
      → req.released ≡ false
      → release f r ≡ record f {
        reqs = put r (record req { released = true }) f.reqs;
        inflight = minus_one f.inflight;
        served = suc f.served;
      }
  unfolding release
  release_given f r req e k = rw (release, e, k) refl

  given_back-Counted :
      (f : Facade E J) (r : ℕ) (old new : Req)
      → IsCounted f
      → lookup r f.reqs ≡ some old
      → old.released ≡ false
      → IsOrderly (freed new)
      → Counted f.max_queued
          (put r (freed new) f.reqs)
          f.next_req
          (minus_one f.inflight)
          (suc f.served)
  given_back-Counted f r old new v e k o =
      let fewer : in_flight f.reqs ≡ suc (in_flight (put r (freed new) f.reqs)) =
        ground (arith, in_flight-put r old (freed new) f.reqs e) in
      record {
        numbered = λ j above. ground (arith, lookup-put r j (freed new) f.reqs, v.numbered j);
        places = ap minus_one (v.places ∙ ap pos fewer) ∙ minus_one_pos _;
        others = omega (arith, v.others, fewer, length-put_present r (freed new) old f.reqs e);
        bounded = omega (arith, v.bounded, fewer);
        orderly = λ j req h. elim (Bool-cases (r == j)) [
          | inl here ↦ subst IsOrderly (ground (arith, lookup-put r j (freed new) f.reqs)) o
          | inr away ↦ v.orderly j req (ground (arith, lookup-put r j (freed new) f.reqs))
        ];
      }

  -- A request gives back its place, if it still holds it, after a change that may have ended it.
  pub release-IsCounted :
      (f : Facade E J) (r : ℕ) (old new : Req)
      → IsCounted f
      → lookup r f.reqs ≡ some old
      → new.released ≡ old.released
      → IsOrderly (freed new)
      → IsCounted (release (with_req f r new) r)
  release-IsCounted f r old new v e same o =
      let there : lookup r (put r new f.reqs) ≡ some new =
        ground (arith, lookup-put r r new f.reqs) in
      elim (Bool-cases new.released) [
        | inl k ↦
            subst IsCounted (sym (release_kept (with_req f r new) r new there k)) (
              with_req-IsCounted f r old new v e same (record { once = o.once; returned = λ _. k }))
        | inr k ↦ subst IsCounted (sym (release_given (with_req f r new) r new there k)) (
            subst (λ d. Counted f.max_queued d f.next_req (minus_one f.inflight) (suc f.served))
              (sym (put-put r new (freed new) f.reqs))
              (given_back-Counted f r old new v e (sym same ∙ k) o))
      ]

  release_missing : (f : Facade E J) (r : ℕ) → lookup r f.reqs ≡ none → release f r ≡ f
  unfolding release
  release_missing f r e = rw (release, e) refl

  pub released-IsCounted : (f : Facade E J) (r : ℕ) → IsCounted f → IsCounted (release f r)
  released-IsCounted f r v = elim (Option-cases (lookup r f.reqs)) [
    | inl e ↦ subst IsCounted (sym (release_missing f r e)) v
    | inr (req, e) ↦ elim (Bool-cases req.released) [
      | inl k ↦ subst IsCounted (sym (release_kept f r req e k)) v
      | inr k ↦
          let o = v.orderly r req e in
          subst IsCounted (sym (release_given f r req e k))
            (given_back-Counted f r req req v e k (record { once = o.once; returned = λ _. refl }))
    ]
  ]
