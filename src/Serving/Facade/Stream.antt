-- ===== src/Serving/Facade/Stream.antt =====
-- The streams that the handler threads read from the queue of a request.
use s_llm.Prelude.{
  ℕ, ◌+◌, ◌/◌, ◌%◌, ◌≤◌, ◌<◌, ◌≡◌, refl, sym, ap, ◌∙◌, inl, inr, true, Option, none, some, List, [],
  ◌∷◌, ◌++◌, arith, ◌==◌, if◌then◌else◌, length, drop, Bool-cases, Option-cases, ok, ok_inj,
  >>=-eq-ok,
}
use s_llm.Prelude.Dict.{lookup}
use mathlib.Core.List.{append_assoc}
use s_llm.Prelude.Text.{Text, decode_from, utf8_decode, utf8_encode, utf8_char}
use s_llm.Prelude.Text.Laws.{decode_two, utf8_decode-utf8_encode}
use s_llm.Serving.Bpe.{Bpe, decoded_bytes, known_bytes, decode}
use s_llm.Serving.Engine.{Reason}
use s_llm.Serving.Facade.Handshake.{Failure, timed_out, Item, tok_id, tok_text, finish, error}

-- How a stream ends: after a finish event, or by raising; an empty queue is a `TimeoutError`.
pub data End : Type 0 where
  completed : End
  raised : Failure → End

-- What is yielded, and the end.
pub record Stream : Type 0 where
  pub yields : List (Text × Option Reason)
  pub ending : End

abbrev pub yield_first : Text × Option Reason → Stream → Stream
yield_first x s = record s { yields = x ∷ s.yields }

module _ (decode : List ℕ → Text) where
  -- `_text_delta`: what the text is longer by; the text is kept.
  abbrev pub text_delta : List ℕ → Text → Text × Text
  text_delta gen_ids last_full = let full = decode gen_ids in (drop (length last_full) full, full)

  -- `_iter_batched_stream` from the ids and the text so far on.
  unfoldable pub iter_batched : List ℕ → Text → List Item → Stream
  iter_batched gen last [] = record { yields = []; ending = raised timed_out }
  iter_batched gen last (tok_id tok ∷ q) =
      let d = text_delta (gen ++ tok ∷ []) last in
      let rest = iter_batched (gen ++ tok ∷ []) d.1 q in
      if length d.0 == 0 then rest else yield_first (d.0, none) rest
  iter_batched gen last (tok_text t ∷ q) = iter_batched gen last q
  iter_batched gen last (finish reason ∷ q) = record {
    yields = ([], some reason) ∷ [];
    ending = completed;
  }
  iter_batched gen last (error x ∷ q) = record { yields = []; ending = raised x }

-- `_iter_text_stream`
unfoldable pub iter_text : List Item → Stream
iter_text [] = record { yields = []; ending = raised timed_out }
iter_text (tok_text [] ∷ q) = iter_text q
iter_text (tok_text (c ∷ cs) ∷ q) = yield_first (c ∷ cs, none) (iter_text q)
iter_text (tok_id tok ∷ q) = iter_text q
iter_text (finish reason ∷ q) = record { yields = ([], some reason) ∷ []; ending = completed }
iter_text (error x ∷ q) = record { yields = []; ending = raised x }

-- The text that a client puts together.
abbrev pub joined_yields : List (Text × Option Reason) → Text
joined_yields [] = []
joined_yields ((t, reason) ∷ rest) = t ++ joined_yields rest

-- What the executor puts into the queue for the tokens of a request that finishes.
abbrev pub queue_of : List ℕ → Reason → List Item
queue_of [] reason = finish reason ∷ []
queue_of (tok ∷ toks) reason = tok_id tok ∷ queue_of toks reason

-- Each token decodes to whole characters: its bytes are those of the text beside it.
pub data WholeTokens (t : Bpe) : List ℕ → Text → Type 0 where
  no_tokens : WholeTokens t [] []
  next_token :
      {tok : ℕ} {toks : List ℕ} {more : Text}
      → (here : Text) → utf8_encode here ≡ ok (decoded_bytes t (tok ∷ []))
      → WholeTokens t toks more
      → WholeTokens t (tok ∷ toks) (here ++ more)

decoded_bytes-append :
    (t : Bpe) (xs ys : List ℕ)
    → decoded_bytes t (xs ++ ys) ≡ decoded_bytes t xs ++ decoded_bytes t ys
decoded_bytes-append t [] ys = refl
decoded_bytes-append t (x ∷ xs) ys = elim (Option-cases (lookup x t.id_to_token)) [
  | inl e ↦ rw (decoded_bytes, e) (decoded_bytes-append t xs ys)
  | inr (token, e) ↦
      rw (decoded_bytes, e)
        (ap (◌++◌ (known_bytes token)) (decoded_bytes-append t xs ys)
          ∙ sym (append_assoc (known_bytes token) (decoded_bytes t xs) (decoded_bytes t ys)))
]

utf8_encode-append :
    (x y : Text) (a b : List ℕ)
    → utf8_encode x ≡ ok a
    → utf8_encode y ≡ ok b
    → utf8_encode (x ++ y) ≡ ok (a ++ b)
utf8_encode-append [] y a b h k = k ∙ ap (λ front. ok (front ++ b)) (ok_inj h)
utf8_encode-append (c ∷ cs) y a b h k =
    let (here, first, h1) = >>=-eq-ok (utf8_char c) _ h in
    let (rest, second, h2) = >>=-eq-ok (utf8_encode cs) _ h1 in
    let both : utf8_encode (cs ++ y) ≡ ok (rest ++ b) = utf8_encode-append cs y rest b second k in
    rw (first, both)
      (ap ok (sym (append_assoc here rest b)) ∙ ap (λ front. ok (front ++ b)) (ok_inj h2))

drop-length : (xs ys : List ℕ) → drop (length xs) (xs ++ ys) ≡ ys
drop-length [] ys = refl
drop-length (x ∷ xs) ys = drop-length xs ys

empty_text : (xs : Text) → (length xs == 0) ≡ true → xs ≡ []
empty_text [] h = refl
empty_text (x ∷ xs) h = ground arith

module _ (decode : List ℕ → Text) where
  joined-yield :
      (d : Text) (rest : Stream)
      → joined_yields (if length d == 0 then rest else yield_first (d, none) rest).yields
        ≡ d ++ joined_yields rest.yields
  joined-yield d rest = elim (Bool-cases (length d == 0)) [
    | inl none_new ↦ rw (none_new, empty_text d none_new) refl
    | inr some_new ↦ rw some_new refl
  ]

module _ (t : Bpe) where
  decode_whole :
      (ids : List ℕ) (text : Text)
      → utf8_encode text ≡ ok (decoded_bytes t ids)
      → decode t ids ≡ text
  unfolding decode
  decode_whole ids text e = utf8_decode-utf8_encode text _ e

  -- The text behind what the client has read already.
  iter_batched-joined :
      (gen toks : List ℕ) (past more : Text) (reason : Reason)
      → utf8_encode past ≡ ok (decoded_bytes t gen)
      → WholeTokens t toks more
      → joined_yields (iter_batched (decode t) gen past (queue_of toks reason)).yields ≡ more
  unfolding iter_batched
  iter_batched-joined gen _ past _ reason e no_tokens = refl
  iter_batched-joined gen (tok ∷ toks) past _ reason e (next_token {more = more} here h w) =
      let longer : utf8_encode (past ++ here) ≡ ok (decoded_bytes t (gen ++ tok ∷ [])) =
        utf8_encode-append past here _ _ e h
        ∙ ap ok (sym (decoded_bytes-append t gen (tok ∷ []))) in
      let text : decode t (gen ++ tok ∷ []) ≡ past ++ here =
        decode_whole (gen ++ tok ∷ []) (past ++ here) longer in
      let d = drop (length past) (decode t (gen ++ tok ∷ [])) in
      let new : d ≡ here = ap (drop (length past)) text ∙ drop-length past here in
      let rest =
        iter_batched (decode t) (gen ++ tok ∷ []) (decode t (gen ++ tok ∷ []))
          (queue_of toks reason) in
      joined-yield (decode t) d rest
      ∙ ap (λ x. x ++ joined_yields rest.yields) new
      ∙ ap
          (λ x.
            here
            ++ joined_yields
                (iter_batched (decode t) (gen ++ tok ∷ []) x (queue_of toks reason)).yields)
          text
      ∙ ap (◌++◌ here)
          (iter_batched-joined (gen ++ tok ∷ []) toks (past ++ here) more reason longer w)

  WholeTokens-encode :
      (toks : List ℕ) (text : Text)
      → WholeTokens t toks text
      → utf8_encode text ≡ ok (decoded_bytes t toks)
  WholeTokens-encode _ _ no_tokens = refl
  WholeTokens-encode (tok ∷ toks) _ (next_token {more = more} here h w) =
      utf8_encode-append here more _ _ h (WholeTokens-encode toks more w)
      ∙ ap ok (sym (decoded_bytes-append t (tok ∷ []) toks))

  -- A client that reads the whole stream of a request gets the text of all its tokens, in full, if each
  -- token decodes to whole characters.
  pub iter_batched-queue_of :
      (toks : List ℕ) (text : Text) (reason : Reason)
      → WholeTokens t toks text
      → (joined_yields (iter_batched (decode t) [] [] (queue_of toks reason)).yields ≡ text)
        × (decode t toks ≡ text)
  iter_batched-queue_of toks text reason w = (
    iter_batched-joined [] toks [] text reason refl w,
    decode_whole toks text (WholeTokens-encode toks text w),
  )

-- A character of two bytes that come in two tokens is lost.
-- The text of the two tokens is the character, but the stream yields U+FFFD and nothing more.
pub split_character_lost :
    (t : Bpe) (c i j : ℕ) (reason : Reason)
    → 0x80 ≤ c
    → c < 0x800
    → decoded_bytes t (i ∷ []) ≡ (0xc0 + c / 64) ∷ []
    → decoded_bytes t (i ∷ j ∷ []) ≡ (0xc0 + c / 64) ∷ (0x80 + c % 64) ∷ []
    → (decode t (i ∷ j ∷ []) ≡ c ∷ [])
      × (joined_yields (iter_batched (decode t) [] [] (queue_of (i ∷ j ∷ []) reason)).yields
          ≡ 0xfffd ∷ [])
unfolding decode iter_batched decode_from
split_character_lost t c i j reason low high first both =
    let whole : utf8_decode ((0xc0 + c / 64) ∷ (0x80 + c % 64) ∷ []) ≡ c ∷ [] =
      decode_two c [] low high in
    let half : utf8_decode ((0xc0 + c / 64) ∷ []) ≡ 0xfffd ∷ [] = ground arith in
    let one : decode t (i ∷ []) ≡ 0xfffd ∷ [] = ap utf8_decode first ∙ half in
    let two : decode t (i ∷ j ∷ []) ≡ c ∷ [] = ap utf8_decode both ∙ whole in
    (two, rw (one, two) refl)
