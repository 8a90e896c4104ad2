-- ===== src/Server/Connection/Rounds.antt =====
-- A connection comes to an end.
use clip_ferry.Common.{
  ℕ, ◌<◌, ◌≡◌, ◌≢◌, ◌∙◌, inl, inr, refl, ap, sym, true, Option, none, some, List, [], ◌∷◌, ◌++◌,
  length, drop, All, arith, length-drop,
}
use clip_ferry.Common.Result.{IoResult, ok, err, >>=-eq-ok}
use clip_ferry.Wire.Code.{
  Opcode, opcode_try_from, get_offer, begin_transfer, read_range, status, hello, pause, resume,
  cancel, complete,
}
use clip_ferry.Wire.Frame.{Frame, read_exact, read_header, read_frame_optional}
use clip_ferry.Wire.Message.{parse_read_request, read_response}
use clip_ferry.Offer.Manifest.{Utf8}
use clip_ferry.Server.State.{ServerState, M}
use clip_ferry.Server.Peers.{ensure_peer_allowed}
use clip_ferry.Server.Peers.Auth.{Result-cases}
use clip_ferry.Server.Read.{Turn, ReadAnswer, answered, waiting}
use clip_ferry.Server.Read
use clip_ferry.Server.Read.Wait.{read_range_ends}
use clip_ferry.Server.Answers.{
  encode_begin_response, encode_control_response, encode_status_response,
}
use clip_ferry.Server.Dispatch.{
  Round, read_payload, encode_manifest_response, encode_read_response, answer, dispatch, reply,
  dispatch_request,
}
use clip_ferry.Server.Connection.{
  send_response, answer_frame, handle_request, Served, next_round, serve_frame, handle_requests,
}

-- One of the waits of the round times out.
pub record Limited (r : Round) : Type 0 where
  pub before : List Turn
  pub last : Turn
  pub after : List Turn
  pub split : r.turns ≡ before ++ (last ∷ after)
  pub times_out : last.timed_out ≡ true

-- A frame takes bytes off the connection.
read_frame-shrinks :
    (stream rest : List ℕ) (f : Frame)
    → read_frame_optional stream ≡ ok (some f, rest)
    → length rest < length stream
unfolding read_frame_optional read_exact
read_frame-shrinks [] rest f e = absurd (ground arith)
read_frame-shrinks (first ∷ stream) rest f e =
    let ((tail, stream'), e₁, e₂) = >>=-eq-ok (read_exact 19 stream) _ e in
    let ((opcode, request_id, n), e₃, e₄) = >>=-eq-ok (read_header (first ∷ tail)) _ e₂ in
    let ((payload, rest'), e₅, e₆) = >>=-eq-ok (read_exact n stream') _ e₄ in
    let one : stream' ≡ drop 19 stream = ground arith in
    let two : rest' ≡ drop n stream' = ground arith in
    let three : rest' ≡ rest = ground arith in
    omega (
      arith,
      length-drop 19 stream,
      length-drop n stream',
      ap length one,
      ap length two,
      ap length three,
    )

-- What an answer that is no ReadRange ends with is never the wait.
answer-ends : (m : M (List ℕ)) (s : ServerState) → (answer m s).1 ≢ ok none
answer-ends m s e = elim (Result-cases (m s).1) [
  | inl (a, e') ↦ ground arith
  | inr (x, e') ↦ ground arith
]

read_payload-ends : (a : ReadAnswer) → a ≢ waiting → read_payload a ≢ ok none
unfolding read_payload
read_payload-ends (answered st bytes) h e = elim (Result-cases (read_response st bytes)) [
  | inl (r, e') ↦ ground arith
  | inr (x, e') ↦ ground arith
]
read_payload-ends waiting h e = absurd (h refl)

read_response-ends :
    (r : Round) (peer payload : List ℕ) (s : ServerState)
    → Limited r
    → (encode_read_response r peer payload s).1 ≢ ok none
unfolding encode_read_response
read_response-ends r peer payload s l e = elim (Result-cases (parse_read_request payload)) [
  | inr (x, e') ↦ ground arith
  | inl ((c, offset, requested), e') ↦
      let ends =
        read_range_ends r.moment l.before l.after l.last r.serve r.finish peer c offset requested s
          l.times_out in
      elim (Result-cases
        (Read.read_range r.moment r.turns r.serve r.finish peer c offset requested s).1) [
          | inl (a, e₂) ↦
              read_payload-ends a
                (λ h. ends (
                  ap
                    (λ ts.
                      (Read.read_range r.moment ts r.serve r.finish peer c offset requested s).1)
                    (sym l.split)
                  ∙ e₂
                  ∙ ap ok h))
                (rw (e', e₂) at e)
          | inr (x, e₂) ↦ ground arith
        ]
]

dispatch-ends :
    (utf8 : Utf8) (r : Round) (peer : List ℕ) (o : Opcode) (payload : List ℕ) (s : ServerState)
    → Limited r
    → (dispatch utf8 r peer o payload s).1 ≢ ok none
unfolding dispatch
dispatch-ends utf8 r peer get_offer payload s l =
    answer-ends (encode_manifest_response utf8 r.moment payload) s
dispatch-ends utf8 r peer begin_transfer payload s l =
    answer-ends (encode_begin_response r.moment r.later r.draw peer payload) s
dispatch-ends utf8 r peer read_range payload s l = read_response-ends r peer payload s l
dispatch-ends utf8 r peer pause payload s l =
    answer-ends (encode_control_response r.moment peer pause payload) s
dispatch-ends utf8 r peer resume payload s l =
    answer-ends (encode_control_response r.moment peer resume payload) s
dispatch-ends utf8 r peer cancel payload s l =
    answer-ends (encode_control_response r.moment peer cancel payload) s
dispatch-ends utf8 r peer complete payload s l =
    answer-ends (encode_control_response r.moment peer complete payload) s
dispatch-ends utf8 r peer status payload s l =
    answer-ends (encode_status_response r.moment peer payload) s
dispatch-ends utf8 r peer hello payload s l = λ e. ground arith

send_response-ends :
    (o : Opcode) (f : Frame) (sent : List ℕ) (a : ServerState × Option (List ℕ))
    → a.1 ≢ none
    → (send_response o f sent a).1 ≢ ok none
unfolding send_response
send_response-ends o f sent (s, none) h e = h refl
send_response-ends o f sent (s, some payload) h e = ground arith

reply-some : (r : clip_ferry.Wire.Code.WireResult (Option (List ℕ))) → r ≢ ok none → reply r ≢ none
unfolding reply
reply-some r h e = ground arith

answer_frame-ends :
    (utf8 : Utf8) (r : Round) (peer : List ℕ) (f : Frame) (sent : List ℕ) (o : IoResult Opcode)
    (s : ServerState)
    → Limited r
    → (answer_frame utf8 r peer f sent o s).1 ≢ ok none
unfolding answer_frame dispatch_request
answer_frame-ends utf8 r peer f sent (err x) s l = λ e. ground arith
answer_frame-ends utf8 r peer f sent (ok o) s l =
    send_response-ends o f sent (dispatch_request utf8 r peer o f.payload s)
      (reply-some _ (dispatch-ends utf8 r peer o f.payload s l))

handle_request-ends :
    (utf8 : Utf8) (r : Round) (peer : List ℕ) (f : Frame) (sent : List ℕ) (s : ServerState)
    → Limited r
    → (handle_request utf8 r peer f sent s).1 ≢ ok none
unfolding handle_request
handle_request-ends utf8 r peer f sent s l e =
    elim (Result-cases (ensure_peer_allowed r.moment peer s).1) [
      | inr (x, e') ↦ ground arith
      | inl (u, e') ↦
          answer_frame-ends utf8 r peer f sent (opcode_try_from f.opcode)
            (ensure_peer_allowed r.moment peer s).0 l (rw (e', handle_request) at e)
    ]

next_round-ends :
    (sent : List ℕ) (go : List ℕ → ServerState → Served)
    (step : ServerState × IoResult (Option (List ℕ)))
    → step.1 ≢ ok none
    → ((sent' : List ℕ) (s : ServerState) → (go sent' s).ended ≢ none)
    → (next_round sent go step).ended ≢ none
unfolding next_round
next_round-ends sent go (s, err x) h k e = ground arith
next_round-ends sent go (s, ok none) h k e = h refl
next_round-ends sent go (s, ok (some sent')) h k e = k sent' s e

serve_frame-ends :
    (sent : List ℕ) (go : Frame → List ℕ → Served) (s : ServerState)
    (read : IoResult (Option Frame × List ℕ))
    → ((f : Frame) (rest : List ℕ) → read ≡ ok (some f, rest) → (go f rest).ended ≢ none)
    → (serve_frame sent go s read).ended ≢ none
unfolding serve_frame
serve_frame-ends sent go s (err x) k e = ground arith
serve_frame-ends sent go s (ok (none, rest)) k e = ground arith
serve_frame-ends sent go s (ok (some f, rest)) k e = k f rest refl e

-- The loop of a connection takes no more rounds than the connection has bytes, plus one for its
-- end, if every round has a wait that times out: every request is then answered or ends the
-- connection, whatever the peer sends and the other threads do.
pub handle_requests_end :
    (utf8 : Utf8) (peer : List ℕ) (rounds : List Round) (stream sent : List ℕ) (s : ServerState)
    → All Limited rounds
    → length stream < length rounds
    → (handle_requests utf8 peer rounds stream sent s).ended ≢ none
unfolding handle_requests
handle_requests_end utf8 peer [] stream sent s l h = absurd (omega (arith, h))
handle_requests_end utf8 peer (r ∷ rounds) stream sent s (l, ls) h =
    serve_frame-ends sent _ (r.others s) (read_frame_optional stream) λ f rest read.
      next_round-ends sent _ (handle_request utf8 r peer f sent (r.others s))
        (handle_request-ends utf8 r peer f sent (r.others s) l)
        λ sent' s'.
          handle_requests_end utf8 peer rounds rest sent' s' ls
            (omega (arith, h, read_frame-shrinks stream rest f read))
