-- ===== src/Server/Connection.antt =====
-- One connection of the server: `handle_secure_connection` of src/clipboard/secure_transfer.rs on the
-- bytes that it delivers, one `Round` for each request.
pub mod Rounds
use clip_ferry.Common.{
  ℕ, ◌-◌, Bool, true, false, Option, none, some, List, [], ◌∷◌, length, drop, get_elem?, ◌==◌, ◌&&◌,
  not, if◌then◌else◌,
}
use clip_ferry.Common.Result.{
  IoResult, ok, err, ok_or, guard, ◌>>=◌, ◌>>◌, invalid_data, permission_denied, connection_aborted,
  other,
}
use clip_ferry.Wire.Code.{Opcode, opcode_as_u16, opcode_try_from, response_opcode, hello}
use clip_ferry.Wire.Frame.{Frame, read_frame_optional, read_frame, write_frame}
use clip_ferry.Wire.Message.{all_zero}
use clip_ferry.Offer.Manifest.{Utf8}
use clip_ferry.Server.State.{ServerState, Moment}
use clip_ferry.Server.Peers.{ensure_peer_allowed}
use clip_ferry.Server.Dispatch.{Round, dispatch_request}

unfoldable pub consume_injected_response_drop : ServerState → ServerState × Bool
consume_injected_response_drop s =
    if s.injected_response_drops == 0
    then (s, false)
    else (record s { injected_response_drops = s.injected_response_drops - 1 }, true)

abbrev pub some_sent : IoResult (List ℕ) → IoResult (Option (List ℕ))
some_sent (ok bytes) = ok (some bytes)
some_sent (err e) = err e

-- The response to a request that was read, behind what was sent before. `none` as above.
unfoldable pub send_response :
    Opcode
    → Frame
    → List ℕ
    → ServerState × Option (List ℕ)
    → ServerState × IoResult (Option (List ℕ))
send_response opcode request sent (s, none) = (s, ok none)
send_response opcode request sent (s, some payload) =
    let (s', dropped) = consume_injected_response_drop s in
    if dropped then (s', err connection_aborted) else (
      s',
      some_sent (
          write_frame sent (record {
            opcode = response_opcode opcode;
            request_id = request.request_id;
            payload = payload;
          })),
    )

-- `Opcode::try_from(request.opcode)?`, then the answer.
unfoldable pub answer_frame :
    Utf8
    → Round
    → List ℕ
    → Frame
    → List ℕ
    → IoResult Opcode
    → ServerState
    → ServerState × IoResult (Option (List ℕ))
answer_frame utf8 r peer request sent (err e) s = (s, err e)
answer_frame utf8 r peer request sent (ok opcode) s =
    send_response opcode request sent (dispatch_request utf8 r peer opcode request.payload s)

-- One round of the loop, behind the reading of the request.
unfoldable pub handle_request :
    Utf8 → Round → List ℕ → Frame → List ℕ → ServerState → ServerState × IoResult (Option (List ℕ))
handle_request utf8 r peer request sent s = elim (ensure_peer_allowed r.moment peer s).1 [
  | ok allowed ↦
      answer_frame utf8 r peer request sent (opcode_try_from request.opcode)
        (ensure_peer_allowed r.moment peer s).0
  | err e ↦ ((ensure_peer_allowed r.moment peer s).0, err permission_denied)
]

-- How a connection stands: the server, what was sent, and its end, if it has come to one.
pub record Served : Type 0 where
  pub state : ServerState
  pub sent : List ℕ
  pub ended : Option (IoResult (Unit {0}))

abbrev pub served : ServerState → List ℕ → Option (IoResult (Unit {0})) → Served
served s sent ended = record { state = s; sent = sent; ended = ended }

-- On with the loop, where the round has ended with bytes sent.
unfoldable pub next_round :
    List ℕ → (List ℕ → ServerState → Served) → ServerState × IoResult (Option (List ℕ)) → Served
next_round sent go (s, err e) = served s sent (some (err e))
next_round sent go (s, ok none) = served s sent none
next_round sent go (s, ok (some sent')) = go sent' s

-- A request is read; the connection may close between two requests.
unfoldable pub serve_frame :
    List ℕ → (Frame → List ℕ → Served) → ServerState → IoResult (Option Frame × List ℕ) → Served
serve_frame sent go s (err e) = served s sent (some (err e))
serve_frame sent go s (ok (none, stream)) = served s sent (some (ok tt))
serve_frame sent go s (ok (some request, stream)) = go request stream

-- The loop of `handle_secure_connection` on the bytes that the connection still delivers.
unfoldable pub handle_requests : Utf8 → List ℕ → List Round → List ℕ → List ℕ → ServerState → Served
handle_requests utf8 peer [] stream sent s = served s sent none
handle_requests utf8 peer (r ∷ rounds) stream sent s =
    serve_frame sent
      (λ request stream'.
        next_round sent (λ sent' s'. handle_requests utf8 peer rounds stream' sent' s')
          (handle_request utf8 r peer request sent (r.others s)))
      (r.others s) (read_frame_optional stream)

-- `HELLO_ROLE_RECEIVER`
abbrev pub hello_role_receiver : ℕ
hello_role_receiver = 1

-- The checks of the receiver's hello.
unfoldable pub is_hello : Frame → Bool
is_hello f =
    (f.opcode == opcode_as_u16 hello)
    && ((length f.payload == 33)
        && (elim (get_elem? f.payload 0) [ some role ↦ role == hello_role_receiver | none ↦ false ]
            && not (all_zero (drop 1 f.payload))))

-- The answer to the hello, with the 32 random bytes if there are any.
unfoldable pub send_hello : Option (List ℕ) → Frame → IoResult (List ℕ)
send_hello random f = do
  guard (is_hello f) invalid_data
  payload ← ok_or random other
  write_frame []
      (record { opcode = response_opcode hello; request_id = f.request_id; payload = payload })

unfoldable pub after_hello : Served → (List ℕ → Served) → IoResult (List ℕ) → Served
after_hello start go (err e) = record start { ended = some (err e) }
after_hello start go (ok sent) = go sent

-- The hello that was read, answered, and the loop behind it.
unfoldable pub answer_hello :
    Option (List ℕ) → Served → (List ℕ → List ℕ → Served) → IoResult (Frame × List ℕ) → Served
answer_hello random start go (err e) = record start { ended = some (err e) }
answer_hello random start go (ok (f, stream)) = after_hello start (go stream) (send_hello random f)

-- The peer is the one of the TLS handshake.
unfoldable pub handle_secure_connection :
    Utf8 → Moment → Option (List ℕ) → List ℕ → List Round → List ℕ → ServerState → Served
handle_secure_connection utf8 m random peer rounds stream s =
    let s' = (ensure_peer_allowed m peer s).0 in
    elim (ensure_peer_allowed m peer s).1 [
      | ok allowed ↦
          answer_hello random (served s' [] none)
            (λ stream' sent. handle_requests utf8 peer rounds stream' sent s') (read_frame stream)
      | err e ↦ served s' [] (some (err permission_denied))
    ]
