-- ===== src/Client/Connection/Served.antt =====
-- The client's exchange against the server's loop.
use mathlib.Core.List.{append-nil}
use clip_ferry.Common.{
  ℕ, ◌^◌, ◌<◌, ◌≤◌, ◌≡◌, ◌∙◌, refl, sym, ap, true, none, some, List, [], ◌∷◌, ◌++◌, length, ◌==◌,
  ◌&&◌, All, arith,
}
use clip_ferry.Common.Bytes.{IsByte}
use clip_ferry.Common.Result.{ok}
use clip_ferry.Wire.Code.{
  Opcode, opcode_as_u16, opcode_try_from, response_opcode, response_opcode_lem,
}
use clip_ferry.Wire.Frame.{
  Frame, IsFrame, frame_header, read_frame, read_frame_optional, write_frame, max_frame_payload,
}
use clip_ferry.Wire.Frame.RoundTrip.{read_frame-write_frame}
use clip_ferry.Offer.Manifest.{Utf8}
use clip_ferry.Server.State.{ServerState, Moment}
use clip_ferry.Server.Peers.{peer_is_allowed, ensure_peer_allowed}
use clip_ferry.Server.Dispatch.{Round, dispatch_request}
use clip_ferry.Server.Connection.{
  Served, served, consume_injected_response_drop, send_response, answer_frame, handle_request,
  next_round, serve_frame, handle_requests,
}
use clip_ferry.Client.Connection.{round_trip, exchange}

abbrev pub frame_of : Opcode → ℕ → List ℕ → Frame
frame_of o id payload = record { opcode = opcode_as_u16 o; request_id = id; payload = payload }

abbrev pub response_of : Opcode → ℕ → List ℕ → Frame
response_of o id payload = record { opcode = response_opcode o; request_id = id; payload = payload }

abbrev pub sent_bytes : Frame → List ℕ
sent_bytes f = frame_header f (length f.payload) ++ f.payload

write_frame-small :
    (f : Frame) → length f.payload ≤ max_frame_payload → write_frame [] f ≡ ok (sent_bytes f)
unfolding write_frame
write_frame-small f h = ground arith

opcode_u16 : (o : Opcode) → opcode_as_u16 o < 256 ^ 2
unfolding opcode_as_u16
opcode_u16 o = ground arith

opcode_back : (o : Opcode) → opcode_try_from (opcode_as_u16 o) ≡ ok o
unfolding opcode_as_u16 opcode_try_from
opcode_back o = ground arith

response_u16 : (o : Opcode) → response_opcode o < 256 ^ 2
unfolding opcode_as_u16
response_u16 o = rw (response_opcode_lem o) (ground arith)

-- A request whose payload, and whose answer, fit a frame.
pub record Fits (id : ℕ) (payload : List ℕ) : Type 0 where
  pub id_64 : id < 256 ^ 8
  pub small : length payload ≤ max_frame_payload
  pub bytes_u8 : All IsByte payload

read_back :
    (f : Frame) (rest : List ℕ)
    → IsFrame f
    → length f.payload ≤ max_frame_payload
    → read_frame_optional (sent_bytes f ++ rest) ≡ ok (some f, rest)
read_back f rest v h = read_frame-write_frame f (sent_bytes f) rest v (write_frame-small f h)

ensure_peer_allowed-trusted :
    (m : Moment) (peer : List ℕ) (s : ServerState)
    → peer_is_allowed s m peer ≡ true
    → ensure_peer_allowed m peer s ≡ (s, ok tt)
unfolding ensure_peer_allowed
ensure_peer_allowed-trusted m peer s h = rw h refl

handle_request-allowed :
    (utf8 : Utf8) (r : Round) (peer : List ℕ) (f : Frame) (s : ServerState)
    → peer_is_allowed s r.moment peer ≡ true
    → handle_request utf8 r peer f [] s ≡ answer_frame utf8 r peer f [] (opcode_try_from f.opcode) s
unfolding handle_request
handle_request-allowed utf8 r peer f s h =
    let trusted = ensure_peer_allowed-trusted r.moment peer s h in
    rw (trusted, handle_request)
      (ap (answer_frame utf8 r peer f [] (opcode_try_from f.opcode)) (ap (λ x. x.0) trusted))

-- Without a drop that was asked for, the response is sent.
send_response-kept :
    (o : Opcode) (id : ℕ) (payload reply : List ℕ) (s : ServerState)
    → Fits id reply
    → s.injected_response_drops ≡ 0
    → send_response o (frame_of o id payload) [] (s, some reply)
      ≡ (s, ok (some (sent_bytes (response_of o id reply))))
unfolding send_response consume_injected_response_drop
send_response-kept o id payload reply s v h =
    let kept : (s.injected_response_drops == 0) ≡ true = ground (arith, h) in
    rw (kept, write_frame-small (response_of o id reply) v.small) refl

module _ (utf8 : Utf8) (r : Round) (peer : List ℕ) (o : Opcode) (id : ℕ) (payload reply : List ℕ)
    (s s' : ServerState) where
  -- The request is answered with those bytes, and the answer is sent.
  pub record Answered : Type 0 where
    pub allowed : peer_is_allowed (r.others s) r.moment peer ≡ true
    pub dispatched : dispatch_request utf8 r peer o payload (r.others s) ≡ (s', some reply)
    pub not_dropped : s'.injected_response_drops ≡ 0

  handle_answered :
      Fits id reply
      → Answered
      → handle_request utf8 r peer (frame_of o id payload) [] (r.others s)
        ≡ (s', ok (some (sent_bytes (response_of o id reply))))
  unfolding answer_frame
  handle_answered v a =
      handle_request-allowed utf8 r peer (frame_of o id payload) (r.others s) a.allowed
      ∙ rw (opcode_back o, a.dispatched, send_response-kept o id payload reply s' v a.not_dropped)
          refl

  served_answered :
      Fits id payload
      → Fits id reply
      → Answered
      → handle_requests utf8 peer (r ∷ []) (sent_bytes (frame_of o id payload)) [] s
        ≡ served s' (sent_bytes (response_of o id reply)) none
  unfolding handle_requests serve_frame next_round
  served_answered u v a =
      let is_frame : IsFrame (frame_of o id payload) = record {
        opcode_u16 = opcode_u16 o;
        request_id_u64 = u.id_64;
        payload_u8 = u.bytes_u8;
      } in
      let read : read_frame_optional (sent_bytes (frame_of o id payload))
          ≡ ok (some (frame_of o id payload), []) =
        (ap read_frame_optional (sym (append-nil (sent_bytes (frame_of o id payload))))
          ∙ read_back (frame_of o id payload) [] is_frame u.small) in
      rw (read, handle_answered v a) refl

  -- The client's exchange with the server, over a connection that loses nothing: the server reads the
  -- request as it was sent, with its opcode and payload, and the client gets just the answer that
  -- `dispatch_request` gives to it, accepted as the response to its request; the server ends in the
  -- state that `dispatch_request` leaves. The peer must be trusted, and request and answer must fit a
  -- frame.
  pub exchange_served :
      Fits id payload
      → Fits id reply
      → Answered
      → (exchange id o payload []
            (λ request. (handle_requests utf8 peer (r ∷ []) request [] s).sent)
          ≡ ok (reply, []))
        × ((handle_requests utf8 peer (r ∷ []) (sent_bytes (frame_of o id payload)) [] s).state
            ≡ s')
  unfolding exchange round_trip read_frame
  exchange_served u v a =
      let served_so = served_answered u v a in
      let is_frame : IsFrame (response_of o id reply) = record {
        opcode_u16 = response_u16 o;
        request_id_u64 = v.id_64;
        payload_u8 = v.bytes_u8;
      } in
      let read : read_frame_optional (sent_bytes (response_of o id reply))
          ≡ ok (some (response_of o id reply), []) =
        (ap read_frame_optional (sym (append-nil (sent_bytes (response_of o id reply))))
          ∙ read_back (response_of o id reply) [] is_frame v.small) in
      let fits : ((response_opcode o == response_opcode o) && (id == id)) ≡ true = ground arith in
      (
        rw (write_frame-small (frame_of o id payload) u.small, served_so, read, fits) refl,
        ap (λ (x : Served). x.state) served_so,
      )
