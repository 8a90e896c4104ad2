-- ===== src/Server/Dispatch/Invariant.antt =====
-- Whatever a peer sends, the server stays well formed.
use clip_ferry.Common.{ℕ, inl, inr, List, length, All, Bool-cases, leb, ◌==◌, ◌||◌, not}
use clip_ferry.Common.Result.{ok, err, guard}
use clip_ferry.Wire.Code.{
  Opcode, WireResult, get_offer, begin_transfer, read_range, status, hello, pause, resume, cancel,
  complete, invalid,
}
use clip_ferry.Wire.Message.{
  TransferCredentials, wire_len, decode_credentials, parse_control_request, parse_begin_request,
  parse_read_request,
}
use clip_ferry.Offer.Manifest.{Utf8}
use clip_ferry.Server.State.{ServerState, Moment, M, ◌>>=◌}
use clip_ferry.Server.Peers.Auth.{Result-cases, session_rule}
use clip_ferry.Server.Peers.Invariant.{IsServer, metrics-IsServer, ensure_peer_allowed-IsServer}
use clip_ferry.Server.Begin.Invariant.{IsFresh, begin_transfer-IsServer}
use clip_ferry.Server.Control.{control}
use clip_ferry.Server.Control
use clip_ferry.Server.Begin
use clip_ferry.Server.Read
use clip_ferry.Server.Control.Machine.{control-IsServer}
use clip_ferry.Server.Read.{Turn}
use clip_ferry.Server.Read.Invariant.{KeepsServer, read_range-IsServer}
use clip_ferry.Server.Answers.{
  lift, encode_begin_response, encode_control_response, encode_status_response,
}
use clip_ferry.Server.Dispatch.{
  Round, encode_manifest_response, encode_read_response, answer, dispatch, dispatch_request,
}

-- A chain keeps what its steps keep.
>>=-rule :
    {A B : Type 0} (P : ServerState → Type 0) (m : M A) (f : A → M B) (s : ServerState)
    → P (m s).0
    → ((a : A) (s' : ServerState) → P s' → P (f a s').0)
    → P (◌>>=◌ m f s).0
>>=-rule P m f s first next = elim (Result-cases (m s).1) [
  | inl (a, e) ↦ rw e (next a (m s).0 first)
  | inr (x, e) ↦ rw e first
]

-- A parse leaves the state alone.
lift-rule :
    {A B : Type 0} (P : ServerState → Type 0) (r : WireResult A) (f : A → M B) (s : ServerState)
    → P s
    → ((a : A) → P (f a s).0)
    → P (◌>>=◌ (lift r) f s).0
lift-rule P (ok a) f s stop next = next a
lift-rule P (err e) f s stop next = stop

-- What other threads do keeps the server well formed, too, and the identifier drawn is a new one.
pub record FairRound (r : Round) (s : ServerState) : Type 0 where
  pub waits : All (λ (turn : Turn). KeepsServer turn.others) r.turns
  pub reads : KeepsServer r.finish.others
  pub fresh : IsFresh r.draw s

answer-IsServer : (m : M (List ℕ)) (s : ServerState) → IsServer (m s).0 → IsServer (answer m s).0
answer-IsServer m s w = >>=-rule IsServer m _ s w (λ a s' v. v)

status-IsServer :
    (m : Moment) (peer : List ℕ) (c : TransferCredentials) (s : ServerState)
    → IsServer s
    → IsServer (Control.status m peer c s).0
unfolding Control.status
status-IsServer m peer c s w =
    session_rule IsServer m peer c _ s (ensure_peer_allowed-IsServer peer m s w)
      (metrics-IsServer s _ w) (λ t a. w)

control_response-IsServer :
    (m : Moment) (peer : List ℕ) (o : Opcode) (payload : List ℕ) (s : ServerState)
    → IsServer s
    → IsServer (answer (encode_control_response m peer o payload) s).0
unfolding encode_control_response
control_response-IsServer m peer o payload s w =
    answer-IsServer (encode_control_response m peer o payload) s (
      lift-rule IsServer (parse_control_request payload) _ s w λ a.
        >>=-rule IsServer (control m peer a.0 a.1 o) _ s (control-IsServer m peer a.0 a.1 o s w)
          (λ b s' v. v))

-- Whatever request a peer sends, in whatever form, the answer leaves a well-formed server so:
-- sessions under their own identifiers, at most 4096 of them and of remembered nonces, each nonce
-- with its session, coverages in order. The identifier drawn must be new, and what other threads do
-- while the request waits must keep the server well formed.
pub dispatch_request-IsServer :
    (utf8 : Utf8) (r : Round) (peer : List ℕ) (o : Opcode) (payload : List ℕ) (s : ServerState)
    → IsServer s
    → FairRound r s
    → IsServer (dispatch_request utf8 r peer o payload s).0
unfolding dispatch_request dispatch encode_manifest_response encode_read_response
    encode_begin_response encode_status_response
dispatch_request-IsServer utf8 r peer get_offer payload s w fair =
    answer-IsServer (encode_manifest_response utf8 r.moment payload) s
      (elim (Bool-cases (not (length payload == 0) || leb s.offered.expires_at r.moment.now)) [
        | inl late ↦ rw late w
        | inr live ↦ rw live w
      ])
dispatch_request-IsServer utf8 r peer begin_transfer payload s w fair =
    answer-IsServer (encode_begin_response r.moment r.later r.draw peer payload) s (
      lift-rule IsServer (parse_begin_request payload) _ s w λ a.
        >>=-rule IsServer (Begin.begin_transfer r.moment r.later r.draw peer a.0 a.1 a.2) _ s
          (begin_transfer-IsServer r.moment r.later r.draw peer a.0 a.1 a.2 s w fair.fresh)
          (λ b s' v. v))
dispatch_request-IsServer utf8 r peer read_range payload s w fair =
    lift-rule IsServer (parse_read_request payload) _ s w λ a.
      >>=-rule IsServer (Read.read_range r.moment r.turns r.serve r.finish peer a.0 a.1 a.2) _ s
        (read_range-IsServer r.moment r.turns r.serve r.finish peer a.0 a.1 a.2 s fair.waits
          fair.reads w)
        (λ b s' v. v)
dispatch_request-IsServer utf8 r peer pause payload s w fair =
    control_response-IsServer r.moment peer pause payload s w
dispatch_request-IsServer utf8 r peer resume payload s w fair =
    control_response-IsServer r.moment peer resume payload s w
dispatch_request-IsServer utf8 r peer cancel payload s w fair =
    control_response-IsServer r.moment peer cancel payload s w
dispatch_request-IsServer utf8 r peer complete payload s w fair =
    control_response-IsServer r.moment peer complete payload s w
dispatch_request-IsServer utf8 r peer status payload s w fair =
    answer-IsServer (encode_status_response r.moment peer payload) s (
      lift-rule IsServer (guard (length payload == wire_len) invalid) _ s w λ u.
        lift-rule IsServer (decode_credentials payload) _ s w λ a.
          >>=-rule IsServer (Control.status r.moment peer a) _ s
            (status-IsServer r.moment peer a s w) (λ b s' v. v))
dispatch_request-IsServer utf8 r peer hello payload s w fair = w
