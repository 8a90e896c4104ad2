-- ===== src/Server/Dispatch.antt =====
-- What the server makes of each kind of request: `encode_manifest_response` on the server's state,
-- `encode_read_response` and `dispatch_request` of src/clipboard/secure_transfer.rs. What comes from outside while a request is handled is a `Round`.
pub mod Invariant
use clip_ferry.Common.{
  ℕ, ◌-◌, Option, none, some, List, length, leb, ◌==◌, ◌||◌, not, if◌then◌else◌,
}
use clip_ferry.Common.Result.{ok, err}
use clip_ferry.Server.Read
use clip_ferry.Wire.Code.{
  Opcode, WireResult, expired, invalid, get_offer, begin_transfer, read_range, status, hello, pause,
  resume, cancel, complete,
}
use clip_ferry.Wire.Message.{parse_read_request, read_response}
use clip_ferry.Offer.Manifest.{OfferManifest, Utf8, encode_manifest}
use clip_ferry.Server.State.{ServerState, Moment, M, ◌>>=◌, ◌>>◌, and_then, pure, require}
use clip_ferry.Server.Peers.{ensure_peer_allowed}
use clip_ferry.Server.Begin.{Draw}
use clip_ferry.Server.Read.{Turn, ReadAnswer, answered, waiting}
use clip_ferry.Server.Answers.{
  lift, response_payload, encode_begin_response, encode_control_response, encode_status_response,
}

-- What the handler of one request takes from outside, and what other threads do to the server
-- while it waits for the request.
pub record Round : Type 0 where
  pub others : ServerState → ServerState
  pub moment : Moment
  pub later : ℕ
  pub draw : Draw
  pub turns : List Turn
  pub serve : Moment
  pub finish : Turn

-- `SecureOfferedFile::manifest`: with the time that is left.
abbrev pub manifest : ℕ → ServerState → OfferManifest
manifest now s = record (s.offered.manifest) { ttl = s.offered.expires_at - now }

unfoldable pub encode_manifest_response : Utf8 → Moment → List ℕ → M (List ℕ)
encode_manifest_response utf8 m payload s =
    if not (length payload == 0) || leb s.offered.expires_at m.now
    then (s, err expired)
    else (s, encode_manifest utf8 (manifest m.now s))

abbrev pub some_response : WireResult (List ℕ) → WireResult (Option (List ℕ))
some_response (ok response) = ok (some response)
some_response (err e) = err e

-- `none` where the read has no answer within the turns given.
unfoldable pub read_payload : ReadAnswer → WireResult (Option (List ℕ))
read_payload (answered st bytes) = some_response (read_response st bytes)
read_payload waiting = ok none

unfoldable pub encode_read_response : Round → List ℕ → List ℕ → M (Option (List ℕ))
encode_read_response r peer payload = do
  (credentials, offset, requested) ← lift (parse_read_request payload)
  answer ← Read.read_range r.moment r.turns r.serve r.finish peer credentials offset requested
  lift (read_payload answer)

abbrev pub answer : M (List ℕ) → M (Option (List ℕ))
answer m = do payload ← m; pure (some payload)

-- The `match` of `dispatch_request`.
unfoldable pub dispatch : Utf8 → Round → List ℕ → Opcode → List ℕ → M (Option (List ℕ))
dispatch utf8 r peer get_offer payload = answer (encode_manifest_response utf8 r.moment payload)
dispatch utf8 r peer begin_transfer payload =
    answer (encode_begin_response r.moment r.later r.draw peer payload)
dispatch utf8 r peer read_range payload = encode_read_response r peer payload
dispatch utf8 r peer pause payload = answer (encode_control_response r.moment peer pause payload)
dispatch utf8 r peer resume payload = answer (encode_control_response r.moment peer resume payload)
dispatch utf8 r peer cancel payload = answer (encode_control_response r.moment peer cancel payload)
dispatch utf8 r peer complete payload =
    answer (encode_control_response r.moment peer complete payload)
dispatch utf8 r peer status payload = answer (encode_status_response r.moment peer payload)
dispatch utf8 r peer hello payload = lift (err invalid)

-- Every refusal is an answer of one byte.
unfoldable pub reply : WireResult (Option (List ℕ)) → Option (List ℕ)
reply (ok none) = none
reply (ok (some payload)) = some (response_payload (ok payload))
reply (err e) = some (response_payload (err e))

unfoldable pub dispatch_request :
    Utf8 → Round → List ℕ → Opcode → List ℕ → ServerState → ServerState × Option (List ℕ)
dispatch_request utf8 r peer opcode payload s =
    let (s', result) = dispatch utf8 r peer opcode payload s in (s', reply result)
