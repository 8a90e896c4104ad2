-- ===== src/Server/State.antt =====
-- The state of the offering side: `ServerState`, `ServerInner`, `TransferSession`, `TransferInner`,
-- `BeginTransferRecord` and `SecureMetrics` of src/clipboard/secure_transfer.rs, and the monad in
-- which its operations are written. Each operation is one step here, though the code takes
-- its locks one after the other; poisoned locks do not occur. Instants and durations count
-- nanoseconds. What an operation takes from outside (the clock, the trust store's answer, random
-- bytes) is an argument of it.
use clip_ferry.Common.{
  ℕ, ◌+◌, ◌-◌, ◌/◌, ◌^◌, Bool, true, false, Option, none, some, List, ltb, if◌then◌else◌,
}
use clip_ferry.Common.Result.{ok, err}
use clip_ferry.Wire.Code.{Opcode, WireResult, ResponseStatus, RemoteTransferState, running, paused}
use clip_ferry.Wire.Message.{TransferCredentials, TransferStatus}
use clip_ferry.Offer.Manifest.{OfferManifest}
use clip_ferry.Server.Coverage.{RangeCoverage}

pub record TransferInner : Type 0 where
  pub state : RemoteTransferState
  pub last_control_sequence : ℕ
  pub last_control_opcode : Option Opcode
  pub coverage : RangeCoverage

pub record TransferSession : Type 0 where
  pub authorized_peer : List ℕ
  pub offer_id : List ℕ
  pub file_id : List ℕ
  pub transfer_id : List ℕ
  pub capability : List ℕ
  pub server_nonce : List ℕ
  pub expires_at : ℕ
  pub inner : TransferInner

pub record BeginTransferRecord : Type 0 where
  pub authorized_peer : List ℕ
  pub offer_id : List ℕ
  pub file_id : List ℕ
  pub transfer_id : List ℕ
  pub expires_at : ℕ

-- The counters that the operations of `ServerState` move.
pub record SecureMetrics : Type 0 where
  pub denied_requests : ℕ
  pub replayed_requests : ℕ
  pub begun_transfers : ℕ
  pub read_requests : ℕ
  pub served_bytes : ℕ
  pub cancelled_transfers : ℕ
  pub active_reads : ℕ
  pub max_concurrent_reads : ℕ

-- A `ReadAtSource`: the bytes that it puts at the front of a buffer of the given length, from the
-- offset on, or `none` for an error.
abbrev pub ReadAtSource : Type 0
ReadAtSource = ℕ → ℕ → Option (List ℕ)

-- `SecureOfferedFile`: the manifest, and the sources of its files.
pub record SecureOfferedFile : Type 0 where
  pub manifest : OfferManifest
  pub sources : List (List ℕ × ReadAtSource)
  pub expires_at : ℕ

-- `instant_limit` is the first instant that the platform's clock cannot represent.
pub record ServerState : Type 0 where
  pub offered : SecureOfferedFile
  pub authorized_peer : List ℕ
  pub has_trust_store : Bool
  pub transfer_ttl : ℕ
  pub request_timeout : ℕ
  pub instant_limit : ℕ
  pub transfers : List (List ℕ × TransferSession)
  pub begin_nonces : List (List ℕ × BeginTransferRecord)
  pub metrics : SecureMetrics
  pub injected_response_drops : ℕ

-- What a step learns from outside: the clock, and whether the trust store still loads a peer.
pub record Moment : Type 0 where
  pub now : ℕ
  pub load_peer_ok : List ℕ → Bool

-- An operation on the server that ends with a value or a refusal; both keep the changes made.
abbrev pub M : Type 0 → Type 0
M A = ServerState → ServerState × WireResult A

abbrev pub and_then :
    {A B : Type 0} → WireResult A → ServerState → (A → M B) → ServerState × WireResult B
and_then (ok a) s f = f a s
and_then (err e) s f = (s, err e)

infixl 5 ◌>>=◌ ◌>>◌
abbrev pub ◌>>=◌ : {A B : Type 0} → M A → (A → M B) → M B
◌>>=◌ m f s = and_then (m s).1 (m s).0 f

abbrev pub ◌>>◌ : {B : Type 0} → M (Unit {0}) → M B → M B
m >> k = m >>= λ _. k

abbrev pub pure : {A : Type 0} → A → M A
pure a s = (s, ok a)

abbrev pub fail : {A : Type 0} → ResponseStatus → M A
fail e s = (s, err e)

-- `if !test { return Err(e); }`
abbrev pub require : Bool → ResponseStatus → M (Unit {0})
require true e = pure tt
require false e = fail e

-- `option.ok_or(e)?`
abbrev pub require_some : {A : Type 0} → Option A → ResponseStatus → M A
require_some none e = fail e
require_some (some a) e = pure a

abbrev pub get_state : M ServerState
get_state s = (s, ok s)

abbrev pub update : (ServerState → ServerState) → M (Unit {0})
update f s = (f s, ok tt)

abbrev pub count_denied : ServerState → ServerState
count_denied s = record s {
  metrics = record (s.metrics) { denied_requests = s.metrics.denied_requests + 1 };
}

abbrev pub count_replayed : ServerState → ServerState
count_replayed s = record s {
  metrics = record (s.metrics) { replayed_requests = s.metrics.replayed_requests + 1 };
}

abbrev pub count_cancelled : ℕ → ServerState → ServerState
count_cancelled n s = record s {
  metrics = record (s.metrics) { cancelled_transfers = s.metrics.cancelled_transfers + n };
}

-- `matches!(state, Running | Paused)`
unfoldable pub is_active : RemoteTransferState → Bool
is_active running = true
is_active paused = true
is_active RemoteTransferState.cancelled = false
is_active RemoteTransferState.completed = false

abbrev pub status_of : TransferInner → TransferStatus
status_of i = record { state = i.state; unique_bytes = i.coverage.unique_bytes }

-- `TransferSession::credentials`, at the instant `now`.
unfoldable pub credentials : ℕ → TransferSession → TransferCredentials
credentials now t = record {
  offer_id = t.offer_id;
  file_id = t.file_id;
  transfer_id = t.transfer_id;
  capability = t.capability;
  server_nonce = t.server_nonce;
  expires_at_millis =
      let millis = (t.expires_at - now) / 1000000 in
      if ltb millis (2 ^ 64) then millis else 2 ^ 64 - 1;
}
