-- ===== src/Server/Begin.antt =====
-- `begin_transfer` of src/clipboard/secure_transfer.rs.
pub mod Invariant
pub mod Retry
use clip_ferry.Common.{
  ℕ, ◌+◌, Bool, true, false, Option, none, some, List, [], ◌∷◌, length, ltb, leb, if◌then◌else◌,
  ◌||◌, ◌&&◌, not, bytes, bytes_eq,
}
use clip_ferry.Common.Map.{lookup, insert}
use clip_ferry.Common.Result.{Result, ok, err}
use clip_ferry.Wire.Code.{
  WireResult, ResponseStatus, running, denied, expired, replay, busy, internal,
}
use clip_ferry.Wire.Message.{TransferCredentials}
use clip_ferry.Server.Coverage.{no_coverage}
use clip_ferry.Server.State.{
  ServerState, TransferSession, BeginTransferRecord, Moment, M, ◌>>=◌, ◌>>◌, pure, fail, require,
  require_some, get_state, update, count_denied, count_replayed, is_active, credentials,
}
use clip_ferry.Server.Peers.{ensure_peer_allowed, cleanup_expired_sessions}

abbrev pub max_active_transfers : ℕ
max_active_transfers = 64

abbrev pub max_begin_nonces : ℕ
max_begin_nonces = 4096

-- What the operating system's random generator gives to one call; `none` where it fails.
pub record Draw : Type 0 where
  pub transfer_id : Option (List ℕ)
  pub capability : Option (List ℕ)
  pub server_nonce : Option (List ℕ)

unfoldable pub active_transfers : List (List ℕ × TransferSession) → ℕ
active_transfers [] = 0
active_transfers ((k, t) ∷ ts) = (if is_active t.inner.state then 1 else 0) + active_transfers ts

-- The test on a record that an earlier request with the nonce has left.
unfoldable pub record_matches : List ℕ → List ℕ → List ℕ → BeginTransferRecord → Bool
record_matches peer offer file r =
    bytes_eq r.authorized_peer peer && (bytes_eq r.offer_id offer && bytes_eq r.file_id file)

abbrev pub count_begun : ServerState → ServerState
count_begun s = record s {
  metrics = record (s.metrics) { begun_transfers = s.metrics.begun_transfers + 1 };
}

-- The nonce is known: give the credentials of its session again, or refuse a replay.
unfoldable pub repeat_begin :
    ℕ
    → List ℕ
    → List ℕ
    → List ℕ
    → BeginTransferRecord
    → ServerState
    → ServerState × WireResult TransferCredentials
repeat_begin later peer offer file r s =
    if record_matches peer offer file r
    then (elim (lookup r.transfer_id s.transfers) [
      | some t ↦ (s, ok (credentials later t))
      | none ↦ (count_replayed s, err replay)
    ])
    else (count_replayed s, err replay)

-- The session and the record of a nonce that is new.
abbrev pub new_session : List ℕ → List ℕ → List ℕ → List ℕ → List ℕ → List ℕ → ℕ → TransferSession
new_session peer offer file id capability nonce expires = record {
  authorized_peer = peer;
  offer_id = offer;
  file_id = file;
  transfer_id = id;
  capability = capability;
  server_nonce = nonce;
  expires_at = expires;
  inner = record {
    state = running;
    last_control_sequence = 0;
    last_control_opcode = none;
    coverage = no_coverage;
  };
}

abbrev pub new_record : List ℕ → List ℕ → List ℕ → List ℕ → ℕ → BeginTransferRecord
new_record peer offer file id expires = record {
  authorized_peer = peer;
  offer_id = offer;
  file_id = file;
  transfer_id = id;
  expires_at = expires;
}

unfoldable pub register : List ℕ → TransferSession → ServerState → ServerState
register nonce t s = count_begun (record s {
  begin_nonces =
      insert nonce (new_record t.authorized_peer t.offer_id t.file_id t.transfer_id t.expires_at)
        s.begin_nonces;
  transfers = insert t.transfer_id t s.transfers;
})

unfoldable pub fresh_begin :
    ℕ → ℕ → Draw → List ℕ → List ℕ → List ℕ → List ℕ → M TransferCredentials
fresh_begin now later draw peer offer file nonce = do
  s ← get_state
  require
      (not (
        leb max_active_transfers (active_transfers s.transfers)
        || (leb max_begin_nonces (length s.transfers)
            || leb max_begin_nonces (length s.begin_nonces))))
      busy
  id ← require_some draw.transfer_id internal
  require (ltb (now + s.transfer_ttl) s.instant_limit) internal
  capability ← require_some draw.capability internal
  server_nonce ← require_some draw.server_nonce internal
  let t = new_session peer offer file id capability server_nonce (now + s.transfer_ttl)
  update (register nonce t)
  pure (credentials later t)

-- Behind the cleanup: is the nonce known?
unfoldable pub begin_cleaned :
    ℕ → ℕ → Draw → List ℕ → List ℕ → List ℕ → List ℕ → M TransferCredentials
begin_cleaned now later draw peer offer file nonce s = elim (lookup nonce s.begin_nonces) [
  | some r ↦ repeat_begin later peer offer file r s
  | none ↦ fresh_begin now later draw peer offer file nonce s
]

-- `later` is the instant at which the credentials are made out.
unfoldable pub begin_transfer :
    Moment → ℕ → Draw → List ℕ → List ℕ → List ℕ → List ℕ → M TransferCredentials
begin_transfer m later draw peer offer file nonce = do
  ensure_peer_allowed m peer
  s ← get_state
  require (bytes_eq offer s.offered.manifest.offer_id && ltb m.now s.offered.expires_at) expired
  elim (lookup file s.offered.sources) [
    | none ↦ (do update count_denied; fail denied)
    | some source ↦ (do
      update (cleanup_expired_sessions m.now)
      begin_cleaned m.now later draw peer offer file nonce)
  ]
